-- ===== src/Taxonomy/Drafted.antt =====
-- What `draft_taxonomy` of src/patsquire_plr/landscape/taxonomy.py keeps true of its segments.
use patent_landscapes.Base.{
  ◌≤◌, ◌≡◌, refl, sym, ap, ◌∙◌, subst, ◌⊎◌, inl, inr, true, false, Option, none, some, List, [],
  ◌∷◌, ◌++◌, map, arith, ==_iff, Bool-cases, Option-cases, nat_eq, length, take, All, length-append,
  All-append, All-map,
}
use mathlib.Core.Option.{some-injective}
use patent_landscapes.Base.Text.{Text, Unicode, Letters, text_eq}
use patent_landscapes.Base.Dict.{contains, distinct_from, distinct_from-new, get, put, get-put}
use patent_landscapes.Base.Result.{ok, bind-ok, ok-injective}
use patent_landscapes.Cpc.Search.{CpcMatch, search_titles}
use patent_landscapes.Taxonomy.Spec.{
  SegmentSpec, ResolvedCpc, Reason, is_segment, terms, ids_of, has_unique_ids,
}
use patent_landscapes.Taxonomy.Ids.{segment_id}
use patent_landscapes.Taxonomy.Fresh.{segment_id-fresh}
use patent_landscapes.Taxonomy.Segment.{DraftSegment, segment_from_draft, drafted_spec, groups_of}
use patent_landscapes.Taxonomy.Pick.{accept_picks}
use patent_landscapes.Taxonomy.Picked.{accept_picks-IsSound}
use patent_landscapes.Taxonomy.Offers.{offers, once}
use patent_landscapes.Taxonomy.Draft.{
  Setting, Drafting, Limits, pick, named, found_candidates, resolved, symbols_of, with_cpc,
  add_segment, draft_new, draft_named, draft_one, draft_all, start_drafting, is_spec,
}
use patent_landscapes.Taxonomy.Hints.{name_key}

-- A segment without its codes.
abbrev pub bare : SegmentSpec → SegmentSpec
bare s = record s { cpc = [] }

-- A segment that its validator accepted without codes, with the codes that are chosen under its
-- identifier: of the candidates that the search for its terms finds, those that the model's picks
-- name, in order, once each, and no more than the limit.
abbrev pub IsFilled : Setting → List (Text × List ResolvedCpc) → SegmentSpec → Type 0
IsFilled g chosen s =
    (ms : List CpcMatch) × (picks : List Text) × (calls : List Text) × (after : List Text)
    × (search_titles g.unicode g.letters g.scheme (terms g.letters s) g.within
          g.limits.candidates_per_segment
        ≡ some ms)
    × (pick g.letters g.model g.limits (bare s) calls (map resolved ms) ≡ ok (picks, after))
    × (get s.id chosen
        ≡ some (
            take g.limits.max_cpc_per_segment (once [] (offers g.unicode (map resolved ms) picks))))
    × (s.cpc
        ≡ symbols_of (
            take g.limits.max_cpc_per_segment (once [] (offers g.unicode (map resolved ms) picks))))
    × (is_segment g.unicode g.letters (bare s) ≡ true)

-- Identifiers, each of which is not among those before it.
abbrev pub AllNew : List Text → List SegmentSpec → Type 0
AllNew seen [] = Unit
AllNew seen (s ∷ ss) = (contains s.id seen ≡ false) × AllNew (s.id ∷ seen) ss

abbrev pub IsDrafted : Setting → Drafting → Type 0
IsDrafted g d =
    All (λ s. contains s.id d.taken ≡ true) d.segments
    × AllNew [] d.segments
    × All (IsFilled g d.chosen) d.segments

append-AllNew :
    (seen : List Text) (ss : List SegmentSpec) (s : SegmentSpec)
    → AllNew seen ss
    → contains s.id seen ≡ false
    → All (λ t. text_eq.beq t.id s.id ≡ false) ss
    → AllNew seen (ss ++ (s ∷ []))
append-AllNew seen [] s h n k = (n, tt)
append-AllNew seen (t ∷ ss) s h n k = (h.0, append-AllNew (t.id ∷ seen) ss s h.1 (ground arith) k.1)

distinct-AllNew :
    (seen : List Text) (ss : List SegmentSpec)
    → AllNew seen ss
    → distinct_from seen (ids_of ss) ≡ ids_of ss
distinct-AllNew seen [] h = refl
distinct-AllNew seen (s ∷ ss) h =
    distinct_from-new s.id seen (ids_of ss) h.0
    ∙ ap (λ ts. s.id ∷ ts) (distinct-AllNew (s.id ∷ seen) ss h.1)

-- An identifier that is not taken differs from one that is.
taken_apart :
    (id other : Text) (taken : List Text)
    → contains id taken ≡ false
    → contains other taken ≡ true
    → text_eq.beq other id ≡ false
taken_apart id other taken n h = elim (Bool-cases (text_eq.beq other id)) [
  | inr f ↦ f
  | inl t ↦
      let same : other ≡ id = (text_eq.beq_iff other id).0 t in
      let held : contains id taken ≡ true = subst (λ x. contains x taken ≡ true) same h in
      ground arith
]

segment_from_draft_lem :
    (u : Unicode) (l : Letters) (d : DraftSegment) (id : Text) (spec : SegmentSpec)
    (bad : List (Text × Reason))
    → segment_from_draft u l d id ≡ ok (spec, bad)
    → (spec.id ≡ id) × (is_segment u l (bare spec) ≡ true) × (bare spec ≡ spec)
unfolding segment_from_draft drafted_spec
segment_from_draft_lem u l d id spec bad h =
    let found = groups_of u l d.keywords in
    let made = drafted_spec u d id found.0 in
    elim (Bool-cases (is_segment u l made)) [
      | inr e ↦ ground arith
      | inl e ↦
          let same : made ≡ spec = ground arith in
          subst (λ (s : SegmentSpec). (s.id ≡ id) × (is_segment u l (bare s) ≡ true) × (bare s ≡ s))
            same (refl, e, refl)
    ]

All-both :
    (P Q : SegmentSpec → Type 0) (ss : List SegmentSpec)
    → All P ss
    → All Q ss
    → All (λ s. P s × Q s) ss
All-both P Q [] h k = tt
All-both P Q (s ∷ ss) h k = ((h.0, k.0), All-both P Q ss h.1 k.1)

add_segment-IsDrafted :
    (g : Setting) (key id : Text) (d : Drafting) (spec : SegmentSpec) (bad : List (Text × Reason))
    (ms : List CpcMatch) (picks : List Text × List Text)
    → IsDrafted g d
    → spec.id ≡ id
    → contains id d.taken ≡ false
    → is_segment g.unicode g.letters (bare spec) ≡ true
    → search_titles g.unicode g.letters g.scheme
        (terms g.letters spec)
        g.within
        g.limits.candidates_per_segment
      ≡ some ms
    → pick g.letters g.model g.limits (bare spec) d.calls (map resolved ms) ≡ ok picks
    → IsDrafted g (add_segment g.unicode g.letters g.limits key d spec bad (map resolved ms) picks)
unfolding add_segment terms
add_segment-IsDrafted g key id d spec bad ms (picks, calls) h same fresh valid found picked =
    let limit = g.limits.max_cpc_per_segment in
    let accepted = (accept_picks g.unicode picks (map resolved ms) limit).0 in
    let new : contains spec.id d.taken ≡ false =
      subst (λ x. contains x d.taken ≡ false) (sym same) fresh in
    let x = with_cpc spec accepted in
    let chosen = put spec.id accepted d.chosen in
    let order = (accept_picks-IsSound g.unicode picks (map resolved ms) limit).0 in
    let itself = (text_eq.beq_iff spec.id spec.id).1 refl in
    let stored : get spec.id chosen ≡ some accepted =
      ground (arith, get-put spec.id spec.id accepted d.chosen) in
    let held : All (λ s. contains s.id (spec.id ∷ d.taken) ≡ true) d.segments =
      All-map (λ s k. ground arith) d.segments h.0 in
    let apart : All (λ s. text_eq.beq s.id spec.id ≡ false) d.segments =
      All-map (λ s k. taken_apart spec.id s.id d.taken new k) d.segments h.0 in
    (
      All-append (λ s. contains s.id (spec.id ∷ d.taken) ≡ true) d.segments (x ∷ []) held
          (ground arith, tt),
      append-AllNew [] d.segments x h.1 refl apart,
      All-append (IsFilled g chosen) d.segments (x ∷ [])
          (All-map (λ s k. still_filled s accepted k.0 k.1) d.segments
            (All-both (λ s. text_eq.beq s.id spec.id ≡ false) (IsFilled g d.chosen) d.segments apart
              h.2))
          (
            (
              ms,
              picks,
              d.calls,
              calls,
              found,
              picked,
              stored ∙ ap some order,
              ap symbols_of order,
              valid,
            ),
            tt,
          ),
    )
  where
    still_filled :
        (s : SegmentSpec) (accepted : List ResolvedCpc)
        → text_eq.beq s.id spec.id ≡ false
        → IsFilled g d.chosen s
        → IsFilled g (put spec.id accepted d.chosen) s
    still_filled s accepted n (ms', old, before, after, f, a, e, c, v) = (
      ms',
      old,
      before,
      after,
      f,
      a,
      ground (
        arith,
        get-put spec.id s.id accepted d.chosen,
        text_eq.beq_iff s.id spec.id,
        text_eq.beq_iff spec.id s.id,
      ),
      c,
      v,
    )

named_lem : (o : Option Text) (id : Text) → named o ≡ ok id → o ≡ some id
named_lem none id h = cc
named_lem (some x) id h = cc

found_candidates_lem :
    (o : Option (List CpcMatch)) (candidates : List ResolvedCpc)
    → found_candidates o ≡ ok candidates
    → (ms : List CpcMatch) × (o ≡ some ms) × (map resolved ms ≡ candidates)
found_candidates_lem none candidates h = cc
found_candidates_lem (some ms) candidates h = (ms, refl, cc)

add_segment-segments :
    (u : Unicode) (l : Letters) (limits : Limits) (key : Text) (d : Drafting) (spec : SegmentSpec)
    (bad : List (Text × Reason)) (candidates : List ResolvedCpc) (picks : List Text × List Text)
    → 1 ≤ length (add_segment u l limits key d spec bad candidates picks).segments
unfolding add_segment
add_segment-segments u l limits key d spec bad candidates (picks, calls) = omega (
  arith,
  length-append {0} d.segments
      (with_cpc spec (accept_picks u picks candidates limits.max_cpc_per_segment).0 ∷ []),
)

-- What holds after a segment was drafted.
abbrev pub IsBegun : Setting → Drafting → Type 0
IsBegun g d = IsDrafted g d × (1 ≤ length d.segments)

draft_new-IsDrafted :
    (g : Setting) (key : Text) (d e : Drafting) (drafted : DraftSegment)
    → IsDrafted g d
    → draft_new g key d drafted ≡ ok e
    → IsBegun g e
unfolding draft_new
draft_new-IsDrafted g key d e drafted h k =
    let (fresh_id, found_id, fresh) = segment_id-fresh g.letters g.to_ascii drafted.name d.taken in
    let (id, a, k1) =
      bind-ok (named (segment_id g.letters g.to_ascii drafted.name d.taken)) _ e k in
    let (made, b, k2) = bind-ok (segment_from_draft g.unicode g.letters drafted id) _ e k1 in
    let (candidates, c, k3) =
      bind-ok
        (found_candidates (
          search_titles g.unicode g.letters g.scheme (terms g.letters made.0) g.within
            g.limits.candidates_per_segment))
        _ e k2 in
    let (picks, p, k4) =
      bind-ok (pick g.letters g.model g.limits made.0 d.calls candidates) _ e k3 in
    let (ms, found, same) = found_candidates_lem _ candidates c in
    let (named_id, valid, without) =
      segment_from_draft_lem g.unicode g.letters drafted id made.0 made.1 b in
    let new : contains id d.taken ≡ false =
      subst (λ x. contains x d.taken ≡ false) (some-injective _ _ (sym found_id ∙ named_lem _ id a))
        fresh in
    let picked : pick g.letters g.model g.limits (bare made.0) d.calls (map resolved ms)
        ≡ ok picks =
      ap (λ t. pick g.letters g.model g.limits t d.calls (map resolved ms)) without
      ∙ (ap (λ cs. pick g.letters g.model g.limits made.0 d.calls cs) same ∙ p) in
    let result : IsDrafted g
        (add_segment g.unicode g.letters g.limits key d made.0 made.1 (map resolved ms) picks) =
      add_segment-IsDrafted g key id d made.0 made.1 ms picks h named_id new valid found picked in
    let last =
      ap (λ cs. add_segment g.unicode g.letters g.limits key d made.0 made.1 cs picks) same
      ∙ ok-injective _ e k4 in
    subst (IsBegun g) last (
      result,
      add_segment-segments g.unicode g.letters g.limits key d made.0 made.1 (map resolved ms) picks,
    )

-- A loop state without names has no segments yet; one with names has.
draft_one-IsDrafted :
    (g : Setting) (d e : Drafting) (s : DraftSegment)
    → IsDrafted g d
    → ((k : Text) → get k d.names ≡ none) ⊎ (1 ≤ length d.segments)
    → draft_one g d s ≡ ok e
    → IsBegun g e
unfolding draft_one
draft_one-IsDrafted g d e s h some_yet k =
    let key = name_key g.unicode g.letters s.name in
    elim (Option-cases (get key d.names)) [
      | inl n ↦ draft_new-IsDrafted g key d e s h (subst (λ o. draft_named g key d s o ≡ ok e) n k)
      | inr (id, n) ↦
          let same = ok-injective _ e (subst (λ o. draft_named g key d s o ≡ ok e) n k) in
          elim some_yet [
            | inl empty ↦ let nothing = empty key in cc
            | inr begun ↦ subst (IsBegun g) same (h, begun)
          ]
    ]

draft_all-IsDrafted :
    (g : Setting) (d e : Drafting) (ss : List DraftSegment)
    → IsBegun g d
    → draft_all g d ss ≡ ok e
    → IsBegun g e
unfolding draft_all
draft_all-IsDrafted g d e [] h k = subst (IsBegun g) (ok-injective d e k) h
draft_all-IsDrafted g d e (s ∷ ss) h k =
    let (f, a, rest) = bind-ok (draft_one g d s) _ e k in
    draft_all-IsDrafted g f e ss (draft_one-IsDrafted g d f s h.0 (inr h.1) a) rest

-- The whole loop, over at least one drafted segment.
pub drafted-IsDrafted :
    (g : Setting) (cache_key : Text) (e : Drafting) (ss : List DraftSegment)
    → 1 ≤ length ss
    → draft_all g (start_drafting cache_key) ss ≡ ok e
    → IsBegun g e
unfolding draft_all get
drafted-IsDrafted g cache_key e [] n k = absurd (omega arith)
drafted-IsDrafted g cache_key e (s ∷ ss) n k =
    let (f, a, rest) = bind-ok (draft_one g (start_drafting cache_key) s) _ e k in
    draft_all-IsDrafted g f e ss
      (draft_one-IsDrafted g (start_drafting cache_key) f s (tt, tt, tt) (inl (λ k. refl)) a) rest

-- A drafting that has begun passes the validators of `TaxonomySpec`.
pub begun-is_spec : (g : Setting) (d : Drafting) → IsBegun g d → is_spec d.segments ≡ true
unfolding has_unique_ids
begun-is_spec g d h = go d.segments h.1 h.0.1
  where
    go : (ss : List SegmentSpec) → 1 ≤ length ss → AllNew [] ss → is_spec ss ≡ true
    go [] n new = absurd (omega arith)
    go (s ∷ ss) n new =
        let count = ap length (distinct-AllNew [] (s ∷ ss) new) in
        (==_iff (length (distinct_from [] (ids_of (s ∷ ss)))) (length (ids_of (s ∷ ss)))).1 count
