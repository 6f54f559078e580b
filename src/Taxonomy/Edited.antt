-- ===== src/Taxonomy/Edited.antt =====
-- What `content_from_edit` of src/patsquire_plr/landscape/taxonomy.py accepts, and what it returns.
use patent_landscapes.Base.{
  ◌≤◌, ◌<◌, ◌≡◌, refl, sym, ap, ◌∙◌, subst, ◌⊎◌, inl, inr, false, Option, none, some, List, [], ◌∷◌,
  ◌++◌, arith, Bool-cases, is_some, nat_eq, length, All, length-append, All-append,
}
use mathlib.Core.Option.{some-injective}
use patent_landscapes.Base.Text.{Text, Unicode, text_eq}
use patent_landscapes.Base.Dict.{get, set_default}
use patent_landscapes.Base.Result.{ok, err}
use patent_landscapes.Cpc.Scheme.{CpcScheme, CpcEntry}
use patent_landscapes.Cpc.Within.{CheckProblem, check}
use patent_landscapes.Taxonomy.Spec.{SegmentSpec, TaxonomySpec, TaxonomyContent, ResolvedCpc}
use patent_landscapes.Taxonomy.Replaced.{AllReplaced, edit_segments-AllReplaced}
use patent_landscapes.Taxonomy.Edit.{
  not_accepted, too_broad, with_entry, listed_at, EditProblem, wrong_codes, listed_entry, is_broad,
  Resolved, at_path, resolve_entry, resolve_codes, resolved_symbols, Editing, add_edited,
  edit_segments, unless_problems, edited_content, no_edits, content_from_edit,
}

-- A symbol of a subclass or a group that the scheme lists.
abbrev pub IsUsable : CpcScheme → Text → Type 0
IsUsable s symbol = (e : CpcEntry) × (get symbol s.entries ≡ some e) × (is_broad e.kind ≡ false)

-- A code that checks to such a symbol.
abbrev pub IsAcceptable : Unicode → CpcScheme → Text → Type 0
IsAcceptable u s code =
    (symbol : Text) × (path : Text) × (e : CpcEntry) × (listed_entry s (check u s code)
      ≡ some (symbol, path, e))
    × (is_broad e.kind ≡ false)

with_entry_lem :
    (s : CpcScheme) (t p symbol path : Text) (e : CpcEntry) (o : Option CpcEntry)
    → get t s.entries ≡ o
    → with_entry t p o ≡ some (symbol, path, e)
    → get symbol s.entries ≡ some e
with_entry_lem s t p symbol path e none g q = cc
with_entry_lem s t p symbol path e (some x) g q =
    let same = some-injective _ _ q in
    let found = ap (λ (r : Text × Text × CpcEntry). get r.0 s.entries) same in
    sym found ∙ (g ∙ ap (λ (r : Text × Text × CpcEntry). some r.2) same)

listed_entry_lem :
    (s : CpcScheme) (t p : Option Text) (symbol path : Text) (e : CpcEntry)
    → listed_at s t p ≡ some (symbol, path, e)
    → get symbol s.entries ≡ some e
listed_entry_lem s none p symbol path e h = cc
listed_entry_lem s (some t) none symbol path e h = cc
listed_entry_lem s (some t) (some p) symbol path e h =
    with_entry_lem s t p symbol path e (get t s.entries) refl h

set_default-symbols :
    (s : CpcScheme) (k : Text) (v : ResolvedCpc) (d : Resolved)
    → All (IsUsable s) (resolved_symbols d)
    → IsUsable s k
    → All (IsUsable s) (resolved_symbols (set_default k v d))
unfolding set_default
set_default-symbols s k v d h i = elim (Bool-cases (is_some (get k d))) [
  | inl e ↦ rw e h
  | inr e ↦ rw e (append d h)
]
  where
    append :
        (d : Resolved)
        → All (IsUsable s) (resolved_symbols d)
        → All (IsUsable s) (resolved_symbols (d ++ ((k, v) ∷ [])))
    append [] h = (i, tt)
    append (x ∷ d) h = (h.0, append d h.1)

-- Either every code is acceptable and the problems are as before, or one is not and they are more.
abbrev Counted : Unicode → CpcScheme → List EditProblem → List EditProblem → Type 0 → Type 0
Counted u s before after P = (P × (after ≡ before)) ⊎ ((¬ P) × (length before < length after))

entry_lem :
    (u : Unicode) (s : CpcScheme) (id code : Text) (problem : Option CheckProblem) (d : Resolved)
    (ps : List EditProblem) (o : Option (Text × Text × CpcEntry))
    → listed_entry s (check u s code) ≡ o
    → All (IsUsable s) (resolved_symbols d)
    → (d' : Resolved) × (ps' : List EditProblem) × (resolve_entry id problem o (d, ps) ≡ (d', ps'))
      × All (IsUsable s) (resolved_symbols d')
      × Counted u s ps ps' (IsAcceptable u s code)
entry_lem u s id code problem d ps none q h = (
  d,
  ps ++ (not_accepted id problem ∷ []),
  refl,
  h,
  inr (
    λ (symbol, path, e, r, v). let t = sym q ∙ r in ground arith,
    omega (arith, length-append {0} ps (not_accepted id problem ∷ [])),
  ),
)
entry_lem u s id code problem d ps (some (symbol, path, e)) q h =
    elim (Bool-cases (is_broad e.kind)) [
      | inl b ↦ (
        d,
        ps ++ (too_broad id symbol e.kind ∷ []),
        rw b refl,
        h,
        inr (
          λ (symbol', path', e', r, v).
              let same = some-injective _ _ (sym q ∙ r) in
              let kind = ap (λ (x : Text × Text × CpcEntry). is_broad x.2.kind) same in
              ground arith,
          omega (arith, length-append {0} ps (too_broad id symbol e.kind ∷ [])),
        ),
      )
      | inr b ↦ (
        set_default symbol (at_path symbol path) d,
        ps,
        rw b refl,
        set_default-symbols s symbol (at_path symbol path) d h (
          e,
          listed_entry_lem s (check u s code).symbol (check u s code).title_path symbol path e q,
          b,
        ),
        inl ((symbol, path, e, q, b), refl),
      )
    ]

join_verdicts :
    (u : Unicode) (s : CpcScheme) (a b c : List EditProblem) (P Q : Type 0)
    → Counted u s a b P
    → Counted u s b c Q
    → Counted u s a c (P × Q)
join_verdicts u s a b c P Q (inl (p, e)) (inl (q, f)) = inl ((p, q), f ∙ e)
join_verdicts u s a b c P Q (inl (p, e)) (inr (n, l)) =
    let same = ap length e in inr (λ h. n h.1, omega arith)
join_verdicts u s a b c P Q (inr (n, l)) (inl (q, f)) =
    let same = ap length f in inr (λ h. n h.0, omega arith)
join_verdicts u s a b c P Q (inr (n, l)) (inr (m, k)) = inr (λ h. n h.0, omega arith)

codes_lem :
    (u : Unicode) (s : CpcScheme) (id : Text) (d : Resolved) (ps : List EditProblem)
    (cs : List Text)
    → All (IsUsable s) (resolved_symbols d)
    → (d' : Resolved) × (ps' : List EditProblem) × (resolve_codes u s id (d, ps) cs ≡ (d', ps'))
      × All (IsUsable s) (resolved_symbols d')
      × Counted u s ps ps' (All (IsAcceptable u s) cs)
unfolding resolve_codes
codes_lem u s id d ps [] h = (d, ps, refl, h, inl (tt, refl))
codes_lem u s id d ps (code ∷ cs) h =
    let c = check u s code in
    let (d1, ps1, e, h1, v1) = entry_lem u s id code c.problem d ps (listed_entry s c) refl h in
    let (d2, ps2, f, h2, v2) = codes_lem u s id d1 ps1 cs h1 in
    (
      d2,
      ps2,
      ap (λ t. resolve_codes u s id t cs) e ∙ f,
      h2,
      join_verdicts u s ps ps1 ps2 (IsAcceptable u s code) (All (IsAcceptable u s) cs) v1 v2,
    )

-- Every code of a segment can be used.
abbrev pub HasUsable : CpcScheme → SegmentSpec → Type 0
HasUsable s segment = All (IsUsable s) segment.cpc

abbrev pub HasAcceptable : Unicode → CpcScheme → SegmentSpec → Type 0
HasAcceptable u s segment = All (IsAcceptable u s) segment.cpc

segments_lem :
    (u : Unicode) (s : CpcScheme) (e : Editing) (ss : List SegmentSpec)
    → All (HasUsable s) e.segments
    → All (HasUsable s) (edit_segments u s e ss).segments
      × Counted u s e.problems (edit_segments u s e ss).problems (All (HasAcceptable u s) ss)
unfolding edit_segments
segments_lem u s e [] h = (h, inl (tt, refl))
segments_lem u s e (segment ∷ ss) h =
    let (d, ps, q, usable, v) = codes_lem u s segment.id [] e.problems segment.cpc tt in
    let next = add_edited e segment (d, ps) in
    let edited : SegmentSpec = record segment { cpc = resolved_symbols d } in
    let (rest, w) =
      segments_lem u s next ss (All-append (HasUsable s) e.segments (edited ∷ []) h (usable, tt)) in
    let same : edit_segments u s next ss
        ≡ edit_segments u s
            (add_edited e segment (resolve_codes u s segment.id ([], e.problems) segment.cpc)) ss =
      ap (λ t. edit_segments u s (add_edited e segment t) ss) (sym q) in
    subst
      (λ (t : Editing).
        All (HasUsable s) t.segments
        × Counted u s e.problems t.problems
            (HasAcceptable u s segment × All (HasAcceptable u s) ss))
      same
      (
        rest,
        join_verdicts u s e.problems ps (edit_segments u s next ss).problems
            (HasAcceptable u s segment) (All (HasAcceptable u s) ss) v w,
      )

-- An edited taxonomy is imported exactly if every code of every segment checks to a subclass or a
-- group that the scheme lists; then it has the topic of the edit and its segments in their order,
-- each with nothing changed but its codes, which are the symbols that the codes of the edit name,
-- once each; and every one is a subclass or a group that the scheme lists. Otherwise the import fails
-- with the problems.
pub content_from_edit-cases :
    (u : Unicode) (s : CpcScheme) (previous : Option TaxonomyContent) (spec : TaxonomySpec)
    → (All (HasAcceptable u s) spec.segments
        × ((content : TaxonomyContent) × (content_from_edit u s previous (some spec) ≡ ok content)
            × (content.spec.topic ≡ spec.topic)
            × AllReplaced u s spec.segments content.spec.segments
            × All (HasUsable s) content.spec.segments))
      ⊎ ((¬ All (HasAcceptable u s) spec.segments)
          × ((ps : List EditProblem) × (content_from_edit u s previous (some spec)
                ≡ err (wrong_codes ps))
              × (1 ≤ length ps)))
unfolding content_from_edit
content_from_edit-cases u s previous spec =
    let e = edit_segments u s no_edits spec.segments in
    let (usable, v) = segments_lem u s no_edits spec.segments tt in
    let (after, same, replaced) = edit_segments-AllReplaced u s no_edits spec.segments in
    elim v [
      | inl (p, none_) ↦ inl (
        p,
        (
          edited_content u s previous spec.topic e,
          ap (unless_problems u s previous spec.topic e) none_,
          refl,
          subst (AllReplaced u s spec.segments) (sym same) replaced,
          usable,
        ),
      )
      | inr (n, l) ↦ inr (n, (e.problems, failed e e.problems l, l))
    ]
  where
    failed :
        (e : Editing) (ps : List EditProblem)
        → 0 < length ps
        → unless_problems u s previous spec.topic e ps ≡ err (wrong_codes ps)
    failed e [] l = absurd (omega arith)
    failed e (p ∷ ps) l = refl
