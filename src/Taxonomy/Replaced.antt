-- ===== src/Taxonomy/Replaced.antt =====
-- What `content_from_edit` of src/patsquire_plr/landscape/taxonomy.py makes of a segment: its codes are
-- replaced by the symbols that they name, and nothing else changes.
use patent_landscapes.Base.{
  ◌≡◌, refl, sym, ap, ◌∙◌, subst, ◌⊎◌, ◌↔◌, inl, inr, true, false, Option, none, some, List, [],
  ◌∷◌, ◌++◌, append-nil, append_assoc, arith, Bool-cases, is_some, nat_eq, IsIn,
}
use mathlib.Core.Option.{some-injective}
use patent_landscapes.Base.Text.{Text, Unicode, text_eq}
use patent_landscapes.Base.Dict.{get, set_default}
use patent_landscapes.Base.Pigeon.{AllApart}
use patent_landscapes.Cpc.Scheme.{CpcScheme, CpcEntry}
use patent_landscapes.Cpc.Within.{CheckProblem, check}
use patent_landscapes.Taxonomy.Spec.{SegmentSpec, ResolvedCpc}
use patent_landscapes.Taxonomy.Edit.{
  EditProblem, listed_entry, is_broad, Resolved, at_path, resolve_entry, resolve_codes,
  resolved_symbols, Editing, add_edited, edit_segments,
}

-- A code that checks to a symbol of a subclass or a group.
abbrev pub Names : Unicode → CpcScheme → Text → Text → Type 0
Names u s code symbol =
    (path : Text) × (e : CpcEntry) × (listed_entry s (check u s code) ≡ some (symbol, path, e))
    × (is_broad e.kind ≡ false)

-- The segment with the symbols that its codes name, once each, for its codes.
pub record IsReplaced (u : Unicode) (s : CpcScheme) (before after : SegmentSpec) : Type 0 where
  pub others_kept : after ≡ record before { cpc = after.cpc }
  pub each_once : AllApart after.cpc
  pub each_named :
      (x : Text) → IsIn x after.cpc ↔ ((code : Text) × IsIn code before.cpc × Names u s code x)

abbrev pub AllReplaced : Unicode → CpcScheme → List SegmentSpec → List SegmentSpec → Type 0
AllReplaced u s [] [] = Unit
AllReplaced u s [] (a ∷ after) = ⊥
AllReplaced u s (b ∷ before) [] = ⊥
AllReplaced u s (b ∷ before) (a ∷ after) = IsReplaced u s b a × AllReplaced u s before after

held_iff : (k : Text) (d : Resolved) → (is_some (get k d) ≡ true) ↔ IsIn k (resolved_symbols d)
unfolding get
held_iff k [] = (λ h. cc, λ i. absurd i)
held_iff k ((j, v) ∷ d) = (
  λ h. elim (Bool-cases (text_eq.beq j k)) [
    | inl t ↦ inl (sym ((text_eq.beq_iff j k).0 t))
    | inr f ↦ inr ((held_iff k d).0 (ground arith))
  ],
  elim [
    | inl q ↦ let t = (text_eq.beq_iff j k).1 (sym q) in ground arith
    | inr i ↦ let t = (held_iff k d).1 i in ground arith
  ],
)

added_iff :
    (x k : Text) (v : ResolvedCpc) (d : Resolved)
    → IsIn x (resolved_symbols (d ++ ((k, v) ∷ []))) ↔ (IsIn x (resolved_symbols d) ⊎ (x ≡ k))
added_iff x k v [] =
    (elim [ inl q ↦ inr q | inr i ↦ absurd i ], elim [ inl i ↦ absurd i | inr q ↦ inl q ])
added_iff x k v (p ∷ d) = (
  elim [
    | inl q ↦ inl (inl q)
    | inr i ↦ elim ((added_iff x k v d).0 i) [ inl j ↦ inl (inr j) | inr q ↦ inr q ]
  ],
  elim [
    | inl (inl q) ↦ inl q
    | inl (inr i) ↦ inr ((added_iff x k v d).1 (inl i))
    | inr q ↦ inr ((added_iff x k v d).1 (inr q))
  ],
)

added-AllApart :
    (k : Text) (v : ResolvedCpc) (d : Resolved)
    → AllApart (resolved_symbols d)
    → ¬ IsIn k (resolved_symbols d)
    → AllApart (resolved_symbols (d ++ ((k, v) ∷ [])))
added-AllApart k v [] h n = (λ i. i, tt)
added-AllApart k v ((j, w) ∷ d) h n = (
  λ i. elim ((added_iff j k v d).0 i) [ inl l ↦ h.0 l | inr q ↦ n (inl (sym q)) ],
  added-AllApart k v d h.1 (λ i. n (inr i)),
)

-- After a code, its symbol is there besides those before.
set_default_iff :
    (k : Text) (v : ResolvedCpc) (d : Resolved)
    → AllApart (resolved_symbols d)
    → AllApart (resolved_symbols (set_default k v d))
      × ((x : Text)
          → IsIn x (resolved_symbols (set_default k v d)) ↔ (IsIn x (resolved_symbols d) ⊎ (x ≡ k)))
unfolding set_default
set_default_iff k v d h = elim (Bool-cases (is_some (get k d))) [
  | inl e ↦ rw e (
    h,
    λ x. (
      λ i. inl i,
      elim [
        | inl i ↦ i
        | inr q ↦ subst (λ y. IsIn y (resolved_symbols d)) (sym q) ((held_iff k d).0 e)
      ],
    ),
  )
  | inr e ↦ rw e (
    added-AllApart k v d h (λ i. let t = (held_iff k d).1 i in ground arith),
    λ x. added_iff x k v d,
  )
]

entry-Names :
    (u : Unicode) (s : CpcScheme) (id code : Text) (problem : Option CheckProblem) (d : Resolved)
    (ps : List EditProblem) (o : Option (Text × Text × CpcEntry))
    → listed_entry s (check u s code) ≡ o
    → AllApart (resolved_symbols d)
    → AllApart (resolved_symbols (resolve_entry id problem o (d, ps)).0)
      × ((x : Text)
          → IsIn x (resolved_symbols (resolve_entry id problem o (d, ps)).0)
            ↔ (IsIn x (resolved_symbols d) ⊎ Names u s code x))
entry-Names u s id code problem d ps none q h = (
  h,
  λ x. (λ i. inl i, elim [ inl i ↦ i | inr (path, e, r, b) ↦ let t = sym q ∙ r in ground arith ]),
)
entry-Names u s id code problem d ps (some (symbol, path, e)) q h =
    elim (Bool-cases (is_broad e.kind)) [
      | inl b ↦ rw b (
        h,
        λ x. (
          λ i. inl i,
          elim [
            | inl i ↦ i
            | inr (path', e', r, c) ↦
                let same = some-injective _ _ (sym q ∙ r) in
                let kind = ap (λ (y : Text × Text × CpcEntry). is_broad y.2.kind) same in
                ground arith
          ],
        ),
      )
      | inr b ↦ rw b (
          let (once, all) = set_default_iff symbol (at_path symbol path) d h in
          (
            once,
            λ x. (
              λ i. elim ((all x).0 i) [
                | inl j ↦ inl j
                | inr same ↦ inr (
                  path,
                  e,
                  subst (λ y. listed_entry s (check u s code) ≡ some (y, path, e)) (sym same) q,
                  b,
                )
              ],
              elim [
                | inl j ↦ (all x).1 (inl j)
                | inr (path', e', r, c) ↦ (all x).1 (
                    inr (ap (λ (y : Text × Text × CpcEntry). y.0) (some-injective _ _ (sym r ∙ q))))
              ],
            ),
          ))
    ]

codes-Names :
    (u : Unicode) (s : CpcScheme) (id : Text) (d : Resolved) (ps : List EditProblem)
    (cs : List Text)
    → AllApart (resolved_symbols d)
    → AllApart (resolved_symbols (resolve_codes u s id (d, ps) cs).0)
      × ((x : Text)
          → IsIn x (resolved_symbols (resolve_codes u s id (d, ps) cs).0)
            ↔ (IsIn x (resolved_symbols d) ⊎ ((code : Text) × IsIn code cs × Names u s code x)))
unfolding resolve_codes
codes-Names u s id d ps [] h =
    (h, λ x. (λ i. inl i, elim [ inl i ↦ i | inr (code, i, n) ↦ absurd i ]))
codes-Names u s id d ps (code ∷ cs) h =
    let c = check u s code in
    let (once, here) = entry-Names u s id code c.problem d ps (listed_entry s c) refl h in
    let next = resolve_entry id c.problem (listed_entry s c) (d, ps) in
    let (once_all, rest) = codes-Names u s id next.0 next.1 cs once in
    (
      once_all,
      λ x. (
        λ i. elim ((rest x).0 i) [
          | inl j ↦ elim ((here x).0 j) [ inl k ↦ inl k | inr n ↦ inr (code, inl refl, n) ]
          | inr (other, j, n) ↦ inr (other, inr j, n)
        ],
        elim [
          | inl j ↦ (rest x).1 (inl ((here x).1 (inl j)))
          | inr (other, inl q, n) ↦
              (rest x).1 (inl ((here x).1 (inr (subst (λ y. Names u s y x) q n))))
          | inr (other, inr j, n) ↦ (rest x).1 (inr (other, j, n))
        ],
      ),
    )

pub edit_segments-AllReplaced :
    (u : Unicode) (s : CpcScheme) (e : Editing) (ss : List SegmentSpec)
    → (after : List SegmentSpec) × ((edit_segments u s e ss).segments ≡ e.segments ++ after)
      × AllReplaced u s ss after
unfolding edit_segments
edit_segments-AllReplaced u s e [] = ([], sym (append-nil e.segments), tt)
edit_segments-AllReplaced u s e (segment ∷ ss) =
    let found = resolve_codes u s segment.id ([], e.problems) segment.cpc in
    let (once, names) = codes-Names u s segment.id [] e.problems segment.cpc tt in
    let edited : SegmentSpec = record segment { cpc = resolved_symbols found.0 } in
    let (after, same, all) = edit_segments-AllReplaced u s (add_edited e segment found) ss in
    (
      edited ∷ after,
      same ∙ append_assoc e.segments (edited ∷ []) after,
      (
        record {
          others_kept = refl;
          each_once = once;
          each_named = λ x. (
            λ i. elim ((names x).0 i) [ inl j ↦ absurd j | inr n ↦ n ],
            λ n. (names x).1 (inr n),
          );
        },
        all,
      ),
    )
