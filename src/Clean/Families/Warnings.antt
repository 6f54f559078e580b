-- ===== src/Clean/Families/Warnings.antt =====
-- Which statements are reported as asymmetric.
use patent_landscapes.Base.Sort.{sorted-IsIn}
use patent_landscapes.Base.Text.{text_eq}
use patent_landscapes.Base.{
  sym, filter-IsIn, IsIn-filter, subst, ◌≡◌, refl, ap, ◌↔◌, ◌⊎◌, inl, inr, true, false, Option,
  none, some, List, [], ◌∷◌, ◌++◌, map, arith, nat_eq, filter, IsIn,
}
use patent_landscapes.Base.Dict.{get, contains}
use patent_landscapes.Clean.Copies.{by_key, InputDocument}
use patent_landscapes.Clean.Families.{
  sorted, asymmetric_statements, Text, stated_members, omits, omitted_by, is_asymmetric,
  warnings_of, warnings_in,
}

IsIn-append : {A : Type 0} (a : A) (xs ys : List A) → IsIn a (xs ++ ys) ↔ (IsIn a xs ⊎ IsIn a ys)
IsIn-append a [] ys = (λ i. inr i, elim [ inl e ↦ absurd e | inr i ↦ i ])
IsIn-append a (x ∷ xs) ys =
    let t = IsIn-append a xs ys in
    (
      elim [ inl e ↦ inl (inl e) | inr i ↦ elim (t.0 i) [ inl j ↦ inl (inr j) | inr k ↦ inr k ] ],
      elim [
        | inl i ↦ elim i [ inl e ↦ inl e | inr j ↦ inr (t.1 (inl j)) ]
        | inr k ↦ inr (t.1 (inr k))
      ],
    )

pair_IsIn :
    (p q m : Text) (ms : List Text)
    → IsIn {A = Text × Text} (q, m) (map (λ (n : Text). (p, n)) ms) ↔ ((q ≡ p) × IsIn m ms)
pair_IsIn p q m [] = (λ i. absurd i, λ h. absurd h.1)
pair_IsIn p q m (n ∷ ms) =
    let t = pair_IsIn p q m ms in
    (
      elim [
        | inl e ↦ (ap (λ (w : Text × Text). w.0) e, inl (ap (λ (w : Text × Text). w.1) e))
        | inr i ↦ (let k = t.0 i in (k.0, inr k.1))
      ],
      λ h. elim h.1 [ inl e ↦ inl (cc (h.0, e)) | inr i ↦ inr (t.1 (h.0, i)) ],
    )

module _ (selected : List (Text × InputDocument)) where
  -- The other document is selected with a list of members, and does not list the publication.
  abbrev pub IsOmitted : Text → Text → Type 0
  IsOmitted p m =
      (other : InputDocument) × (members : List Text) × (get m selected ≡ some other)
      × (other.document.family_members ≡ some members)
      × (contains p members ≡ false)

  -- A document of the publication states the other as a member.
  abbrev pub IsStated : Text → Text → List (Text × InputDocument) → Type 0
  IsStated p m items =
      (item : InputDocument) × IsIn {A = Text × InputDocument} (p, item) items
      × IsIn m (stated_members item)

  is_asymmetric_iff : (p m : Text) → (is_asymmetric selected p m ≡ true) ↔ IsOmitted p m
  unfolding is_asymmetric
  is_asymmetric_iff p m = (there (get m selected) refl, λ h. rw (h.2, h.3, h.4) refl)
    where
      listed :
          (other : InputDocument) (o : Option (List Text))
          → get m selected ≡ some other
          → other.document.family_members ≡ o
          → omits selected p o ≡ true
          → IsOmitted p m
      listed other none g e h = cc
      listed other (some members) g e h = (other, members, g, e, ground arith)

      there :
          (o : Option InputDocument)
          → get m selected ≡ o
          → omitted_by selected p o ≡ true
          → IsOmitted p m
      there none g h = cc
      there (some other) g h = listed other other.document.family_members g refl h

  warnings_in_iff :
      (p m : Text) (items : List (Text × InputDocument))
      → IsIn {A = Text × Text} (p, m) (warnings_in selected items)
        ↔ (IsStated p m items × (is_asymmetric selected p m ≡ true))
  warnings_in_iff p m [] = (λ i. absurd i, λ h. absurd h.0.1)
  warnings_in_iff p m ((q, item) ∷ items) =
      let t = warnings_in_iff p m items in
      let a =
        IsIn-append {A = Text × Text} (p, m) (warnings_of selected q (stated_members item))
          (warnings_in selected items) in
      let w = pair_IsIn q p m (filter (is_asymmetric selected q) (stated_members item)) in
      (
        λ i. elim (a.0 i) [
          | inl x ↦
              let (e, j) = w.0 x in
              let (stated, missing) =
                filter-IsIn (is_asymmetric selected q) m (stated_members item) j in
              (
                (item, inl (ap (λ r. (r, item)) e), stated),
                subst (λ r. is_asymmetric selected r m ≡ true) (sym e) missing,
              )
          | inr y ↦ (let h = t.0 y in ((h.0.0, inr h.0.1, h.0.2), h.1))
        ],
        λ h. elim h.0.1 [
          | inl e ↦
              let key = ap (λ (r : Text × InputDocument). r.0) e in
              let same = ap (λ (r : Text × InputDocument). r.1) e in
              a.1 (
                inl (
                  w.1 (
                    key,
                    IsIn-filter (is_asymmetric selected q) m (stated_members item)
                        (subst (λ d. IsIn m (stated_members d)) same h.0.2)
                        (subst (λ r. is_asymmetric selected r m ≡ true) key h.1),
                  )))
          | inr j ↦ a.1 (inr (t.1 ((h.0.0, j, h.0.2), h.1)))
        ],
      )

  -- A pair of publications is reported exactly if a selected document of the first states the second
  -- as a member of its family, and the second is selected with a list of members that does not
  -- have the first.
  pub asymmetric_statements_iff :
      (p m : Text)
      → IsIn {A = Text × Text} (p, m) (asymmetric_statements selected)
        ↔ (IsStated p m selected × IsOmitted p m)
  unfolding asymmetric_statements
  asymmetric_statements_iff p m =
      let w = warnings_in_iff p m (sorted by_key selected) in
      let b = is_asymmetric_iff p m in
      (
        λ i.
            let (stated, missing) = w.0 i in
            (
              (stated.0, (sorted-IsIn by_key (p, stated.0) selected).0 stated.1, stated.2),
              b.0 missing,
            ),
        λ h. w.1 ((h.0.0, (sorted-IsIn by_key (p, h.0.0) selected).1 h.0.1, h.0.2), b.1 h.1),
      )
