-- ===== src/Clean/Copies/Latest.antt =====
-- The copy that is kept for a publication is its latest.
use patent_landscapes.Base.{
  filter-IsIn, IsIn-filter, ◌↔◌, subst, All-IsIn, IsIn, ◌≢◌, All, ◌≡◌, refl, ◌⊎◌, inl, inr, true,
  Option, none, some, List, [], ◌∷◌, arith, nat_eq,
}
use mathlib.Core.Option.{some-injective}
use patent_landscapes.Base.Text.{Text, text_eq, text_beq, text_le_total, text_le_trans}
use patent_landscapes.Base.Sort.{sorted-IsSorted, sorted-IsIn, IsSorted, sorted}
use patent_landscapes.Base.Dict.{get}
use patent_landscapes.Clean.Copies.{
  last, choose_copies, choose_sorted, PatentDocument, choose, InputDocument, publication_of, older,
}
use patent_landscapes.Clean.Copies.Groups.{get-choose_copies, copies_of}

older_total : (a b : InputDocument) → (older a b ≡ true) ⊎ (older b a ≡ true)
older_total a b = ground (arith, text_le_total a.document_id b.document_id)

older_trans : (a b c : InputDocument) → older a b ≡ true → older b c ≡ true → older a c ≡ true
older_trans a b c h k = ground (arith, text_le_trans a.document_id b.document_id c.document_id)

last-IsIn : (c : InputDocument) (cs : List InputDocument) → IsIn (last c cs) (c ∷ cs)
unfolding last
last-IsIn c [] = inl refl
last-IsIn c (d ∷ ds) = inr (last-IsIn d ds)

older_refl : (c : InputDocument) → older c c ≡ true
older_refl c = elim (older_total c c) [ inl h ↦ h | inr h ↦ h ]

last_latest :
    (c : InputDocument) (cs : List InputDocument)
    → IsSorted older (c ∷ cs)
    → All (λ x. older x (last c cs) ≡ true) (c ∷ cs)
unfolding last
last_latest c [] h = (older_refl c, tt)
last_latest c (d ∷ ds) h = (
  All-IsIn (λ x. older c x ≡ true) (last d ds) (d ∷ ds) h.0 (last-IsIn d ds),
  last_latest d ds h.1,
)

choose_sorted-keep :
    (p : Text) (cs : List InputDocument) (k : InputDocument)
    → IsSorted older cs
    → (choose_sorted p cs).keep ≡ some k
    → IsIn k cs × All (λ c. older c k ≡ true) cs
unfolding choose_sorted
choose_sorted-keep p [] k h e = cc
choose_sorted-keep p (c ∷ cs) k h e =
    subst (λ k. IsIn k (c ∷ cs) × All (λ x. older x k ≡ true) (c ∷ cs)) (some-injective _ _ e)
      (last-IsIn c cs, last_latest c cs h)

abbrev pub IsLatest : Text → List InputDocument → Option InputDocument → Type 0
IsLatest p inputs none = (c : InputDocument) → IsIn c inputs → publication_of c ≢ p
IsLatest p inputs (some k) =
    IsIn k inputs
    × (publication_of k ≡ p)
    × ((c : InputDocument) → IsIn c inputs → publication_of c ≡ p → older c k ≡ true)

copy_IsIn :
    (p : Text) (inputs : List InputDocument) (c : InputDocument)
    → IsIn c (sorted older (copies_of p inputs)) ↔ (IsIn c inputs × (publication_of c ≡ p))
copy_IsIn p inputs c =
    let s = sorted-IsIn older c (copies_of p inputs) in
    (
      λ h.
          let k = filter-IsIn (λ c. text_beq (publication_of c) p) c inputs (s.0 h) in
          (k.0, (text_eq.beq_iff (publication_of c) p).0 k.1),
      λ h. s.1 (
          IsIn-filter (λ c. text_beq (publication_of c) p) c inputs h.0
            ((text_eq.beq_iff (publication_of c) p).1 h.1)),
    )

choose_sorted-none :
    (p : Text) (cs : List InputDocument) → (choose_sorted p cs).keep ≡ none → cs ≡ []
unfolding choose_sorted
choose_sorted-none p [] e = refl
choose_sorted-none p (c ∷ cs) e = cc

choose-IsLatest :
    (p : Text) (inputs : List InputDocument) (o : Option InputDocument)
    → (choose (p, copies_of p inputs)).keep ≡ o
    → IsLatest p inputs o
unfolding choose
choose-IsLatest p inputs none e = λ c i q.
    subst (IsIn c) (choose_sorted-none p (sorted older (copies_of p inputs)) e)
      ((copy_IsIn p inputs c).1 (i, q))
choose-IsLatest p inputs (some k) e =
    let copies = sorted older (copies_of p inputs) in
    let ordered = sorted-IsSorted older older_total older_trans (copies_of p inputs) in
    let (found, oldest) = choose_sorted-keep p copies k ordered e in
    let (i, q) = (copy_IsIn p inputs k).0 found in
    (
      i,
      q,
      λ c j r. All-IsIn (λ c. older c k ≡ true) c copies oldest ((copy_IsIn p inputs c).1 (j, r)),
    )

module _ (dump : PatentDocument → List (Text × Text)) where
  -- The copy that is kept for a publication is an input of that publication, and no input of that
  -- publication was retrieved later, nor at the same time with a greater identifier; and a
  -- publication for which none is kept has no inputs.
  pub choose_copies-IsLatest :
      (p : Text) (inputs : List InputDocument)
      → IsLatest p inputs (get p (choose_copies dump inputs).kept_copies)
  choose_copies-IsLatest p inputs =
      rw (get-choose_copies dump p inputs) (choose-IsLatest p inputs _ refl)
