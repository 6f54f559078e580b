-- ===== src/Clean/Copies/Groups.antt =====
-- The grouping of `_choose_copies` by publication, as a lookup.
use patent_landscapes.Base.{
  ap, subst, is_some, sym, false, append_assoc, append-nil, ◌∙◌, ◌≡◌, refl, inl, inr, true, Option,
  none, some, List, [], ◌∷◌, ◌++◌, arith, if◌then◌else◌, Bool-cases, nat_eq, filter,
}
use patent_landscapes.Base.Text.{Text, text_eq, text_beq}
use patent_landscapes.Base.Sort.{sorted, insert_sorted}
use patent_landscapes.Base.Dict.{get-append, get}
use patent_landscapes.Clean.Copies.{
  entry_of, choose_copies, choose_all, PatentDocument, choose, InputDocument, publication_of,
  append_to, group_from, by_key, or_nil,
}

abbrev Groups : Type 0
Groups = List (Text × List InputDocument)

-- No key stands twice.
abbrev IsDict : Groups → Type 0
IsDict [] = Unit
IsDict ((k, items) ∷ d) = (get k d ≡ none) × IsDict d

get-append_to :
    (key j : Text) (item : InputDocument) (d : Groups)
    → get j (append_to key item d)
      ≡ (if text_beq key j then some (or_nil (get j d) ++ item ∷ []) else get j d)
unfolding get append_to
get-append_to key j item [] = ground arith
get-append_to key j item ((k, items) ∷ d) = ground (
  arith,
  get-append_to key j item d,
  text_eq.beq_iff k key,
  text_eq.beq_iff k j,
  text_eq.beq_iff key j,
)

append_to-IsDict :
    (key : Text) (item : InputDocument) (d : Groups) → IsDict d → IsDict (append_to key item d)
unfolding append_to
append_to-IsDict key item [] h = (unfold get in refl, tt)
append_to-IsDict key item ((k, items) ∷ d) h = elim (Bool-cases (text_beq k key)) [
  | inl e ↦ rw e h
  | inr e ↦ rw e (
    rw get-append_to (ground (arith, text_eq.beq_iff k key, text_eq.beq_iff key k, h.0)),
    append_to-IsDict key item d h.1,
  )
]

group_from-IsDict :
    (d : Groups) (items : List InputDocument) → IsDict d → IsDict (group_from d items)
unfolding group_from
group_from-IsDict d [] h = h
group_from-IsDict d (item ∷ items) h =
    group_from-IsDict (append_to (publication_of item) item d) items
      (append_to-IsDict (publication_of item) item d h)

abbrev pub copies_of : Text → List InputDocument → List InputDocument
copies_of j inputs = filter (λ c. text_beq (publication_of c) j) inputs

-- A group holds the inputs of its publication, in their order; a publication without inputs has none.
abbrev grouped : Option (List InputDocument) → List InputDocument → Option (List InputDocument)
grouped old [] = old
grouped old (c ∷ cs) = some (or_nil old ++ c ∷ cs)

grouped-some : (xs cs : List InputDocument) → grouped (some xs) cs ≡ some (xs ++ cs)
grouped-some xs [] = rw append-nil
grouped-some xs (c ∷ cs) = refl

copies_of-same :
    (j : Text) (c : InputDocument) (cs : List InputDocument)
    → text_beq (publication_of c) j ≡ true
    → copies_of j (c ∷ cs) ≡ c ∷ copies_of j cs
copies_of-same j c cs e = ground arith

copies_of-other :
    (j : Text) (c : InputDocument) (cs : List InputDocument)
    → text_beq (publication_of c) j ≡ false
    → copies_of j (c ∷ cs) ≡ copies_of j cs
copies_of-other j c cs e = ground arith

get-group_from :
    (j : Text) (d : Groups) (items : List InputDocument)
    → get j (group_from d items) ≡ grouped (get j d) (copies_of j items)
unfolding group_from
get-group_from j d [] = refl
get-group_from j d (item ∷ items) =
    let ih = get-group_from j (append_to (publication_of item) item d) items in
    let at = get-append_to (publication_of item) j item d in
    elim (Bool-cases (text_beq (publication_of item) j)) [
      | inl e ↦ rw (ih, at, copies_of-same j item items e, e, grouped-some, append_assoc)
      | inr e ↦ rw (ih, at, copies_of-other j item items e, e)
    ]

get-cons-none :
    (k k' : Text) (items : List InputDocument) (d : Groups)
    → get k ((k', items) ∷ d) ≡ none
    → (text_beq k' k ≡ false) × (get k d ≡ none)
unfolding get
get-cons-none k k' items d h = ground arith

get-insert_sorted :
    (j : Text) (g : Text × List InputDocument) (d : Groups)
    → get g.0 d ≡ none
    → get j (insert_sorted by_key g d) ≡ (if text_beq g.0 j then some g.1 else get j d)
unfolding get insert_sorted
get-insert_sorted j g [] n = refl
get-insert_sorted j g (h ∷ d) n = elim (Bool-cases (by_key g h)) [
  | inl e ↦ rw e refl
  | inr e ↦
      let n' : get g.0 d ≡ none = ground (arith, n) in
      rw e (
        ground (
          arith,
          get-insert_sorted j g d n',
          text_eq.beq_iff h.0 j,
          text_eq.beq_iff g.0 j,
          text_eq.beq_iff h.0 g.0,
        ))
]

get-sorted : (j : Text) (d : Groups) → IsDict d → get j (sorted by_key d) ≡ get j d
unfolding sorted
get-sorted j [] h = refl
get-sorted j ((k, items) ∷ d) h =
    get-insert_sorted j (k, items) (sorted by_key d) (get-sorted k d h.1 ∙ h.0)
    ∙ rw (get-sorted j d h.1) (unfold get in refl)

insert_sorted-IsDict :
    (g : Text × List InputDocument) (d : Groups)
    → get g.0 d ≡ none
    → IsDict d
    → IsDict (insert_sorted by_key g d)
unfolding insert_sorted
insert_sorted-IsDict g [] n h = (unfold get in refl, tt)
insert_sorted-IsDict (k, items) ((k', items') ∷ d) n h =
    elim (Bool-cases (by_key (k, items) (k', items'))) [
      | inl e ↦ rw e (n, h)
      | inr e ↦
          let (differ, absent) = get-cons-none k k' items' d n in
          rw e (
            rw (get-insert_sorted k' (k, items) d absent)
                (ground (arith, text_eq.beq_iff k k', text_eq.beq_iff k' k, h.0)),
            insert_sorted-IsDict (k, items) d absent h.1,
          )
    ]

sorted-IsDict : (d : Groups) → IsDict d → IsDict (sorted by_key d)
unfolding sorted
sorted-IsDict [] h = tt
sorted-IsDict ((k, items) ∷ d) h =
    insert_sorted-IsDict (k, items) (sorted by_key d) (get-sorted k d h.1 ∙ h.0)
      (sorted-IsDict d h.1)

-- The chosen copies, looked up by publication.
abbrev keep_of : Text → Option (List InputDocument) → Option InputDocument
keep_of p none = none
keep_of p (some cs) = (choose (p, cs)).keep

keep_of-grouped :
    (p : Text) (cs : List InputDocument) → keep_of p (grouped (get p []) cs) ≡ (choose (p, cs)).keep
unfolding get choose
keep_of-grouped p [] = refl
keep_of-grouped p (c ∷ cs) = refl

module _ (dump : PatentDocument → List (Text × Text)) where
  get-choose_all :
      (p : Text) (d : Groups)
      → IsDict d
      → get p (choose_all dump d).kept_copies ≡ keep_of p (get p d)
  unfolding choose_all get
  get-choose_all p [] h = refl
  get-choose_all p ((k, items) ∷ d) h =
      rw (get-append p (entry_of k (choose (k, items)).keep) (choose_all dump d).kept_copies)
        (rw (get-choose_all p d h.1) (go (choose (k, items)).keep refl))
    where
      go :
          (o : Option InputDocument)
          → (choose (k, items)).keep ≡ o
          → (if is_some (get p (entry_of k o)) then get p (entry_of k o) else keep_of p (get p d))
            ≡ keep_of p (get p ((k, items) ∷ d))
      go none e = elim (Bool-cases (text_beq k p)) [
        | inl q ↦
            let same = (text_eq.beq_iff k p).0 q in
            let absent : get p d ≡ none = subst (λ j. get j d ≡ none) same h.0 in
            rw (q, absent) (sym e ∙ ap (λ j. (choose (j, items)).keep) same)
        | inr q ↦ rw q refl
      ]
      go (some c) e = elim (Bool-cases (text_beq k p)) [
        | inl q ↦ rw q (sym e ∙ ap (λ j. (choose (j, items)).keep) ((text_eq.beq_iff k p).0 q))
        | inr q ↦ rw q refl
      ]

  -- The copy that is kept for a publication is chosen from the inputs of that publication, and from
  -- them alone.
  pub get-choose_copies :
      (p : Text) (inputs : List InputDocument)
      → get p (choose_copies dump inputs).kept_copies ≡ (choose (p, copies_of p inputs)).keep
  unfolding choose_copies
  get-choose_copies p inputs =
      let groups = group_from [] inputs in
      let dict = group_from-IsDict [] inputs tt in
      rw (get-choose_all p (sorted by_key groups) (sorted-IsDict groups dict)) (
        rw (get-sorted p groups dict)
          (rw (get-group_from p [] inputs) (keep_of-grouped p (copies_of p inputs))))
