-- ===== src/Discovery/Count.antt =====
-- What `_links` counts for a publication.
use patent_landscapes.Base.Text.{text_le_trans, text_le_total, text_le, text_eq}
use patent_landscapes.Base.{
  subst, is_some, IsIn, All, append_assoc, true, ◌⊎◌, ◌∙◌, sym, ℕ, ap, length, Bool-cases, arith,
  append-nil, map, ◌++◌, ◌||◌, inr, inl, ◌≡◌, refl, Bool, false, Option, none, some, List, [], ◌∷◌,
  if◌then◌else◌, nat_eq, filter,
}
use patent_landscapes.Base.Dict.{
  distinct_from-old, distinct_from-new, distinct_from, contains, get, get-put,
}
use patent_landscapes.Discovery.{
  nothing_found, links_of, rows_of, Links, Chunk, links, text_beq, spelling_or_empty, add,
  same_identity_iff, counted, add_rows, err, ok, Text, Unicode, Result, identity_eq, Identity,
  add_to, docs_or_none, lower_spelling, add_identified, identity_of, Found, same_identity,
}
use patent_landscapes.Publication.{NormalizationError}

-- Whether a cited number names a publication.
abbrev pub is_identity : Identity → Result NormalizationError Identity → Bool
is_identity i (ok j) = same_identity j i
is_identity i (err e) = false

module _ (u : Unicode) (i : Identity) where
  abbrev pub names : Text × Option Text → Bool
  names (document, none) = false
  names (document, some number) = is_identity i (identity_of u number)

  -- The rows that name the publication.
  abbrev pub naming : List (Text × Option Text) → List (Text × Option Text)
  naming rows = filter names rows

abbrev pub document_of : Text × Option Text → Text
document_of row = row.0

-- `add` at each of a list of rows that name one publication, on what is kept for it.
abbrev pub docs_after : List Text → List (Text × Option Text) → List Text
docs_after docs [] = docs
docs_after docs (row ∷ rows) = docs_after (add_to row.0 docs) rows

abbrev pub lowest : Option Text → List (Text × Option Text) → Option Text
lowest s [] = s
lowest s ((document, none) ∷ rows) = lowest s rows
lowest s ((document, some number) ∷ rows) = lowest (some (lower_spelling s number)) rows

abbrev docs_found : Option (List Text) → List (Text × Option Text) → Option (List Text)
docs_found old [] = old
docs_found old (row ∷ rows) = some (docs_after (docs_or_none old) (row ∷ rows))

docs_found-some :
    (docs : List Text) (rows : List (Text × Option Text))
    → docs_found (some docs) rows ≡ some (docs_after docs rows)
docs_found-some docs [] = refl
docs_found-some docs (row ∷ rows) = refl

at_same :
    {A : Type 0} (f : Identity → A) (x : A) (j i : Identity)
    → (if same_identity j i then f j else x) ≡ (if same_identity j i then f i else x)
at_same f x j i = elim (Bool-cases (same_identity j i)) [
  | inl e ↦ rw e (ap f ((same_identity_iff j i).0 e))
  | inr e ↦ rw e refl
]

module _ (u : Unicode) (i : Identity) where
  get-add_identified :
      (document number : Text) (r : Result NormalizationError Identity) (f : Found)
      → (get i (add_identified document number r f).linked ≡ (
          if is_identity i r
          then some (add_to document (docs_or_none (get i f.linked)))
          else get i f.linked))
        × (get i (add_identified document number r f).spellings ≡ (
            if is_identity i r
            then some (lower_spelling (get i f.spellings) number)
            else get i f.spellings))
  unfolding add_identified
  get-add_identified document number (err e) f = (refl, refl)
  get-add_identified document number (ok j) f = (
    rw get-put (
        at_same (λ k. some (add_to document (docs_or_none (get k f.linked)))) (get i f.linked) j i),
    rw get-put
        (at_same (λ k. some (lower_spelling (get k f.spellings) number)) (get i f.spellings) j i),
  )

  get-add_rows :
      (rows : List (Text × Option Text)) (f : Found)
      → (get i (add_rows u rows f).linked ≡ docs_found (get i f.linked) (naming u i rows))
        × (get i (add_rows u rows f).spellings ≡ lowest (get i f.spellings) (naming u i rows))
  unfolding add_rows add
  get-add_rows [] f = (refl, refl)
  get-add_rows ((document, none) ∷ rows) f = get-add_rows rows f
  get-add_rows ((document, some number) ∷ rows) f =
      let g = add_identified document number (identity_of u number) f in
      let ih = get-add_rows rows g in
      let step = get-add_identified document number (identity_of u number) f in
      elim (Bool-cases (is_identity i (identity_of u number))) [
        | inl e ↦ (rw (ih.0, step.0, e, docs_found-some) refl, rw (ih.1, step.1, e) refl)
        | inr e ↦ (rw (ih.0, step.0, e) refl, rw (ih.1, step.1, e) refl)
      ]

abbrev link_kept : Option (List Text) → Option Text → Option (ℕ × Text)
link_kept none s = none
link_kept (some docs) s = some (length docs, spelling_or_empty s)

get-counted :
    (i : Identity) (spellings : List (Identity × Text)) (linked : List (Identity × List Text))
    → get i (counted spellings linked) ≡ link_kept (get i linked) (get i spellings)
unfolding counted get
get-counted i spellings [] = refl
get-counted i spellings ((j, docs) ∷ linked) = elim (Bool-cases (same_identity j i)) [
  | inl e ↦ rw e (
      ap (λ k. some (length docs, spelling_or_empty (get k spellings)))
        ((same_identity_iff j i).0 e))
  | inr e ↦ rw e (get-counted i spellings linked)
]

-- The documents in first-come order, as `docs_after` gathers them.
contains-append :
    (x d : Text) (docs : List Text)
    → contains x (docs ++ d ∷ []) ≡ (text_beq d x || contains x docs)
contains-append x d [] = refl
contains-append x d (e ∷ docs) = ground (arith, contains-append x d docs)

docs_after-distinct :
    (docs seen : List Text) (rows : List (Text × Option Text))
    → ((x : Text) → contains x docs ≡ contains x seen)
    → docs_after docs rows ≡ docs ++ distinct_from seen (map document_of rows)
docs_after-distinct docs seen [] same = rw append-nil refl
docs_after-distinct docs seen ((d, number) ∷ rows) same = elim (Bool-cases (contains d docs)) [
  | inl e ↦
      rw (e, distinct_from-old d seen (map document_of rows) (sym (same d) ∙ e))
        (docs_after-distinct docs seen rows same)
  | inr e ↦
      rw (e, distinct_from-new d seen (map document_of rows) (sym (same d) ∙ e))
        (docs_after-distinct (docs ++ d ∷ []) (d ∷ seen) rows
            (λ x. rw (contains-append x d docs, same x) refl)
          ∙ append_assoc docs (d ∷ []) (distinct_from (d ∷ seen) (map document_of rows)))
]

abbrev pub AtMost : Text → Option Text → Type 0
AtMost s none = Unit
AtMost s (some t) = text_le s t ≡ true

abbrev pub number_in : Text × Option Text → Option Text
number_in row = row.1

-- A link for the rows that name a publication: none without rows; otherwise the number of distinct
-- documents in the rows, with the lowest of the numbers as they are spelled in them.
abbrev pub IsLinkOf : List (Text × Option Text) → Option (ℕ × Text) → Type 0
IsLinkOf rows none = rows ≡ []
IsLinkOf rows (some (count, spelling)) =
    (count ≡ length (distinct_from [] (map document_of rows)))
    × IsIn (some spelling) (map number_in rows)
    × All (λ (row : Text × Option Text). AtMost spelling row.1) rows

text_le_refl : (s : Text) → text_le s s ≡ true
text_le_refl s = elim (text_le_total s s) [ inl h ↦ h | inr h ↦ h ]

text_le-flip : (s t : Text) → text_le s t ≡ false → text_le t s ≡ true
text_le-flip s t h = elim (text_le_total s t) [ inl k ↦ cc | inr k ↦ k ]

-- The lowest of a spelling and those of the rows.
lowest-some :
    (s : Text) (rows : List (Text × Option Text))
    → (t : Text) × (lowest (some s) rows ≡ some t)
      × (text_le t s ≡ true)
      × ((t ≡ s) ⊎ IsIn (some t) (map number_in rows))
      × All (λ (row : Text × Option Text). AtMost t row.1) rows
lowest-some s [] = (s, refl, text_le_refl s, inl refl, tt)
lowest-some s ((d, none) ∷ rows) =
    let (t, found, low, place, all_low) = lowest-some s rows in
    (t, found, low, elim place [ inl e ↦ inl e | inr i ↦ inr (inr i) ], (tt, all_low))
lowest-some s ((d, some n) ∷ rows) = elim (Bool-cases (text_le s n)) [
  | inl e ↦
      let (t, found, low, place, all_low) = lowest-some s rows in
      let first = text_le_trans t s n low e in
      (t, rw e found, low, elim place [ inl e ↦ inl e | inr i ↦ inr (inr i) ], (first, all_low))
  | inr e ↦
      let (t, found, low, place, all_low) = lowest-some n rows in
      let first = text_le_trans t n s low (text_le-flip s n e) in
      (
        t,
        rw e found,
        first,
        elim place [ inl q ↦ inr (inl (ap some q)) | inr i ↦ inr (inr i) ],
        (low, all_low),
      )
]

links_of-ok :
    (f : Found) (found : Links) → links_of f ≡ ok found → counted f.spellings f.linked ≡ found
unfolding links_of
links_of-ok f found h = ground arith

-- What is kept for rows that all have a number.
kept-IsLinkOf :
    (rows : List (Text × Option Text))
    → All (λ (row : Text × Option Text). is_some row.1 ≡ true) rows
    → IsLinkOf rows (link_kept (docs_found none rows) (lowest none rows))
kept-IsLinkOf [] h = refl
kept-IsLinkOf ((d, none) ∷ rows) h = cc
kept-IsLinkOf ((d, some n) ∷ rows) h =
    let (t, found, low, place, all_low) = lowest-some n rows in
    subst (λ o. IsLinkOf ((d, some n) ∷ rows) (link_kept (some (docs_after (d ∷ []) rows)) o))
      (sym found)
      (
        ap length (docs_after-distinct (d ∷ []) (d ∷ []) rows (λ x. refl)),
        elim place [ inl e ↦ inl (ap some e) | inr i ↦ inr i ],
        (low, all_low),
      )

module _ (u : Unicode) (i : Identity) where
  naming-some :
      (rows : List (Text × Option Text))
      → All (λ (row : Text × Option Text). is_some row.1 ≡ true) (naming u i rows)
  naming-some [] = tt
  naming-some ((d, none) ∷ rows) = naming-some rows
  naming-some ((d, some n) ∷ rows) = elim (Bool-cases (is_identity i (identity_of u n))) [
    | inl e ↦ rw e (refl, naming-some rows)
    | inr e ↦ rw e (naming-some rows)
  ]

  -- Where `_links` returns, what it holds for a publication is the link of the rows that name it:
  -- nothing if no row names it, and otherwise the number of distinct frontier documents that link
  -- to it, kinds of the publication taken together, and the lowest of its spellings.
  pub links-IsLinkOf :
      (backward forward : Bool) (chunks : List Chunk) (found : Links)
      → links u backward forward chunks ≡ ok found
      → IsLinkOf (naming u i (rows_of backward forward chunks)) (get i found)
  unfolding links
  links-IsLinkOf backward forward chunks found h =
      let rows = rows_of backward forward chunks in
      let f = add_rows u rows nothing_found in
      let at = get-add_rows u i rows nothing_found in
      subst (λ ls. IsLinkOf (naming u i rows) (get i ls)) (links_of-ok f found h)
        (subst (IsLinkOf (naming u i rows))
          (sym (
            get-counted i f.spellings f.linked
            ∙ ap (λ o. link_kept o (get i f.spellings)) at.0
            ∙ ap (link_kept _) at.1))
          (kept-IsLinkOf (naming u i rows) (naming-some rows)))
