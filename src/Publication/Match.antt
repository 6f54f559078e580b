-- ===== src/Publication/Match.antt =====
-- What the pattern `_PUB_NUMBER` matches, and that a text of capitals and digits is its own
-- compact form.
use patent_landscapes.Base.{
  none, Option-cases, inl, inr, ℕ, ◌≡◌, refl, true, false, not, Option, some, [], ◌∷◌, ◌++◌, arith,
  filter, all,
}
use patent_landscapes.Base.Text.{
  is_digit, Text, Unicode, is_space, is_alnum, upper, upper_text, strip, lstrip, rstrip,
}
use patent_landscapes.Publication.{
  fields_match, is_number, is_kind_or_none, PublicationNumber, or_empty, text, kind_at,
  match_number, match_compact, is_separator, compact,
}

kind_at_lem :
    (t : Text) (k : Option Text) → kind_at t ≡ some k → (or_empty k ≡ t) × (all is_alnum t ≡ true)
unfolding kind_at
kind_at_lem [] k h = ground arith
kind_at_lem (l ∷ []) k h = ground arith
kind_at_lem (l ∷ d ∷ []) k h = ground arith
kind_at_lem (l ∷ d ∷ x ∷ rest) k h = cc

match_number_lem :
    (s n : Text) (k : Option Text)
    → match_number s ≡ some (n, k)
    → (n ++ or_empty k ≡ s) × (all is_alnum s ≡ true)
unfolding match_number
match_number_lem [] n k h = cc
match_number_lem (c ∷ rest) n k h = elim (Option-cases (kind_at rest)) [
  | inr (j, here) ↦ ground (arith, kind_at_lem rest j here)
  | inl further ↦ elim (Option-cases (match_number rest)) [
    | inl nowhere ↦ ground arith
    | inr ((m, j), there) ↦ ground (arith, match_number_lem rest m j there)
  ]
]

pub match_compact_lem :
    (s : Text) (p : PublicationNumber)
    → match_compact s ≡ some p
    → (text p ≡ s) × (all is_alnum s ≡ true)
unfolding match_compact text
match_compact_lem [] p h = cc
match_compact_lem (a ∷ []) p h = cc
match_compact_lem (a ∷ b ∷ rest) p h = elim (Option-cases (match_number rest)) [
  | inl nowhere ↦ ground arith
  | inr ((n, k), there) ↦ ground (arith, match_number_lem rest n k there)
]

alnum_lem :
    (u : Unicode) (c : ℕ)
    → is_alnum c ≡ true
    → (is_space u c ≡ false) × (is_separator u c ≡ false) × (upper u c ≡ c ∷ [])
unfolding is_space is_separator upper
alnum_lem u c h = ground arith

upper_text-alnum : (u : Unicode) (s : Text) → all is_alnum s ≡ true → upper_text u s ≡ s
unfolding upper_text
upper_text-alnum u [] h = refl
upper_text-alnum u (c ∷ s) h = ground (arith, alnum_lem u c, upper_text-alnum u s)

filter-alnum :
    (u : Unicode) (s : Text) → all is_alnum s ≡ true → filter (λ c. not (is_separator u c)) s ≡ s
filter-alnum u [] h = refl
filter-alnum u (c ∷ s) h = ground (arith, alnum_lem u c, filter-alnum u s)

lstrip-alnum : (u : Unicode) (s : Text) → all is_alnum s ≡ true → lstrip u s ≡ s
unfolding lstrip
lstrip-alnum u [] h = refl
lstrip-alnum u (c ∷ s) h = ground (arith, alnum_lem u c)

rstrip-alnum : (u : Unicode) (s : Text) → all is_alnum s ≡ true → rstrip u s ≡ s
unfolding rstrip
rstrip-alnum u [] h = refl
rstrip-alnum u (c ∷ s) h = ground (arith, alnum_lem u c, rstrip-alnum u s)

pub compact-alnum : (u : Unicode) (s : Text) → all is_alnum s ≡ true → compact u s ≡ s
unfolding compact strip
compact-alnum u s h =
    simp (lstrip-alnum u s h, rstrip-alnum u s h, upper_text-alnum u s h, filter-alnum u s h)

kind_at-is_kind : (t : Text) (k : Option Text) → kind_at t ≡ some k → is_kind_or_none k ≡ true
unfolding kind_at
kind_at-is_kind [] k h = ground arith
kind_at-is_kind (l ∷ []) k h = ground arith
kind_at-is_kind (l ∷ d ∷ []) k h = ground arith
kind_at-is_kind (l ∷ d ∷ x ∷ rest) k h = cc

match_number-is_number :
    (s n : Text) (k : Option Text)
    → match_number s ≡ some (n, k)
    → (is_number n ≡ true) × (all is_alnum n ≡ true) × (is_kind_or_none k ≡ true)
unfolding match_number
match_number-is_number [] n k h = cc
match_number-is_number (c ∷ rest) n k h = elim (Option-cases (kind_at rest)) [
  | inr (j, here) ↦ ground (arith, kind_at-is_kind rest j here)
  | inl further ↦ elim (Option-cases (match_number rest)) [
    | inl nowhere ↦ ground arith
    | inr ((m, j), there) ↦ ground (arith, match_number-is_number rest m j there)
  ]
]

pub match_compact-fields_match :
    (s : Text) (p : PublicationNumber) → match_compact s ≡ some p → fields_match p ≡ true
unfolding match_compact fields_match
match_compact-fields_match [] p h = cc
match_compact-fields_match (a ∷ []) p h = cc
match_compact-fields_match (a ∷ b ∷ rest) p h = elim (Option-cases (match_number rest)) [
  | inl nowhere ↦ ground arith
  | inr ((n, k), there) ↦ ground (arith, match_number-is_number rest n k there)
]

digits-kind_at : (d c : ℕ) (s t : Text) → is_digit c ≡ true → kind_at ((c ∷ s) ++ t) ≡ none
unfolding kind_at
digits-kind_at d c [] [] h = ground arith
digits-kind_at d c [] (x ∷ []) h = ground arith
digits-kind_at d c [] (x ∷ y ∷ t) h = ground arith
digits-kind_at d c (x ∷ []) [] h = ground arith
digits-kind_at d c (x ∷ []) (y ∷ t) h = ground arith
digits-kind_at d c (x ∷ y ∷ s) t h = ground arith

kind_at-kind : (k : Option Text) → is_kind_or_none k ≡ true → kind_at (or_empty k) ≡ some k
unfolding kind_at
kind_at-kind none h = refl
kind_at-kind (some []) h = cc
kind_at-kind (some (l ∷ [])) h = ground arith
kind_at-kind (some (l ∷ d ∷ [])) h = ground arith
kind_at-kind (some (l ∷ d ∷ x ∷ rest)) h = cc

-- A number of digits only is read whole, whatever kind code follows it.
pub match_number-digits :
    (c : ℕ) (s : Text) (k : Option Text)
    → all is_digit (c ∷ s) ≡ true
    → is_kind_or_none k ≡ true
    → match_number ((c ∷ s) ++ or_empty k) ≡ some (c ∷ s, k)
unfolding match_number
match_number-digits c [] k h v = ground (arith, kind_at-kind k)
match_number-digits c (d ∷ s) k h v =
    ground (arith, digits-kind_at c d s (or_empty k), match_number-digits d s k)
