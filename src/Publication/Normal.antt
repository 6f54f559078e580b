-- ===== src/Publication/Normal.antt =====
-- What `normalize_publication_number` promises: it returns only numbers that the patterns of
-- `PublicationNumber` admit, normalising again changes nothing, and a normal text names one number.
use patent_landscapes.Publication.Match.{
  match_number-digits, match_compact-fields_match, compact-alnum, match_compact_lem,
}
use patent_landscapes.Base.{
  refl, Bool, Option, [], ℕ, ◌++◌, ◌∷◌, ◌||◌, ◌&&◌, all, ◌⊎◌, none, any, ap, true, arith, ◌≡◌, inl,
  inr, some, Option-cases, nat_eq,
}
use patent_landscapes.Base.Text.{is_alnum, is_digit, text_eq, Text, Unicode}
use patent_landscapes.Base.Result.{ok}
use patent_landscapes.Publication.{
  or_empty, is_kind_or_none, is_country, check_letter_ok, last_is_digit, all_digits, text,
  fields_match, PublicationNumber, match_compact, compact, accept, normalize_publication_number,
}

-- The text that an error quotes does not matter to what is accepted.
accept_lem :
    (raw other : Text) (q p : PublicationNumber)
    → accept raw q ≡ ok p
    → (q ≡ p) × (accept other q ≡ ok q)
unfolding accept
accept_lem raw other q p h = ground arith

-- A number that was accepted was matched, and passed the two tests that follow the match.
accepted :
    (u : Unicode) (raw : Text) (p : PublicationNumber)
    → normalize_publication_number u raw ≡ ok p
    → (match_compact (compact u raw) ≡ some p) × ((other : Text) → accept other p ≡ ok p)
unfolding normalize_publication_number
accepted u raw p h = elim (Option-cases (match_compact (compact u raw))) [
  | inl e ↦ ground arith
  | inr (q, e) ↦
      (ground (arith, accept_lem raw raw q p), λ other. ground (arith, accept_lem raw other q p))
]

-- Every number that is returned passes the patterns of the `PublicationNumber` fields, so building
-- the record never fails; its number part holds a digit; and a kind code follows a digit, or a
-- check letter of an office that has them.
pub normalize-fields_match :
    (u : Unicode) (raw : Text) (p : PublicationNumber)
    → normalize_publication_number u raw ≡ ok p
    → (fields_match p ≡ true)
      × (any is_digit p.number ≡ true)
      × ((p.kind ≡ none) ⊎ ((last_is_digit p.number || check_letter_ok p) ≡ true))
unfolding accept
normalize-fields_match u raw p h =
    let (m, a) = accepted u raw p h in
    ground (arith, match_compact-fields_match (compact u raw) p m, a raw)

-- Normalising the text of a normalised number returns that number.
pub normalize-text :
    (u : Unicode) (raw : Text) (p : PublicationNumber)
    → normalize_publication_number u raw ≡ ok p
    → normalize_publication_number u (text p) ≡ ok p
unfolding normalize_publication_number
normalize-text u raw p h =
    let (m, a) = accepted u raw p h in
    let (same, alnum) = match_compact_lem (compact u raw) p m in
    rw same (rw (compact-alnum u (compact u raw) alnum) (rw m (a (compact u raw))))

-- Two numbers that were returned for any two spellings are equal when their texts are.
pub text-injective :
    (u : Unicode) (raw raw' : Text) (p q : PublicationNumber)
    → normalize_publication_number u raw ≡ ok p
    → normalize_publication_number u raw' ≡ ok q
    → text p ≡ text q
    → p ≡ q
text-injective u raw raw' p q h k e =
    cc (normalize-text u raw p h, normalize-text u raw' q k, ap (normalize_publication_number u) e)

all-append : (p : ℕ → Bool) (s t : Text) → all p (s ++ t) ≡ (all p s && all p t)
all-append p [] t = refl
all-append p (c ∷ s) t = ground (arith, all-append p s t)

digits-alnum : (s : Text) → all is_digit s ≡ true → all is_alnum s ≡ true
digits-alnum [] h = refl
digits-alnum (c ∷ s) h = ground (arith, digits-alnum s)

kind-alnum : (k : Option Text) → is_kind_or_none k ≡ true → all is_alnum (or_empty k) ≡ true
kind-alnum none h = refl
kind-alnum (some []) h = cc
kind-alnum (some (l ∷ [])) h = ground arith
kind-alnum (some (l ∷ d ∷ [])) h = ground arith
kind-alnum (some (l ∷ d ∷ x ∷ rest)) h = cc

last-digits : (c : ℕ) (s : Text) → all is_digit (c ∷ s) ≡ true → last_is_digit (c ∷ s) ≡ true
unfolding last_is_digit
last-digits c [] h = ground arith
last-digits c (d ∷ s) h = ground (arith, last-digits d s)

match_compact-parts :
    (country number : Text) (kind : Option Text)
    → is_country country ≡ true
    → is_kind_or_none kind ≡ true
    → all_digits number ≡ true
    → match_compact (country ++ (number ++ or_empty kind))
      ≡ some (record { country = country; number = number; kind = kind })
unfolding match_compact
match_compact-parts (a ∷ b ∷ []) (c ∷ s) kind h v d = ground (arith, match_number-digits c s kind)
match_compact-parts (a ∷ b ∷ []) [] kind h v d = cc
match_compact-parts [] number kind h v d = cc
match_compact-parts (a ∷ []) number kind h v d = cc
match_compact-parts (a ∷ b ∷ x ∷ rest) number kind h v d = cc

parts-alnum :
    (country number : Text) (kind : Option Text)
    → is_country country ≡ true
    → is_kind_or_none kind ≡ true
    → all_digits number ≡ true
    → all is_alnum (country ++ (number ++ or_empty kind)) ≡ true
parts-alnum (a ∷ b ∷ []) (c ∷ s) kind h v d =
    ground
      (arith, all-append is_alnum (c ∷ s) (or_empty kind), digits-alnum (c ∷ s), kind-alnum kind)
parts-alnum (a ∷ b ∷ []) [] kind h v d = cc
parts-alnum [] number kind h v d = cc
parts-alnum (a ∷ []) number kind h v d = cc
parts-alnum (a ∷ b ∷ x ∷ rest) number kind h v d = cc

accept-digits :
    (raw country number : Text) (kind : Option Text)
    → all_digits number ≡ true
    → let p : PublicationNumber = record { country = country; number = number; kind = kind } in
      accept raw p ≡ ok p
unfolding accept
accept-digits raw country [] kind d = cc
accept-digits raw country (c ∷ s) kind d = ground (arith, last-digits c s)

-- A record with valid fields and a number of digits only is what its own text normalises to,
-- whatever its country and kind code.
pub normalize-digits :
    (u : Unicode) (p : PublicationNumber)
    → fields_match p ≡ true
    → all_digits p.number ≡ true
    → normalize_publication_number u (text p) ≡ ok p
unfolding normalize_publication_number fields_match text
normalize-digits u p h d =
    let v : (is_country p.country ≡ true) × (is_kind_or_none p.kind ≡ true) = ground arith in
    rw (compact-alnum u (text p) (parts-alnum p.country p.number p.kind v.0 v.1 d)) (
      rw (match_compact-parts p.country p.number p.kind v.0 v.1 d)
        (accept-digits (text p) p.country p.number p.kind d))
