-- ===== src/Ingest/Batch/Keys.antt =====
-- The keys that `_dedupe` keeps.
use patent_landscapes.Base.Text.{text_eq}
use patent_landscapes.Base.{
  ◌+◌, ◌≤◌, ◌≡◌, refl, ◌∙◌, inl, inr, true, false, ◌||◌, List, [], ◌∷◌, ◌++◌, map, map-append,
  arith, Bool-cases, is_some, nat_eq, length, All, length-append, length-map,
}
use patent_landscapes.Base.Dict.{get, contains, set_default}
use patent_landscapes.Patent.{has_repeats}
use patent_landscapes.Ingest.Batch.{
  text_eq, text_beq, Unicode, Text, key_identity, cleaned, first_spellings, spelling, dedupe,
}

abbrev identity_of_entry : Text × Text → Text
identity_of_entry entry = entry.0

contains-snoc :
    (k x : Text) (xs : List Text) → contains k (xs ++ x ∷ []) ≡ (contains k xs || text_beq x k)
contains-snoc k x [] = ground arith
contains-snoc k x (y ∷ ys) = ground (arith, contains-snoc k x ys)

has_repeats-snoc :
    (x : Text) (xs : List Text)
    → contains x xs ≡ false
    → has_repeats xs ≡ false
    → has_repeats (xs ++ x ∷ []) ≡ false
unfolding has_repeats
has_repeats-snoc x [] h r = refl
has_repeats-snoc x (y ∷ ys) h r =
    ground
      (arith, contains-snoc y x ys, has_repeats-snoc x ys, text_eq.beq_iff x y, text_eq.beq_iff y x)

get-contains :
    (k : Text) (d : List (Text × Text)) → is_some (get k d) ≡ contains k (map identity_of_entry d)
unfolding get
get-contains k [] = refl
get-contains k ((j, v) ∷ d) = ground (arith, get-contains k d)

module _ (u : Unicode) where
  -- Each entry is under the identity of its spelling, and no identity stands twice.
  abbrev IsFirst : List (Text × Text) → Type 0
  IsFirst d =
      (map (key_identity u) (map spelling d) ≡ map identity_of_entry d)
      × (has_repeats (map identity_of_entry d) ≡ false)

  abbrev with_key : Text → List (Text × Text) → List (Text × Text)
  with_key key d = set_default (key_identity u key) key d

  with_key-old :
      (key : Text) (d : List (Text × Text))
      → contains (key_identity u key) (map identity_of_entry d) ≡ true
      → with_key key d ≡ d
  unfolding set_default
  with_key-old key d h = rw (get-contains (key_identity u key) d ∙ h) refl

  with_key-new :
      (key : Text) (d : List (Text × Text))
      → contains (key_identity u key) (map identity_of_entry d) ≡ false
      → with_key key d ≡ d ++ (key_identity u key, key) ∷ []
  unfolding set_default
  with_key-new key d h = rw (get-contains (key_identity u key) d ∙ h) refl

  with_key-IsFirst : (key : Text) (d : List (Text × Text)) → IsFirst d → IsFirst (with_key key d)
  with_key-IsFirst key d (same, distinct) =
      elim (Bool-cases (contains (key_identity u key) (map identity_of_entry d))) [
        | inl e ↦ rw (with_key-old key d e) (same, distinct)
        | inr e ↦
            rw (with_key-new key d e, map-append, map-append, map-append, same)
              (refl, has_repeats-snoc (key_identity u key) (map identity_of_entry d) e distinct)
      ]

  first_spellings-IsFirst :
      (d : List (Text × Text)) (keys : List Text) → IsFirst d → IsFirst (first_spellings u d keys)
  unfolding first_spellings
  first_spellings-IsFirst d [] h = h
  first_spellings-IsFirst d (key ∷ keys) h =
      first_spellings-IsFirst (with_key key d) keys (with_key-IsFirst key d h)

  length-with_key : (key : Text) (d : List (Text × Text)) → length (with_key key d) ≤ length d + 1
  length-with_key key d =
      elim (Bool-cases (contains (key_identity u key) (map identity_of_entry d))) [
        | inl e ↦ rw (with_key-old key d e) (omega arith)
        | inr e ↦
            rw (with_key-new key d e)
              (omega (arith, length-append d ((key_identity u key, key) ∷ [])))
      ]

  length-first_spellings :
      (d : List (Text × Text)) (keys : List Text)
      → length (first_spellings u d keys) ≤ length d + length keys
  unfolding first_spellings
  length-first_spellings d [] = omega arith
  length-first_spellings d (key ∷ keys) =
      omega (arith, length-first_spellings (with_key key d) keys, length-with_key key d)

  -- An identity stays, and a key's identity is there once the key is read.
  with_key-stays :
      (key i : Text) (d : List (Text × Text))
      → contains i (map identity_of_entry d) ≡ true
      → contains i (map identity_of_entry (with_key key d)) ≡ true
  with_key-stays key i d h =
      elim (Bool-cases (contains (key_identity u key) (map identity_of_entry d))) [
        | inl e ↦ rw (with_key-old key d e) h
        | inr e ↦
            rw
              (
                with_key-new key d e,
                map-append,
                contains-snoc i (key_identity u key) (map identity_of_entry d),
                h,
              )
              refl
      ]

  with_key-there :
      (key : Text) (d : List (Text × Text))
      → contains (key_identity u key) (map identity_of_entry (with_key key d)) ≡ true
  with_key-there key d =
      elim (Bool-cases (contains (key_identity u key) (map identity_of_entry d))) [
        | inl e ↦ rw (with_key-old key d e) e
        | inr e ↦
            rw
              (
                with_key-new key d e,
                map-append,
                contains-snoc (key_identity u key) (key_identity u key) (map identity_of_entry d),
                e,
              )
              ((text_eq.beq_iff (key_identity u key) (key_identity u key)).1 refl)
      ]

  first_spellings-stays :
      (i : Text) (d : List (Text × Text)) (keys : List Text)
      → contains i (map identity_of_entry d) ≡ true
      → contains i (map identity_of_entry (first_spellings u d keys)) ≡ true
  unfolding first_spellings
  first_spellings-stays i d [] h = h
  first_spellings-stays i d (key ∷ keys) h =
      first_spellings-stays i (with_key key d) keys (with_key-stays key i d h)

  first_spellings-there :
      (d : List (Text × Text)) (keys : List Text)
      → All
          (λ k.
            contains (key_identity u k) (map identity_of_entry (first_spellings u d keys)) ≡ true)
          keys
  unfolding first_spellings
  first_spellings-there d [] = tt
  first_spellings-there d (key ∷ keys) = (
    first_spellings-stays (key_identity u key) (with_key key d) keys (with_key-there key d),
    first_spellings-there (with_key key d) keys,
  )

  -- No two of the keys that are kept have one identity; every key of the request that is not blank
  -- has the identity of a kept one; and the kept keys and the number of duplicates add up to the
  -- keys that are not blank.
  pub dedupe_lem :
      (keys : List Text)
      → let (requested, duplicates) = dedupe u keys in
        (has_repeats (map (key_identity u) requested) ≡ false)
        × All
            (λ k. contains (key_identity u k) (map (key_identity u) requested) ≡ true)
            (cleaned u keys)
        × (length requested + duplicates ≡ length (cleaned u keys))
  unfolding dedupe
  dedupe_lem keys =
      let clean = cleaned u keys in
      let first = first_spellings u [] clean in
      let (same, distinct) = first_spellings-IsFirst [] clean (refl, unfold has_repeats in refl) in
      (
        rw same distinct,
        rw same (first_spellings-there [] clean),
        omega (arith, length-first_spellings [] clean, length-map spelling first),
      )
