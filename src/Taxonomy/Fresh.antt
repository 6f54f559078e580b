-- ===== src/Taxonomy/Fresh.antt =====
-- `segment_id` of src/patsquire_plr/landscape/taxonomy.py returns, and what it returns was not taken.
use patent_landscapes.Base.{
  subst, ℕ, zero, suc, ◌+◌, ◌<◌, ◌≡◌, refl, sym, ap, ◌≢◌, inl, inr, true, false, none, some, List,
  [], ◌∷◌, ◌++◌, arith, Option-cases, nat_eq, length, length-append,
}
use patent_landscapes.Base.Text.{Text, Letters, text_eq}
use patent_landscapes.Base.Dict.{contains}
use patent_landscapes.Base.Number.{str, str-injective}
use patent_landscapes.Base.Pigeon.{length-values}
use patent_landscapes.Taxonomy.Ids.{with_number, free_id, base_id, segment_id}

-- The candidates in the order of the loop.
abbrev candidate_at : Text → ℕ → Text
candidate_at base zero = base
candidate_at base (suc i) = with_number base (i + 2)

append-longer : (base t : Text) (c : ℕ) → base ≢ base ++ (c ∷ t)
append-longer base t c h =
    let longer = ap length h in ground (arith, length-append {0} base (c ∷ t))

append-cancel : (base s t : Text) → base ++ s ≡ base ++ t → s ≡ t
append-cancel [] s t h = h
append-cancel (b ∷ base) s t h = append-cancel base s t (cc)

candidate_at-injective : (base : Text) (i j : ℕ) → candidate_at base i ≡ candidate_at base j → i ≡ j
candidate_at-injective base zero zero h = refl
candidate_at-injective base zero (suc j) h = absurd (append-longer base (str (j + 2)) b'_' h)
candidate_at-injective base (suc i) zero h = absurd (append-longer base (str (i + 2)) b'_' (sym h))
candidate_at-injective base (suc i) (suc j) h =
    let digits : str (i + 2) ≡ str (j + 2) =
      ground (arith, append-cancel base (b'_' ∷ str (i + 2)) (b'_' ∷ str (j + 2)) h) in
    omega (arith, str-injective (i + 2) (j + 2) digits)

free_id-none :
    (base : Text) (taken : List Text) (fuel n : ℕ) (candidate : Text)
    → free_id base taken (suc fuel) candidate n ≡ none
    → (contains candidate taken ≡ true)
      × (free_id base taken fuel (with_number base n) (suc n) ≡ none)
unfolding free_id
free_id-none base taken fuel n candidate h = ground arith

-- The loop that ends without fuel has seen only identifiers that were taken.
taken_lem :
    (base : Text) (taken : List Text) (fuel i k j n : ℕ)
    → free_id base taken fuel (candidate_at base i) n ≡ none
    → n ≡ i + 2
    → i + k ≡ j
    → k < fuel
    → contains (candidate_at base j) taken ≡ true
taken_lem base taken zero i k j n h m s l = absurd (omega arith)
taken_lem base taken (suc fuel) i zero j n h m s l =
    let (held, rest) = free_id-none base taken fuel n (candidate_at base i) h in
    let same : i ≡ j = omega arith in
    subst (λ (x : ℕ). contains (candidate_at base x) taken ≡ true) same held
taken_lem base taken (suc fuel) i (suc k) j n h m s l =
    let (held, rest) = free_id-none base taken fuel n (candidate_at base i) h in
    taken_lem base taken fuel (suc i) k j (suc n)
      (subst (λ (x : ℕ). free_id base taken fuel (with_number base x) (suc n) ≡ none) m rest)
      (omega arith) (omega arith) (omega arith)

free_id-fresh :
    (base : Text) (taken : List Text) (fuel n : ℕ) (candidate id : Text)
    → free_id base taken fuel candidate n ≡ some id
    → contains id taken ≡ false
unfolding free_id
free_id-fresh base taken zero n candidate id h = cc
free_id-fresh base taken (suc fuel) n candidate id h =
    ground (arith, free_id-fresh base taken fuel (suc n) (with_number base n) id)

-- Whatever the name and the identifiers taken, the loop ends, with an identifier that was not taken.
pub segment_id-fresh :
    (l : Letters) (to_ascii : Text → Text) (name : Text) (taken : List Text)
    → (id : Text) × (segment_id l to_ascii name taken ≡ some id) × (contains id taken ≡ false)
unfolding segment_id
segment_id-fresh l to_ascii name taken =
    let base = base_id l to_ascii name in
    elim (Option-cases (free_id base taken (suc (length taken)) base 2)) [
      | inr (id, e) ↦ (id, e, free_id-fresh base taken (suc (length taken)) 2 base id e)
      | inl e ↦
          let least =
            length-values (candidate_at base) (suc (length taken)) taken
              (candidate_at-injective base)
              (λ k h. taken_lem base taken (suc (length taken)) 0 k k 2 e refl (omega arith) h) in
          absurd (omega arith)
    ]
