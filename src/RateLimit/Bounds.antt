-- ===== src/RateLimit/Bounds.antt =====
-- How many requests the bucket lets through.
use patent_landscapes.Base.{true, ℕ, ◌+◌, ◌*◌, ◌≤◌, ◌≡◌, List, [], ◌∷◌, nat_eq}
use patent_landscapes.RateLimit.{Floats, rate_of, RateLimiter}

-- What is assumed of the floats. A float of tokens has a value in units, of which a token has `unit`,
-- and one of the clock a time in ticks, as many to a minute. Up to `most` units, whole numbers are
-- exact and differences of what is counted are rounded by at most `rounding` units; a sum, and what
-- an interval brings, is at most its exact value and the rounding.
pub record IsRounded {F : Type 0} (floats : Floats F) (value time : F → ℕ) (unit most rounding : ℕ)
    : Type 0 where
  pub value-float : (n : ℕ) → n * unit ≤ most → value (floats.float n) ≡ n * unit
  pub value-add : (a b : F) → value (floats.add a b) ≤ value a + value b + rounding
  pub value-sub :
      (a b : F)
      → floats.le b a ≡ true
      → value a ≤ most
      → value (floats.sub a b) + value b ≤ value a + rounding
  pub value-min :
      (a b : F) → (value (floats.min a b) ≤ value a) × (value (floats.min a b) ≤ value b)
  pub value-gain :
      (p : ℕ) (a b : F)
      → time b ≤ time a
      → value (floats.mul (floats.sub a b) (rate_of floats p)) + time b * p ≤ time a * p + rounding

module _ {F : Type 0} (floats : Floats F) (value time : F → ℕ) (unit most rounding : ℕ)
    (rounded : IsRounded floats value time unit most rounding) where
  -- The readings of a clock that does not go back, from `t` on.
  abbrev pub IsMonotonic : ℕ → List F → Type 0
  IsMonotonic t [] = Unit
  IsMonotonic t (now ∷ readings) = (t ≤ time now) × IsMonotonic (time now) readings

  abbrev pub last_time : ℕ → List F → ℕ
  last_time t [] = t
  last_time t (now ∷ readings) = last_time (time now) readings

  -- A bucket for `p` requests a minute.
  pub record IsFor (p : ℕ) (r : RateLimiter F) : Type 0 where
    pub at_rate : r.rate ≡ rate_of floats p
    pub of_capacity : r.capacity ≡ floats.float p
