-- ===== src/RateLimit/Tests.antt =====
-- The bucket at 2 requests a minute, in exact arithmetic: a number stands for so many sixtieths.
use patent_landscapes.Base.{ℕ, ◌+◌, ◌-◌, ◌*◌, ◌≡◌, refl, none, some, [], ◌∷◌, leb, nat_eq}
use Prim.Native.Nat.{min, ◌/◌}
use patent_landscapes.RateLimit.{Floats, RateLimiter, new, acquire, rounds}

abbrev sixtieths : Floats ℕ
sixtieths = record {
  float = λ n. n * 60;
  add = λ a b. a + b;
  sub = λ a b. a - b;
  mul = λ a b. a * b / 60;
  div = λ a b. a * 60 / b;
  min = λ a b. min a b;
  le = λ a b. leb a b;
}

abbrev value : ℕ → ℕ
value x = 60 * x

abbrev time : ℕ → ℕ
time x = x

abbrev bucket : RateLimiter ℕ
bucket = record { capacity = 120; rate = 2; tokens = 120; updated = 6000 }

new_lem : new sixtieths 2 6000 ≡ some bucket
unfolding new
new_lem = refl

new-zero : new sixtieths 0 6000 ≡ none
unfolding new
new-zero = refl

-- Two at once, none for half a minute, then one.
burst : (rounds sixtieths (6000 ∷ 6000 ∷ 6600 ∷ 7740 ∷ 7800 ∷ []) bucket).0 ≡ 3
unfolding rounds
burst = refl

-- An empty bucket: the wait asked for, 30 seconds, is enough.
acquire_lem :
    acquire sixtieths (6000 ∷ 7800 ∷ []) 0 (record bucket { tokens = 0 })
    ≡ some (1800, record bucket { tokens = 0; updated = 7800 })
unfolding acquire
acquire_lem = refl
