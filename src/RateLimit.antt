-- ===== src/RateLimit.antt =====
-- The token bucket of src/patsquire_plr/ratelimit.py. The arithmetic of floats is a parameter: the type
-- of the floats, and what the operations that the code uses give.
pub mod Bounds
pub mod Tests
use patent_landscapes.Base.{
  ℕ, ◌+◌, Bool, true, false, Option, none, some, List, [], ◌∷◌, ltb, if◌then◌else◌, nat_eq,
}

pub record Floats (F : Type 0) : Type 0 where
  pub float : ℕ → F
  pub add : F → F → F
  pub sub : F → F → F
  pub mul : F → F → F
  pub div : F → F → F
  pub min : F → F → F
  pub le : F → F → Bool

pub record RateLimiter (F : Type 0) : Type 0 where
  pub capacity : F
  pub rate : F
  pub tokens : F
  pub updated : F

module _ {F : Type 0} (floats : Floats F) where
  -- `requests_per_minute / SECONDS_PER_MINUTE`.
  abbrev pub rate_of : ℕ → F
  rate_of requests_per_minute = floats.div (floats.float requests_per_minute) (floats.float 60)

  -- `__init__`, at a reading of the clock; `none` is the `ValueError` for fewer than one request a
  -- minute.
  unfoldable pub new : ℕ → F → Option (RateLimiter F)
  new requests_per_minute now =
      if ltb requests_per_minute 1
      then none
      else some (record {
        capacity = floats.float requests_per_minute;
        rate = rate_of requests_per_minute;
        tokens = floats.float requests_per_minute;
        updated = now;
      })

  -- The refill at the start of a round. The clock is `time.monotonic`.
  unfoldable pub refill : F → RateLimiter F → RateLimiter F
  refill now r = record r {
    tokens =
        floats.min r.capacity (floats.add r.tokens (floats.mul (floats.sub now r.updated) r.rate));
    updated = now;
  }

  abbrev pub has_token : RateLimiter F → Bool
  has_token r = floats.le (floats.float 1) r.tokens

  abbrev pub take_token : RateLimiter F → RateLimiter F
  take_token r = record r { tokens = floats.sub r.tokens (floats.float 1) }

  -- One round of the loop, under the lock: whether the request may be sent, and the state.
  unfoldable pub round : F → RateLimiter F → Bool × RateLimiter F
  unfolding refill
  round now r = let r' = refill now r in if has_token r' then (true, take_token r') else (false, r')

  -- `(1 - self._tokens) / self._rate`.
  abbrev pub wait : RateLimiter F → F
  wait r = floats.div (floats.sub (floats.float 1) r.tokens) r.rate

  -- Under a refusal the loop sleeps, adds the wait, and goes on.
  abbrev pub return_or_sleep :
      Bool × RateLimiter F
      → F
      → (F → RateLimiter F → Option (F × RateLimiter F))
      → Option (F × RateLimiter F)
  return_or_sleep (true, r) waited again = some (waited, r)
  return_or_sleep (false, r) waited again = again (floats.add waited (wait r)) r

  -- `acquire`, at the clock readings of its rounds: what it has waited, and the state. `none`: the
  -- readings end before a token is there.
  unfoldable pub acquire : List F → F → RateLimiter F → Option (F × RateLimiter F)
  unfolding round
  acquire [] waited r = none
  acquire (now ∷ readings) waited r = return_or_sleep (round now r) waited (acquire readings)

  -- Rounds of any number of threads, in the order in which they take the lock: how many requests
  -- they let through, and the state.
  unfoldable pub rounds : List F → RateLimiter F → ℕ × RateLimiter F
  unfolding round
  rounds [] r = (0, r)
  rounds (now ∷ readings) r =
      let (granted, r') = round now r in
      let (n, r'') = rounds readings r' in (if granted then n + 1 else n, r'')
