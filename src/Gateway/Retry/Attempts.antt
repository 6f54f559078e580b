-- ===== src/Gateway/Retry/Attempts.antt =====
-- What a run of `_with_retries` does, in closed form: which calls it makes, how it ends, and what it
-- leaves in the log and in the list of delays.
use patent_landscapes.Base.{
  ap, inr, inl, ◌⊎◌, subst, ◌∙◌, refl, append_assoc, append-nil, sym, ◌<◌, ℕ, zero, suc, ◌+◌, ◌≤◌,
  ◌≡◌, List, [], ◌∷◌, ◌++◌, arith, nat_eq,
}
use native.Mathlib.Nat.{add-zero}
use patent_landscapes.Base.Text.{text_eq}
use patent_landscapes.Base.Result.{Result, ok, err}
use patent_landscapes.Gateway.Model.{
  BackendSettings, CallContext, CallRecord, ChatResponse, Attempt, Outcome, reply, overloaded,
  refused, unclassified, GatewayError, retryable, permanent, World, log_call,
}
use patent_landscapes.Gateway.Retry.{
  with_retries, retry_from, message_of, response_of, attempt_record, log_attempt, backoff,
  max_backoff_s, acquire_and_call, sleep, attempted,
}

abbrev pub IsOverloaded : Outcome ChatResponse → Type 0
IsOverloaded (reply r) = ⊥
IsOverloaded (overloaded e) = Unit
IsOverloaded (refused e) = ⊥
IsOverloaded (unclassified e) = ⊥

-- What the caller of the loop sees of the call that ended it.
abbrev pub final : Outcome ChatResponse → Result GatewayError ChatResponse
final (reply r) = ok r
final (overloaded e) = err (retryable e)
final (refused e) = err (permanent e)
final (unclassified e) = err (permanent e)

-- The delays after `n` failed attempts, the first of them numbered `attempt`.
abbrev pub backoffs : ℕ → ℕ → List ℕ
backoffs attempt zero = []
backoffs attempt (suc n) = backoff attempt ∷ backoffs (attempt + 1) n

pub backoff-le : (attempt : ℕ) → backoff attempt ≤ max_backoff_s
unfolding backoff
backoff-le attempt = omega arith

module _ (b : BackendSettings) (ctx : CallContext) (call : ℕ → Attempt ChatResponse) where
  -- The log of `n` attempts: attempt `attempt` made call number `c`, and so on.
  abbrev pub records : ℕ → ℕ → ℕ → List CallRecord
  records attempt c zero = []
  records attempt c (suc n) =
      attempt_record b ctx attempt (response_of (call c).outcome) (call c).latency_ms
        (message_of (call c).outcome)
      ∷ records (attempt + 1) (c + 1) n

  -- The world after `k` overloaded calls and one more.
  abbrev pub after : ℕ → ℕ → World → World
  after attempt k w = record {
    acquired = w.acquired + (k + 1);
    calls = w.calls + (k + 1);
    slept = w.slept ++ backoffs attempt k;
    log = w.log ++ records attempt w.calls (suc k);
    cache = w.cache;
  }

  after-zero : (attempt : ℕ) (w : World) → attempted b ctx call attempt w ≡ after attempt 0 w
  unfolding attempted acquire_and_call log_attempt log_call
  after-zero attempt w = λ i. record (after attempt 0 w) { slept = sym (append-nil w.slept) i }

  after-suc :
      (attempt k : ℕ) (w : World)
      → after (attempt + 1) k (sleep (backoff attempt) (attempted b ctx call attempt w))
        ≡ after attempt (suc k) w
  unfolding attempted acquire_and_call log_attempt log_call sleep
  after-suc attempt k w =
      let acquired_eq : w.acquired + 1 + (k + 1) ≡ w.acquired + (suc k + 1) = omega arith in
      let calls_eq : w.calls + 1 + (k + 1) ≡ w.calls + (suc k + 1) = omega arith in
      λ i. record {
        acquired = acquired_eq i;
        calls = calls_eq i;
        slept = append_assoc w.slept (backoff attempt ∷ []) (backoffs (attempt + 1) k) i;
        log =
            append_assoc w.log (records attempt w.calls 1)
              (records (attempt + 1) (w.calls + 1) (suc k)) i;
        cache = w.cache;
      }

  -- A run of the loop with `rounds` retries left, as one of its possible traces.
  abbrev pub Trace : ℕ → ℕ → World → Result GatewayError ChatResponse × World → Type 0
  Trace rounds attempt w result =
      (k : ℕ) × (k ≤ rounds)
      × ((i : ℕ) → i < k → IsOverloaded (call (w.calls + i)).outcome)
      × (IsOverloaded (call (w.calls + k)).outcome → k ≡ rounds)
      × (result ≡ (final (call (w.calls + k)).outcome, after attempt k w))

  stops :
      (rounds attempt : ℕ) (w : World)
      → (IsOverloaded (call w.calls).outcome → 0 ≡ rounds)
      → Trace rounds attempt w (final (call w.calls).outcome, attempted b ctx call attempt w)
  stops rounds attempt w last =
      (0, omega arith, λ i h. absurd (omega arith), rw add-zero last, rw (add-zero, after-zero))

  shift : (c i : ℕ) → c + 1 + i ≡ c + suc i
  shift c i = omega arith

  earlier :
      (c k : ℕ)
      → IsOverloaded (call c).outcome
      → ((i : ℕ) → i < k → IsOverloaded (call (c + 1 + i)).outcome)
      → (i : ℕ) → i < suc k
      → IsOverloaded (call (c + i)).outcome
  earlier c k over before zero h = rw add-zero over
  earlier c k over before (suc i) h =
      subst (λ n. IsOverloaded (call n).outcome) (shift c i) (before i (omega arith))

  goes_on :
      (rounds attempt : ℕ) (w : World) (result : Result GatewayError ChatResponse × World)
      → IsOverloaded (call w.calls).outcome
      → Trace rounds (attempt + 1) (sleep (backoff attempt) (attempted b ctx call attempt w)) result
      → Trace (suc rounds) attempt w result
  unfolding sleep attempted acquire_and_call log_attempt log_call
  goes_on rounds attempt w result over (k, le, before, last, eq) = (
    suc k,
    omega arith,
    earlier w.calls k over before,
    λ o. ap suc (last (subst (λ n. IsOverloaded (call n).outcome) (sym (shift w.calls k)) o)),
    eq ∙ (λ i. (final (call (shift w.calls k i)).outcome, after-suc attempt k w i)),
  )

  -- One round, by what its call did: the loop ends with it, or sleeps and goes on.
  round_ends :
      (rounds attempt : ℕ) (w : World)
      → (IsOverloaded (call w.calls).outcome → b.max_retries < attempt)
      → retry_from b ctx call (suc rounds) attempt w
        ≡ (final (call w.calls).outcome, attempted b ctx call attempt w)
  unfolding retry_from
  round_ends rounds attempt w h = go (call w.calls).outcome refl
    where
      go :
          (o : Outcome ChatResponse)
          → (call w.calls).outcome ≡ o
          → retry_from b ctx call (suc rounds) attempt w
            ≡ (final (call w.calls).outcome, attempted b ctx call attempt w)
      go (reply r) e = ground arith
      go (overloaded m) e = let late : b.max_retries < attempt = h (rw e tt) in ground arith
      go (refused m) e = ground arith
      go (unclassified m) e = ground arith

  round_retries :
      (rounds attempt : ℕ) (w : World)
      → IsOverloaded (call w.calls).outcome
      → attempt ≤ b.max_retries
      → retry_from b ctx call (suc rounds) attempt w
        ≡ retry_from b ctx call rounds
            (attempt + 1)
            (sleep (backoff attempt) (attempted b ctx call attempt w))
  unfolding retry_from
  round_retries rounds attempt w over h = go (call w.calls).outcome refl
    where
      go :
          (o : Outcome ChatResponse)
          → (call w.calls).outcome ≡ o
          → retry_from b ctx call (suc rounds) attempt w
            ≡ retry_from b ctx call rounds
                (attempt + 1)
                (sleep (backoff attempt) (attempted b ctx call attempt w))
      go (reply r) e = absurd (rw e at over)
      go (overloaded m) e = ground arith
      go (refused m) e = absurd (rw e at over)
      go (unclassified m) e = absurd (rw e at over)

  IsOverloaded-cases : (o : Outcome ChatResponse) → IsOverloaded o ⊎ (¬ (IsOverloaded o))
  IsOverloaded-cases (reply r) = inr (λ x. x)
  IsOverloaded-cases (overloaded m) = inl tt
  IsOverloaded-cases (refused m) = inr (λ x. x)
  IsOverloaded-cases (unclassified m) = inr (λ x. x)

  retry_from-Trace :
      (rounds attempt : ℕ) (w : World)
      → attempt + rounds ≡ b.max_retries + 1
      → Trace rounds attempt w (retry_from b ctx call (suc rounds) attempt w)
  retry_from-Trace zero attempt w h =
      subst (Trace 0 attempt w) (sym (round_ends 0 attempt w (λ o. omega arith)))
        (stops 0 attempt w (λ o. refl))
  retry_from-Trace (suc rounds) attempt w h = elim (IsOverloaded-cases (call w.calls).outcome) [
    | inl over ↦
        subst (Trace (suc rounds) attempt w)
          (sym (round_retries (suc rounds) attempt w over (omega arith)))
          (goes_on rounds attempt w _ over (
            retry_from-Trace rounds (attempt + 1)
              (sleep (backoff attempt) (attempted b ctx call attempt w)) (omega arith)))
    | inr other ↦
        subst (Trace (suc rounds) attempt w)
          (sym (round_ends (suc rounds) attempt w (λ o. absurd (other o))))
          (stops (suc rounds) attempt w (λ o. absurd (other o)))
  ]

  -- A run of `_with_retries` makes k + 1 calls, for some k of at most `max_retries`: the first k of
  -- them were overloaded; the last was not, unless the retries were used up; the result is what the
  -- last call returned or raised, an unclassified exception becoming a permanent error; each call
  -- waited for the rate limiter and is logged once, numbered from 1; after the i-th failed attempt
  -- it slept min(30, 2 ^ (i - 1)) seconds; and the cache is as it was.
  pub with_retries-Trace : (w : World) → Trace b.max_retries 1 w (with_retries b ctx call w)
  unfolding with_retries
  with_retries-Trace w =
      subst (λ n. Trace b.max_retries 1 w (retry_from b ctx call n 1 w)) {x = suc b.max_retries}
        (omega arith) (retry_from-Trace b.max_retries 1 w (omega arith))
