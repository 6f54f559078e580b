-- ===== src/Gateway/Retry.antt =====
-- `_cost`, `_log_attempt` and `_with_retries` of gateway/gateway.py. The provider is a parameter: what its n-th
-- call does, for every n. A round of the loop acquires the rate limiter, calls, logs, and then
-- returns, raises, or sleeps and goes on.
pub mod Attempts
use patent_landscapes.Base.{
  ℕ, zero, suc, ◌+◌, ◌-◌, ◌*◌, ◌^◌, true, false, Option, none, some, List, [], ◌∷◌, ◌++◌, ltb,
  nat_eq,
}
use patent_landscapes.Base.Text.{Text, codes}
use patent_landscapes.Base.Result.{ok, err}
use patent_landscapes.Gateway.Model.{
  RoleSettings, BackendSettings, CallContext, CallRecord, ChatResponse, Output, no_output,
  text_output, Attempt, Outcome, reply, overloaded, refused, unclassified, retryable, permanent,
  plain, World, Exec, log_call,
}
use Prim.Native.Nat.{min}

abbrev pub max_backoff_s : ℕ
max_backoff_s = 30

-- `_cost`, times `MICRO`.
unfoldable pub cost : RoleSettings → Option ℕ → Option ℕ → Option ℕ
cost cfg input_tokens output_tokens = elim cfg.input_price_per_mtok_usd [
  | none ↦ none
  | some in_price ↦ elim cfg.output_price_per_mtok_usd [
    | none ↦ none
    | some out_price ↦ elim input_tokens [
      | none ↦ none
      | some i ↦ elim output_tokens [ none ↦ none | some o ↦ some (i * in_price + o * out_price) ]
    ]
  ]
]

-- What `_log_attempt` reads off a response, if there is one.
pub record Logged : Type 0 where
  pub output : Output
  pub input_tokens : Option ℕ
  pub output_tokens : Option ℕ
  pub model_reported : Option Text
  pub params : List (Text × Text)

abbrev pub observe : Option ChatResponse → Logged
observe none = record {
  output = no_output;
  input_tokens = none;
  output_tokens = none;
  model_reported = none;
  params = [];
}
observe (some r) = record {
  output = text_output r.text;
  input_tokens = r.input_tokens;
  output_tokens = r.output_tokens;
  model_reported = r.model_reported;
  params = r.params_sent;
}

-- `_json_safe` keeps parameters, whose names are text.
unfoldable pub attempt_record :
    BackendSettings → CallContext → ℕ → Option ChatResponse → ℕ → Option Text → CallRecord
attempt_record b ctx attempt response latency_ms error =
    let o = observe response in
    record {
      role = ctx.role;
      backend = ctx.role_cfg.backend;
      provider = b.type;
      model = ctx.role_cfg.model;
      model_version_reported = o.model_reported;
      operation = ctx.operation;
      prompt_id = some ctx.prompt_id;
      prompt_version = some ctx.prompt_version;
      params = o.params;
      request_sha256 = ctx.key;
      cache_key = ctx.key;
      cache_hit = false;
      attempt = attempt;
      output = o.output;
      input_tokens = o.input_tokens;
      output_tokens = o.output_tokens;
      latency_ms = latency_ms;
      cost_estimate_usd = cost ctx.role_cfg o.input_tokens o.output_tokens;
      error = error;
    }

unfoldable pub log_attempt :
    BackendSettings → CallContext → ℕ → Option ChatResponse → ℕ → Option Text → World → World
unfolding log_call
log_attempt b ctx attempt response latency_ms error w =
    log_call (attempt_record b ctx attempt response latency_ms error) w

-- `min(MAX_BACKOFF_S, 2.0 ** (attempt - 1))`.
unfoldable pub backoff : ℕ → ℕ
backoff attempt = min max_backoff_s (2 ^ (attempt - 1))

-- `self._limiters[...].acquire()`, then the call itself.
unfoldable pub acquire_and_call : World → World
acquire_and_call w = record w { acquired = w.acquired + 1; calls = w.calls + 1 }

unfoldable pub sleep : ℕ → World → World
sleep s w = record w { slept = w.slept ++ s ∷ [] }

abbrev pub message_of : Outcome ChatResponse → Option Text
message_of (reply r) = none
message_of (overloaded e) = some e
message_of (refused e) = some e
message_of (unclassified e) = some e

abbrev pub response_of : Outcome ChatResponse → Option ChatResponse
response_of (reply r) = some r
response_of (overloaded e) = none
response_of (refused e) = none
response_of (unclassified e) = none

module _ (b : BackendSettings) (ctx : CallContext) (call : ℕ → Attempt ChatResponse) where
  -- The world after one round has acquired, called and logged.
  unfoldable pub attempted : ℕ → World → World
  unfolding acquire_and_call log_attempt
  attempted attempt w =
      let a = call w.calls in
      log_attempt b ctx attempt (response_of a.outcome) a.latency_ms (message_of a.outcome)
        (acquire_and_call w)

  -- `rounds` counts what is left of `range(1, max_retries + 2)`.
  unfoldable pub retry_from : ℕ → ℕ → Exec ChatResponse
  unfolding attempted sleep
  retry_from zero attempt w =
      (err (plain (codes "unreachable: retry loop exited without result")), w)
  retry_from (suc rounds) attempt w =
      let w' = attempted attempt w in
      elim (call w.calls).outcome [
        | reply r ↦ (ok r, w')
        | overloaded e ↦ elim (ltb b.max_retries attempt) [
          | true ↦ (err (retryable e), w')
          | false ↦ retry_from rounds (attempt + 1) (sleep (backoff attempt) w')
        ]
        | refused e ↦ (err (permanent e), w')
        | unclassified e ↦ (err (permanent e), w')
      ]

  unfoldable pub with_retries : Exec ChatResponse
  unfolding retry_from
  with_retries = retry_from (b.max_retries + 1) 1
