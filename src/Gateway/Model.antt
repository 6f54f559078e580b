-- ===== src/Gateway/Model.antt =====
-- The data of the gateway: the settings of src/patsquire_plr/config.py that it reads, the messages and
-- responses of gateway/providers/base.py, the errors of gateway/errors.py, and the call log and
-- response cache of gateway/store.py.
use patent_landscapes.Base.{ℕ, Bool, Option, List, [], ◌∷◌, ◌++◌, nat_eq}
use patent_landscapes.Base.Text.{Text, text_eq}
use patent_landscapes.Base.Dict.{get, set_default}
use patent_landscapes.Base.Int.{ℤ}
use patent_landscapes.Base.Result.{Result, ok, err}

-- `BackendSettings`, as far as the gateway reads it. The type is one of four texts.
pub record BackendSettings : Type 0 where
  pub type : Text
  pub base_url : Option Text
  pub region : Option Text
  pub max_retries : ℕ

-- `RoleSettings`. A temperature is the text that `str` gives it; prices are in whole units of the
-- smallest decimal place in use.
pub record RoleSettings : Type 0 where
  pub backend : Text
  pub model : Text
  pub max_output_tokens : Option ℕ
  pub temperature : Option Text
  pub seed : Option ℤ
  pub max_schema_retries : ℕ
  pub input_price_per_mtok_usd : Option ℕ
  pub output_price_per_mtok_usd : Option ℕ

pub data Speaker : Type 0 where
  user assistant : Speaker

pub record Message : Type 0 where
  pub role : Speaker
  pub content : Text

pub record GenerationParams : Type 0 where
  pub max_output_tokens : ℕ
  pub temperature : Option Text
  pub seed : Option ℤ

-- Of the parameters that were sent, the values are their JSON texts.
pub record ChatResponse : Type 0 where
  pub text : Text
  pub input_tokens : Option ℕ
  pub output_tokens : Option ℕ
  pub model_reported : Option Text
  pub params_sent : List (Text × Text)

-- The errors, with their messages; `StructuredOutputError` has the parts of its message: the role,
-- the backend, the model, the number of replies and the last validation error.
pub data GatewayError : Type 0 where
  retryable : Text → GatewayError
  permanent : Text → GatewayError
  structured_output : Text → Text → Text → ℕ → Text → GatewayError
  plain : Text → GatewayError

-- What is stored with a call: the response text, a cached response, or nothing.
pub data Cached : Type 0 where
  text_entry : Text → Cached
  json_entry : Text → Cached

pub data Output : Type 0 where
  no_output : Output
  text_output : Text → Output
  cached_output : Cached → Output

pub data Operation : Type 0 where
  text_call structured_call : Operation

pub record CallRecord : Type 0 where
  pub role : Text
  pub backend : Text
  pub provider : Text
  pub model : Text
  pub model_version_reported : Option Text
  pub operation : Operation
  pub prompt_id : Option Text
  pub prompt_version : Option Text
  pub params : List (Text × Text)
  pub request_sha256 : Text
  pub cache_key : Text
  pub cache_hit : Bool
  pub attempt : ℕ
  pub output : Output
  pub input_tokens : Option ℕ
  pub output_tokens : Option ℕ
  pub latency_ms : ℕ
  pub cost_estimate_usd : Option ℕ
  pub error : Option Text

-- `_CallContext`, with the fields of the prompt that are logged.
pub record CallContext : Type 0 where
  pub role : Text
  pub role_cfg : RoleSettings
  pub prompt_id : Text
  pub prompt_version : Text
  pub key : Text
  pub operation : Operation

-- What a provider call does: it returns, or it raises. `unclassified` is any other exception,
-- with the message that `_with_retries` makes of it.
pub data Outcome (R : Type 0) : Type 0 where
  reply : R → Outcome R
  overloaded : Text → Outcome R
  refused : Text → Outcome R
  unclassified : Text → Outcome R

pub record Attempt (R : Type 0) : Type 0 where
  pub outcome : Outcome R
  pub latency_ms : ℕ

-- The world that a gateway call changes: how many requests the rate limiter has let through, how
-- many were sent, the delays that were slept, the call log and the cache (`CallStore`).
pub record World : Type 0 where
  pub acquired : ℕ
  pub calls : ℕ
  pub slept : List ℕ
  pub log : List CallRecord
  pub cache : List (Text × Cached)

-- `CallStore.get_cached`, `put_cached` (the first response stored for a key wins) and `log_call`.
unfoldable pub get_cached : Text → World → Option Cached
get_cached key w = get key w.cache

unfoldable pub put_cached : Text → Cached → World → World
put_cached key response w = record w { cache = set_default key response w.cache }

unfoldable pub log_call : CallRecord → World → World
log_call r w = record w { log = w.log ++ r ∷ [] }

abbrev pub Exec : Type 0 → Type 0
Exec A = World → Result GatewayError A × World

abbrev pub bind_result : {A B : Type 0} → Result GatewayError A → (A → Exec B) → Exec B
bind_result (ok a) f w = f a w
bind_result (err e) f w = (err e, w)

infixl 5 ◌>>=◌
abbrev pub ◌>>=◌ : {A B : Type 0} → Exec A → (A → Exec B) → Exec B
◌>>=◌ m f w = let (r, w') = m w in bind_result r f w'
