-- ===== src/Gateway/Key.antt =====
-- `_role`, `_params`, `_chat_key`, `_cached` and `_summarise` of
-- src/patsquire_plr/gateway/gateway.py: what a call depends on, and what is logged of a cached one.
use patent_landscapes.Base.{ℕ, true, Option, none, some, List, [], ◌∷◌, ◌++◌, map, nat_eq, take}
use patent_landscapes.Base.Text.{Text, codes, text_eq, join}
use patent_landscapes.Base.Int.{ℤ}
use patent_landscapes.Base.Result.{Result, ok, err}
use patent_landscapes.Gateway.Model.{
  RoleSettings, BackendSettings, Message, GenerationParams, CallContext, CallRecord, Cached,
  cached_output, Operation, text_call, structured_call, GatewayError, plain, World, get_cached,
  log_call,
}
use patent_landscapes.Gateway.Prompt.{PromptTemplate}

-- What `_chat_key` hashes: everything that a response depends on.
pub record ChatKey : Type 0 where
  pub operation : Operation
  pub backend : Text
  pub server_type : Text
  pub server_base_url : Option Text
  pub server_region : Option Text
  pub model : Text
  pub max_output_tokens : Option ℕ
  pub temperature : Option Text
  pub seed : Option ℤ
  pub prompt_id : Text
  pub prompt_version : Text
  pub prompt_sha256 : Text
  pub system : Text
  pub user : Text
  pub schema : Option Text

abbrev pub operation_of : Option Text → Operation
operation_of none = text_call
operation_of (some schema) = structured_call

unfoldable pub chat_key :
    BackendSettings → RoleSettings → PromptTemplate → Text → Text → Option Text → ChatKey
chat_key b cfg p system question schema = record {
  operation = operation_of schema;
  backend = cfg.backend;
  server_type = b.type;
  server_base_url = b.base_url;
  server_region = b.region;
  model = cfg.model;
  max_output_tokens = cfg.max_output_tokens;
  temperature = cfg.temperature;
  seed = cfg.seed;
  prompt_id = p.id;
  prompt_version = p.version;
  prompt_sha256 = p.sha256;
  system = system;
  user = question;
  schema = schema;
}

-- A request to the provider's `chat`.
pub record Request : Type 0 where
  pub model : Text
  pub system : Text
  pub messages : List Message
  pub params : GenerationParams
  pub json_schema : Option Text

-- `_role(role, chat=True)` and `_params`: both want a token limit.
unfoldable pub params : Text → RoleSettings → Result GatewayError GenerationParams
params role cfg = elim cfg.max_output_tokens [
  | none ↦ err (plain (codes "role " ++ (role ++ codes " has no max_output_tokens")))
  | some n ↦ ok (record { max_output_tokens = n; temperature = cfg.temperature; seed = cfg.seed })
]

-- `_cached`: a hit is logged.
unfoldable pub hit_record : BackendSettings → CallContext → Cached → CallRecord
hit_record b ctx hit = record {
  role = ctx.role;
  backend = ctx.role_cfg.backend;
  provider = b.type;
  model = ctx.role_cfg.model;
  model_version_reported = none;
  operation = ctx.operation;
  prompt_id = some ctx.prompt_id;
  prompt_version = some ctx.prompt_version;
  params = [];
  request_sha256 = ctx.key;
  cache_key = ctx.key;
  cache_hit = true;
  attempt = 0;
  output = cached_output hit;
  input_tokens = none;
  output_tokens = none;
  latency_ms = 0;
  cost_estimate_usd = none;
  error = none;
}

abbrev pub log_hit : BackendSettings → CallContext → Option Cached → World → World
log_hit b ctx none w = w
log_hit b ctx (some hit) w = log_call (hit_record b ctx hit) w

unfoldable pub cached : BackendSettings → CallContext → World → Option Cached × World
unfolding get_cached log_call
cached b ctx w = let hit = get_cached ctx.key w in (hit, log_hit b ctx hit w)

-- A validation error of Pydantic: places with messages.
abbrev pub Problems : Type 0
Problems = List (List Text × Text)

abbrev pub place : List Text → Text
place [] = codes "<root>"
place (p ∷ ps) = join (codes ".") (p ∷ ps)

-- `_summarise`.
unfoldable pub summarise : Problems → Text
summarise problems =
    take 1000 (
      join (codes "; ") (map (λ (p : List Text × Text). place p.0 ++ (codes ": " ++ p.1)) problems))
