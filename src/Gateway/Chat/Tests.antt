-- ===== src/Gateway/Chat/Tests.antt =====
-- The gateway on a concrete provider that is overloaded once, answers badly once, and then well.
use patent_landscapes.Base.Dict.{get}
use patent_landscapes.Base.{
  ℕ, zero, suc, ◌+◌, ◌*◌, ◌≤◌, ◌≡◌, refl, true, false, none, some, List, [], ◌∷◌, if◌then◌else◌,
  nat_eq, length,
}
use patent_landscapes.Base.Text.{Text, codes, text_eq, text_beq, text_le}
use patent_landscapes.Base.Sort.{sorted}
use patent_landscapes.Base.Result.{Result, ok, err}
use patent_landscapes.Gateway.Model.{
  RoleSettings, BackendSettings, ChatResponse, Attempt, Outcome, reply, overloaded, World,
  CallContext, text_call,
}
use patent_landscapes.Gateway.Retry.{cost, attempt_record, backoff, with_retries}
use patent_landscapes.Gateway.Retry.Attempts.{Trace, with_retries-Trace}
use patent_landscapes.Gateway.Chat.{
  Gateway, StructuredResult, looked_up, structured, structured_from,
}
use patent_landscapes.Gateway.Prompt.{
  PromptTemplate, difference, format_map, literal, placeholder, placeholders,
}
use patent_landscapes.Gateway.Key.{Problems}
use patent_landscapes.Gateway.Chat.Requests.{
  Remembers, structured-calls, structured-Remembers, structured-again,
}

abbrev backend : BackendSettings
backend = record { type = codes "gemini"; base_url = none; region = none; max_retries = 2 }

abbrev role_cfg : RoleSettings
role_cfg = record {
  backend = codes "b";
  model = codes "m";
  max_output_tokens = some 100;
  temperature = none;
  seed = none;
  max_schema_retries = 1;
  input_price_per_mtok_usd = some 3;
  output_price_per_mtok_usd = some 5;
}

abbrev said : Text → ChatResponse
said t = record {
  text = t;
  input_tokens = some 2;
  output_tokens = some 1;
  model_reported = none;
  params_sent = [];
}

abbrev attempt : Outcome ChatResponse → Attempt ChatResponse
attempt o = record { outcome = o; latency_ms = 4 }

-- By the number of earlier calls.
abbrev answers : ℕ → Attempt ChatResponse
answers zero = attempt (overloaded (codes "429"))
answers (suc zero) = attempt (reply (said (codes "?")))
answers (suc (suc n)) = attempt (reply (said (codes "7")))

abbrev validate : Text → Result Problems ℕ
validate t = if text_beq t (codes "7") then ok 7 else err (([], codes "bad") ∷ [])

abbrev gateway : Gateway ℕ
gateway = record {
  role = codes "writer";
  role_cfg = role_cfg;
  backend = backend;
  sha256 = λ k. k.user;
  provider = λ request n. answers n;
  schema = codes "int";
  validate = validate;
}

abbrev prompt : PromptTemplate
prompt = record {
  id = codes "p";
  version = codes "1";
  sha256 = codes "h";
  system = literal (codes "Count.") ∷ [];
  user = literal (codes "Of ") ∷ placeholder (codes "x") ∷ [];
}

abbrev vars : List (Text × Text)
vars = (codes "x", codes "y") ∷ []

abbrev start : World
start = record { acquired = 0; calls = 0; slept = []; log = []; cache = [] }

abbrev after_structured : World
after_structured = (structured gateway true prompt vars start).1

abbrev paris_answer : StructuredResult ℕ
paris_answer = record {
  value = 7;
  from_cache = false;
  backend = gateway.role_cfg.backend;
  model = gateway.role_cfg.model;
  cache_key = codes "Of y";
}

-- Three calls: one retry after a second, one repair turn.
structured_runs :
    ((structured gateway true prompt vars start).0 ≡ ok paris_answer)
    × (after_structured.calls ≡ 3)
    × (after_structured.slept ≡ 1 ∷ [])
    × (length after_structured.log ≡ 4)
unfolding structured looked_up text_beq text_le sorted backoff cost attempt_record difference
    placeholders get structured_from with_retries format_map
structured_runs = (refl, refl, refl, refl)

abbrev retry_context : CallContext
retry_context = record {
  role = codes "writer";
  role_cfg = role_cfg;
  prompt_id = codes "p";
  prompt_version = codes "1";
  key = codes "k";
  operation = text_call;
}

with_retries-Trace_example :
    Trace backend retry_context answers 2 1 start (with_retries backend retry_context answers start)
with_retries-Trace_example = with_retries-Trace backend retry_context answers start

structured-calls_example : after_structured.calls ≤ 0 + (1 + 1) * (2 + 1)
structured-calls_example = structured-calls gateway true prompt vars start

structured-Remembers_example : Remembers gateway start (structured gateway true prompt vars start)
structured-Remembers_example = structured-Remembers gateway prompt vars start

structured-again_example :
    let (r, after) = structured gateway true prompt vars after_structured in
    (r
      ≡ ok (record {
        value = 7;
        from_cache = true;
        backend = gateway.role_cfg.backend;
        model = gateway.role_cfg.model;
        cache_key = codes "Of y";
      }))
    × (after.calls ≡ after_structured.calls)
    × (after.acquired ≡ after_structured.acquired)
    × (length after.log ≡ length after_structured.log + 1)
    × (after.cache ≡ after_structured.cache)
structured-again_example =
    structured-again gateway prompt vars start after_structured
      (λ i. (structured_runs.0 i, after_structured)) refl
