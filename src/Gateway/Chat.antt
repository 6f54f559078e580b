-- ===== src/Gateway/Chat.antt =====
-- `_chat`, `text` and `structured` of src/patsquire_plr/gateway/gateway.py. Parameters are the hash of
-- a cache key (`canonical_sha256`), the output schema with its validation (Pydantic), and the
-- provider.
pub mod Cache
pub mod Requests
pub mod Tests
use patent_landscapes.Base.{
  ℕ, zero, suc, ◌+◌, Bool, true, false, not, Option, none, some, List, [], ◌∷◌, ◌++◌, nat_eq,
}
use patent_landscapes.Base.Text.{Text, codes, text_eq}
use patent_landscapes.Base.Result.{Result, ok, err}
use patent_landscapes.Base.Dict
use patent_landscapes.Gateway.Model.{
  RoleSettings, BackendSettings, Message, user, assistant, CallContext, ChatResponse, Cached,
  text_entry, json_entry, Operation, text_call, structured_call, Attempt, GatewayError,
  structured_output, plain, World, Exec, put_cached,
}
use patent_landscapes.Gateway.Retry.{log_attempt, with_retries}
use patent_landscapes.Gateway.Prompt.{PromptTemplate, render}
use patent_landscapes.Gateway.Key.{ChatKey, Problems, Request, cached, chat_key, params, summarise}

pub record TextResult : Type 0 where
  pub text : Text
  pub from_cache : Bool
  pub backend : Text
  pub model : Text

pub record StructuredResult (V : Type 0) : Type 0 where
  pub value : V
  pub from_cache : Bool
  pub backend : Text
  pub model : Text
  pub cache_key : Text

-- The gateway at one role: its settings, and what it does not implement itself.
pub record Gateway (V : Type 0) : Type 0 where
  pub role : Text
  pub role_cfg : RoleSettings
  pub backend : BackendSettings
  pub sha256 : ChatKey → Text
  pub provider : Request → ℕ → Attempt ChatResponse
  pub schema : Text
  pub validate : Text → Result Problems V

module _ {V : Type 0} (g : Gateway V) where
  unfoldable pub chat : CallContext → Text → List Message → Option Text → Exec ChatResponse
  unfolding params
  chat ctx system messages spec w = elim (params g.role g.role_cfg) [
    | err e ↦ (err e, w)
    | ok p ↦
        with_retries g.backend ctx
          (g.provider (record {
            model = g.role_cfg.model;
            system = system;
            messages = messages;
            params = p;
            json_schema = spec;
          }))
          w
  ]

  abbrev pub context : PromptTemplate → Text → Operation → CallContext
  context p key operation = record {
    role = g.role;
    role_cfg = g.role_cfg;
    prompt_id = p.id;
    prompt_version = p.version;
    key = key;
    operation = operation;
  }

  abbrev pub user_message : Text → Message
  user_message content = record { role = user; content = content }

  -- `str(cached["text"])` and `str(cached["json"])`; a missing field is a `KeyError`.
  abbrev pub as_text : Cached → Result GatewayError TextResult
  as_text (text_entry t) = ok (record {
    text = t;
    from_cache = true;
    backend = g.role_cfg.backend;
    model = g.role_cfg.model;
  })
  as_text (json_entry t) = err (plain (codes "KeyError: text"))

  unfoldable pub text : PromptTemplate → List (Text × Text) → Exec TextResult
  unfolding params render chat_key cached chat put_cached
  text p vars w = elim (params g.role g.role_cfg) [
    | err e ↦ (err e, w)
    | ok _ ↦ elim (render p vars) [
      | err e ↦ (err e, w)
      | ok (system, question) ↦
          let key = g.sha256 (chat_key g.backend g.role_cfg p system question none) in
          let ctx = context p key text_call in
          let (hit, w') = cached g.backend ctx w in
          elim hit [
            | some entry ↦ (as_text entry, w')
            | none ↦
                let (r, w'') = chat ctx system (user_message question ∷ []) none w' in
                elim r [
                  | err e ↦ (err e, w'')
                  | ok response ↦ (
                    ok (record {
                      text = response.text;
                      from_cache = false;
                      backend = g.role_cfg.backend;
                      model = g.role_cfg.model;
                    }),
                    put_cached key (text_entry response.text) w'',
                  )
                ]
          ]
    ]
  ]

  -- The turns that ask the model to repair its reply.
  abbrev pub repair : Text → Text → List Message
  repair reply_text last_error =
      record { role = assistant; content = reply_text }
      ∷ user_message (
          codes "Your previous reply did not match the required JSON schema: "
          ++ (last_error ++ codes ". Reply again with only JSON that matches the schema."))
      ∷ []

  abbrev pub failed_text : Text → Text
  failed_text last_error = codes "schema validation failed: " ++ last_error

  -- The loop of `structured`; `rounds` counts what is left of `range(max_schema_retries + 1)`.
  unfoldable pub structured_from :
      ℕ → CallContext → Text → List Message → Text → Exec (StructuredResult V)
  unfolding chat put_cached log_attempt summarise
  structured_from zero ctx system messages last_error w = (
    err (
        structured_output g.role g.role_cfg.backend g.role_cfg.model
          (g.role_cfg.max_schema_retries + 1) last_error),
    w,
  )
  structured_from (suc rounds) ctx system messages last_error w =
      let (r, w') = chat ctx system messages (some g.schema) w in
      elim r [
        | err e ↦ (err e, w')
        | ok response ↦ elim (g.validate response.text) [
          | ok v ↦ (
            ok (record {
              value = v;
              from_cache = false;
              backend = g.role_cfg.backend;
              model = g.role_cfg.model;
              cache_key = ctx.key;
            }),
            put_cached ctx.key (json_entry response.text) w',
          )
          | err problems ↦
              let e = summarise problems in
              structured_from rounds ctx system (messages ++ repair response.text e) e
                (log_attempt g.backend ctx 0 (some response) 0 (some (failed_text e)) w')
        ]
      ]

  abbrev pub validated : Text → Result Problems V → Result GatewayError (StructuredResult V)
  validated key (ok v) = ok (record {
    value = v;
    from_cache = true;
    backend = g.role_cfg.backend;
    model = g.role_cfg.model;
    cache_key = key;
  })
  validated key (err problems) = err (plain (codes "ValidationError"))

  abbrev pub as_structured : Text → Cached → Result GatewayError (StructuredResult V)
  as_structured key (json_entry t) = validated key (g.validate t)
  as_structured key (text_entry t) = err (plain (codes "KeyError: json"))

  -- `if use_cache`.
  unfoldable pub looked_up : Bool → CallContext → World → Option Cached × World
  unfolding cached
  looked_up true ctx w = cached g.backend ctx w
  looked_up false ctx w = (none, w)

  abbrev pub answer :
      CallContext
      → Text
      → Text
      → Option Cached × World
      → Result GatewayError (StructuredResult V) × World
  answer ctx system question (some entry, w) = (as_structured ctx.key entry, w)
  answer ctx system question (none, w) =
      structured_from (g.role_cfg.max_schema_retries + 1) ctx system (user_message question ∷ []) []
        w

  -- `structured` at a rendered prompt, with its key.
  unfoldable pub structured_at : Bool → CallContext → Text → Text → Exec (StructuredResult V)
  structured_at use_cache ctx system question w =
      answer ctx system question (looked_up use_cache ctx w)

  unfoldable pub structured : Bool → PromptTemplate → List (Text × Text) → Exec (StructuredResult V)
  unfolding params render chat_key structured_at
  structured use_cache p vars w = elim (params g.role g.role_cfg) [
    | err e ↦ (err e, w)
    | ok _ ↦ elim (render p vars) [
      | err e ↦ (err e, w)
      | ok (system, question) ↦
          structured_at use_cache
            (context p (g.sha256 (chat_key g.backend g.role_cfg p system question (some g.schema)))
              structured_call)
            system question w
    ]
  ]
