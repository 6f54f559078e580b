-- ===== src/Gateway/Chat/Requests.antt =====
-- `structured` as its callers see it: bounds on its calls, what it caches, and a repeated request.
use patent_landscapes.Base.{
  Option-cases, ◌∷◌, [], none, Option, false, ◌+◌, ◌*◌, ◌≤◌, ◌≡◌, refl, sym, ◌∙◌, ◌⊎◌, inl, inr,
  Bool, true, some, List, arith, nat_eq, length,
}
use patent_landscapes.Base.Text.{Text, text_eq}
use patent_landscapes.Base.Result.{Result, ok, err, Result-cases}
use patent_landscapes.Base.Dict.{get}
use patent_landscapes.Gateway.Model.{CallContext, json_entry, GatewayError, World}
use patent_landscapes.Gateway.Chat.{
  Cached, Gateway, StructuredResult, answer, context, looked_up, structured, structured_at,
  structured_call, user_message,
}
use patent_landscapes.Gateway.Prompt.{PromptTemplate, render}
use patent_landscapes.Gateway.Key.{chat_key, params}
use patent_landscapes.Gateway.Chat.Cache.{
  structured_from-calls, looked_up-hit, looked_up-miss, Answered, structured_at-Answered,
  structured_at-again,
}

module _ {V : Type 0} (g : Gateway V) where
  -- A request fails before it reads the cache, or is answered at its rendered prompt.
  structured-cases :
      (use_cache : Bool) (p : PromptTemplate) (vars : List (Text × Text))
      → ((x : GatewayError) × ((w : World) → structured g use_cache p vars w ≡ (err x, w)))
        ⊎ ((ctx : CallContext) × (system : Text) × (question : Text) × ((w : World)
              → structured g use_cache p vars w ≡ structured_at g use_cache ctx system question w))
  unfolding structured
  structured-cases use_cache p vars = elim (Result-cases (params g.role g.role_cfg)) [
    | inr (x, e) ↦ inl (x, λ w. rw (e, structured))
    | inl (q, e) ↦ elim (Result-cases (render p vars)) [
      | inr (x, e') ↦ inl (x, λ w. rw (e, e', structured))
      | inl (t, e') ↦ inr (
        context g p (g.sha256 (chat_key g.backend g.role_cfg p t.0 t.1 (some g.schema)))
            structured_call,
        t.0,
        t.1,
        λ w. rw (e, e', structured),
      )
    ]
  ]

  looked_up-calls :
      (use_cache : Bool) (ctx : CallContext) (w : World)
      → (looked_up g use_cache ctx w).1.calls ≡ w.calls
  looked_up-calls true ctx w = elim (Option-cases (get ctx.key w.cache)) [
    | inl e ↦ rw (looked_up-miss g ctx w e) refl
    | inr (entry, e) ↦ rw (looked_up-hit g ctx w entry e) refl
  ]
  looked_up-calls false ctx w = unfold looked_up in refl

  answer-calls :
      (ctx : CallContext) (system question : Text) (hit : Option Cached) (w : World)
      → (answer g ctx system question (hit, w)).1.calls
        ≤ w.calls + (g.role_cfg.max_schema_retries + 1) * (g.backend.max_retries + 1)
  answer-calls ctx system question (some entry) w = omega arith
  answer-calls ctx system question none w =
      structured_from-calls g (g.role_cfg.max_schema_retries + 1) ctx system
        (user_message g question ∷ []) [] w

  structured_at-calls :
      (use_cache : Bool) (ctx : CallContext) (system question : Text) (w : World)
      → (structured_at g use_cache ctx system question w).1.calls
        ≤ w.calls + (g.role_cfg.max_schema_retries + 1) * (g.backend.max_retries + 1)
  unfolding structured_at
  structured_at-calls use_cache ctx system question w =
      let found = looked_up g use_cache ctx w in
      omega
        (arith, looked_up-calls use_cache ctx w, answer-calls ctx system question found.0 found.1)

  -- A structured request sends at most (max_schema_retries + 1) * (max_retries + 1) requests to the
  -- provider, whatever the provider does.
  pub structured-calls :
      (use_cache : Bool) (p : PromptTemplate) (vars : List (Text × Text)) (w : World)
      → (structured g use_cache p vars w).1.calls
        ≤ w.calls + (g.role_cfg.max_schema_retries + 1) * (g.backend.max_retries + 1)
  structured-calls use_cache p vars w = elim (structured-cases use_cache p vars) [
    | inl (x, e) ↦ rw e (omega arith)
    | inr (ctx, system, question, e) ↦ rw e (structured_at-calls use_cache ctx system question w)
  ]

  -- What a structured request with the cache in use leaves there.
  abbrev pub Remembers : World → Result GatewayError (StructuredResult V) × World → Type 0
  Remembers w (err e, w') = w'.cache ≡ w.cache
  Remembers w (ok s, w') =
      (t : Text) × (get s.cache_key w'.cache ≡ some (json_entry t)) × (g.validate t ≡ ok s.value)

  Answered-Remembers :
      (ctx : CallContext) (w : World) (r : Result GatewayError (StructuredResult V) × World)
      → Answered g ctx w r
      → Remembers w r
  Answered-Remembers ctx w (err e, w') h = h
  Answered-Remembers ctx w (ok s, w') (t, there, valid, key) = (t, rw key there, valid)

  -- A structured request with the cache in use that returns leaves a response under its key that
  -- passes validation with the value that it returned; one with the cache in use that raises leaves
  -- the cache as it was.
  pub structured-Remembers :
      (p : PromptTemplate) (vars : List (Text × Text)) (w : World)
      → Remembers w (structured g true p vars w)
  structured-Remembers p vars w = elim (structured-cases true p vars) [
    | inl (x, e) ↦ rw e refl
    | inr (ctx, system, question, e) ↦
        rw e (Answered-Remembers ctx w _ (structured_at-Answered g ctx system question w))
  ]

  -- A structured request that was answered with the cache in use is answered again from any later
  -- world with the cache that it left: with the same value, marked as cached, without a provider
  -- call, a wait for the rate limiter or a change of the cache, and with one more record in the log.
  pub structured-again :
      (p : PromptTemplate) (vars : List (Text × Text)) (w later : World) {s : StructuredResult V}
      {w' : World}
      → structured g true p vars w ≡ (ok s, w')
      → later.cache ≡ w'.cache
      → let (r, after) = structured g true p vars later in
        (r
          ≡ ok (record {
            value = s.value;
            from_cache = true;
            backend = g.role_cfg.backend;
            model = g.role_cfg.model;
            cache_key = s.cache_key;
          }))
        × (after.calls ≡ later.calls)
        × (after.acquired ≡ later.acquired)
        × (length after.log ≡ length later.log + 1)
        × (after.cache ≡ later.cache)
  structured-again p vars w later {s} {w'} h same = elim (structured-cases true p vars) [
    | inl (x, e) ↦ absurd (cc (e w))
    | inr (ctx, system, question, e) ↦
        rw e (structured_at-again g ctx system question w later (sym (e w) ∙ h) same)
  ]
