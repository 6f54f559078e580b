-- ===== src/Gateway/Chat/Cache.antt =====
-- What `structured` leaves in the response cache, how often it calls the provider, and what a
-- repeated call returns.
use patent_landscapes.Base.{
  sym, length-append, length, Option-cases, ◌∷◌, [], subst, ◌++◌, none, true, ◌∙◌, ◌*◌, ap, some,
  inr, inl, ℕ, zero, suc, ◌+◌, ◌≤◌, ◌≡◌, refl, false, Option, List, arith, nat_eq,
}
use patent_landscapes.Base.Text.{Text, text_eq}
use patent_landscapes.Base.Result.{Result-cases, Result, ok, err}
use patent_landscapes.Base.Dict.{get-set_default, get, set_default}
use patent_landscapes.Gateway.Model.{
  CallContext, Message, ChatResponse, json_entry, GatewayError, World, BackendSettings, Attempt,
}
use patent_landscapes.Gateway.Retry.{with_retries}
use patent_landscapes.Gateway.Retry.Attempts.{with_retries-Trace}
use patent_landscapes.Gateway.Chat.{
  Cached, Gateway, StructuredResult, chat, failed_text, log_attempt, looked_up, repair,
  structured_at, structured_from, text_entry, user_message,
}
use patent_landscapes.Gateway.Key.{hit_record, params, summarise}

-- The retry loop leaves the cache alone, and calls at most `max_retries + 1` times.
with_retries-keeps :
    (b : BackendSettings) (ctx : CallContext) (call : ℕ → Attempt ChatResponse) (w : World)
    → let w' = (with_retries b ctx call w).1 in
      (w'.cache ≡ w.cache) × (w'.calls ≤ w.calls + (b.max_retries + 1))
with_retries-keeps b ctx call w =
    let (k, le, before, last, eq) = with_retries-Trace b ctx call w in rw eq (refl, omega arith)

module _ {V : Type 0} (g : Gateway V) where
  chat-keeps :
      (ctx : CallContext) (system : Text) (messages : List Message) (spec : Option Text) (w : World)
      → let w' = (chat g ctx system messages spec w).1 in
        (w'.cache ≡ w.cache) × (w'.calls ≤ w.calls + (g.backend.max_retries + 1))
  unfolding chat
  chat-keeps ctx system messages spec w = elim (Result-cases (params g.role g.role_cfg)) [
    | inl (p, e) ↦ rw (e, chat) (with_retries-keeps g.backend ctx _ w)
    | inr (m, e) ↦ rw (e, chat) (refl, omega arith)
  ]

  -- What a run of the loop of `structured` has done to the cache, by how it ended: nothing if it
  -- raised; if it returned, the response that it stored is one that passed validation.
  abbrev pub Stores :
      CallContext → World → Result GatewayError (StructuredResult V) × World → Type 0
  Stores ctx w (err e, w') = w'.cache ≡ w.cache
  Stores ctx w (ok s, w') =
      (t : Text) × (g.validate t ≡ ok s.value)
      × (s ≡ record {
        value = s.value;
        from_cache = false;
        backend = g.role_cfg.backend;
        model = g.role_cfg.model;
        cache_key = ctx.key;
      })
      × (w'.cache ≡ set_default ctx.key (json_entry t) w.cache)

  Stores-cache :
      (ctx : CallContext) (w1 w : World) (r : Result GatewayError (StructuredResult V) × World)
      → w1.cache ≡ w.cache
      → Stores ctx w1 r
      → Stores ctx w r
  Stores-cache ctx w1 w (err e, w') same h = h ∙ same
  Stores-cache ctx w1 w (ok s, w') same (t, valid, shape, stored) =
      (t, valid, shape, stored ∙ ap (set_default ctx.key (json_entry t)) same)

  pub structured_from-Stores :
      (rounds : ℕ) (ctx : CallContext) (system : Text) (messages : List Message) (last_error : Text)
      (w : World)
      → Stores ctx w (structured_from g rounds ctx system messages last_error w)
  unfolding structured_from
  structured_from-Stores zero ctx system messages last_error w = refl
  structured_from-Stores (suc rounds) ctx system messages last_error w =
      let m = chat g ctx system messages (some g.schema) w in
      let kept = (chat-keeps ctx system messages (some g.schema) w).0 in
      elim (Result-cases m.0) [
        | inr (x, e) ↦ rw (e, structured_from) kept
        | inl (response, e) ↦ elim (Result-cases (g.validate response.text)) [
          | inl (v, valid) ↦
              rw (e, valid, structured_from)
                (
                  response.text,
                  valid,
                  refl,
                  ap (set_default ctx.key (json_entry response.text)) kept,
                )
          | inr (problems, invalid) ↦
              let failed : World =
                log_attempt g.backend ctx 0 (some response) 0
                  (some (failed_text g (summarise problems))) m.1 in
              rw (e, invalid, structured_from)
                (Stores-cache ctx failed w _ kept (
                  structured_from-Stores rounds ctx system
                    (messages ++ repair g response.text (summarise problems)) (summarise problems)
                    failed))
        ]
      ]

  pub structured_from-calls :
      (rounds : ℕ) (ctx : CallContext) (system : Text) (messages : List Message) (last_error : Text)
      (w : World)
      → (structured_from g rounds ctx system messages last_error w).1.calls
        ≤ w.calls + rounds * (g.backend.max_retries + 1)
  unfolding structured_from
  structured_from-calls zero ctx system messages last_error w = omega arith
  structured_from-calls (suc rounds) ctx system messages last_error w =
      let m = chat g ctx system messages (some g.schema) w in
      let made = (chat-keeps ctx system messages (some g.schema) w).1 in
      elim (Result-cases m.0) [
        | inr (x, e) ↦ rw (e, structured_from) (omega arith)
        | inl (response, e) ↦ elim (Result-cases (g.validate response.text)) [
          | inl (v, valid) ↦ rw (e, valid, structured_from) (omega arith)
          | inr (problems, invalid) ↦
              rw (e, invalid, structured_from)
                (omega (
                  arith,
                  structured_from-calls rounds ctx system
                      (messages ++ repair g response.text (summarise problems)) (summarise problems)
                      (log_attempt g.backend ctx 0 (some response) 0
                        (some (failed_text g (summarise problems))) m.1),
                ))
        ]
      ]

  -- Every response that is cached under the key of this request passes its validation.
  abbrev pub CacheIsValid : Text → World → Type 0
  CacheIsValid key w =
      (entry : Cached)
      → get key w.cache ≡ some entry
      → (t : Text) × (v : V) × (entry ≡ json_entry t) × (g.validate t ≡ ok v)

  -- What a call of `structured` that returned tells of the cache.
  abbrev pub Answered :
      CallContext → World → Result GatewayError (StructuredResult V) × World → Type 0
  Answered ctx w (err e, w') = w'.cache ≡ w.cache
  Answered ctx w (ok s, w') =
      (t : Text) × (get ctx.key w'.cache ≡ some (json_entry t))
      × (g.validate t ≡ ok s.value)
      × (s.cache_key ≡ ctx.key)

  Stores-Answered :
      (ctx : CallContext) (w : World) (r : Result GatewayError (StructuredResult V) × World)
      → get ctx.key w.cache ≡ none
      → Stores ctx w r
      → Answered ctx w r
  Stores-Answered ctx w (err e, w') none_yet h = h
  Stores-Answered ctx w (ok s, w') none_yet (t, valid, shape, stored) = (
    t,
    rw (stored, get-set_default, none_yet, (text_eq.beq_iff ctx.key ctx.key).1 refl),
    valid,
    ap (λ (x : StructuredResult V). x.cache_key) shape,
  )

  pub looked_up-miss :
      (ctx : CallContext) (w : World)
      → get ctx.key w.cache ≡ none
      → looked_up g true ctx w ≡ (none, w)
  unfolding looked_up
  looked_up-miss ctx w e = ground arith

  pub looked_up-hit :
      (ctx : CallContext) (w : World) (entry : Cached)
      → get ctx.key w.cache ≡ some entry
      → looked_up g true ctx w
        ≡ (some entry, record w { log = w.log ++ hit_record g.backend ctx entry ∷ [] })
  unfolding looked_up
  looked_up-hit ctx w entry e = ground arith

  -- A request that is answered with the cache in use, from the cache or by the provider, leaves
  -- its answer in the cache, as a text that passes validation; one that fails leaves the cache as
  -- it was.
  pub structured_at-Answered :
      (ctx : CallContext) (system question : Text) (w : World)
      → Answered ctx w (structured_at g true ctx system question w)
  unfolding structured_at
  structured_at-Answered ctx system question w = elim (Option-cases (get ctx.key w.cache)) [
    | inl e ↦ rw (looked_up-miss ctx w e) (
        Stores-Answered ctx w _ e (
          structured_from-Stores (g.role_cfg.max_schema_retries + 1) ctx system
            (user_message g question ∷ []) [] w))
    | inr (text_entry t, e) ↦ rw (looked_up-hit ctx w (text_entry t) e) refl
    | inr (json_entry t, e) ↦ elim (Result-cases (g.validate t)) [
      | inl (v, valid) ↦ rw (looked_up-hit ctx w (json_entry t) e, valid) (t, e, valid, refl)
      | inr (problems, invalid) ↦ rw (looked_up-hit ctx w (json_entry t) e, invalid) refl
    ]
  ]

  -- A request that was answered with the cache in use is answered again from a cache that still is
  -- the one it left: with the same value, marked as cached, without a provider call or a wait, and
  -- with one more record in the log.
  pub structured_at-again :
      (ctx : CallContext) (system question : Text) (w later : World) {s : StructuredResult V}
      {w' : World}
      → structured_at g true ctx system question w ≡ (ok s, w')
      → later.cache ≡ w'.cache
      → ((structured_at g true ctx system question later).0
          ≡ ok (record {
            value = s.value;
            from_cache = true;
            backend = g.role_cfg.backend;
            model = g.role_cfg.model;
            cache_key = s.cache_key;
          }))
        × ((structured_at g true ctx system question later).1.calls ≡ later.calls)
        × ((structured_at g true ctx system question later).1.acquired ≡ later.acquired)
        × (length (structured_at g true ctx system question later).1.log ≡ length later.log + 1)
        × ((structured_at g true ctx system question later).1.cache ≡ later.cache)
  unfolding structured_at
  structured_at-again ctx system question w later {s} {w'} h same =
      let (t, there, valid, key) =
        subst (Answered ctx w) h (structured_at-Answered ctx system question w) in
      let found : get ctx.key later.cache ≡ some (json_entry t) = rw same there in
      rw (looked_up-hit ctx later (json_entry t) found, valid)
        (
          ap
              (λ (k : Text). ok (record {
                value = s.value;
                from_cache = true;
                backend = g.role_cfg.backend;
                model = g.role_cfg.model;
                cache_key = k;
              }))
              (sym key),
          refl,
          refl,
          length-append later.log (hit_record g.backend ctx (json_entry t) ∷ []),
          refl,
        )
