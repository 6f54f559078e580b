-- ===== src/Audit/Chain.antt =====
-- What a verified chain promises.
use patent_landscapes.Base.Text.{text_eq}
use patent_landscapes.Base.{
  length-append, map, none, sym, ℕ, ◌+◌, ◌≡◌, refl, ap, ◌∙◌, ◌≢◌, ◌⊎◌, inl, inr, true, false, List,
  [], ◌∷◌, ◌++◌, arith, Bool-cases, nat_eq, length,
}
use patent_landscapes.Audit.{
  event_after, append_event, or_genesis, NewEvent, text_beq, Text, genesis_hash, Content,
  AuditEvent, ChainVerification, Reason, broken_link, modified, last_hash, verify_from,
  verify_chain, bad_event,
}

abbrev pub content_of : AuditEvent → Content
content_of e = e.content

module _ (event_hash : Content → Text) where
  -- Each event links to the one before it and has the hash of its content.
  abbrev pub IsChain : Text → List AuditEvent → Type 0
  IsChain prev [] = Unit
  IsChain prev (e ∷ events) =
      (e.content.prev_hash ≡ prev) × (event_hash e.content ≡ e.hash) × IsChain e.hash events

  -- The first event that breaks the chain: those before it are a chain, and it is wrong for the
  -- reason.
  abbrev pub IsWrong : Text → AuditEvent → Reason → Type 0
  IsWrong prev e broken_link = e.content.prev_hash ≢ prev
  IsWrong prev e modified = (e.content.prev_hash ≡ prev) × (event_hash e.content ≢ e.hash)

  abbrev pub IsVerdict : Text → ℕ → List AuditEvent → ChainVerification → Type 0
  IsVerdict prev checked events v =
      ((v.verified ≡ true) × (v.events_checked ≡ checked + length events) × IsChain prev events)
      ⊎ ((before : List AuditEvent) × (e : AuditEvent) × (after : List AuditEvent)
          × (reason : Reason) × (events ≡ before ++ e ∷ after)
          × IsChain prev before
          × IsWrong (last_hash prev before) e reason
          × (v ≡ bad_event event_hash (checked + length before + 1) e reason))

  beq_false : (s t : Text) → text_beq s t ≡ false → s ≢ t
  beq_false s t h q = let k = (text_eq.beq_iff s t).1 q in cc

  verify_from-IsVerdict :
      (prev : Text) (checked : ℕ) (events : List AuditEvent)
      → IsVerdict prev checked events (verify_from event_hash prev checked events)
  unfolding verify_from last_hash
  verify_from-IsVerdict prev checked [] = inl (refl, omega arith, tt)
  verify_from-IsVerdict prev checked (e ∷ events) =
      elim (Bool-cases (text_beq e.content.prev_hash prev)) [
        | inr p ↦ rw p (
            inr (
              [],
              e,
              events,
              broken_link,
              refl,
              tt,
              beq_false e.content.prev_hash prev p,
              ap (λ n. bad_event event_hash n e broken_link) (omega arith),
            ))
        | inl p ↦
            let linked = (text_eq.beq_iff e.content.prev_hash prev).0 p in
            elim (Bool-cases (text_beq (event_hash e.content) e.hash)) [
              | inr q ↦
                  rw (p, q)
                    (inr (
                      [],
                      e,
                      events,
                      modified,
                      refl,
                      tt,
                      (linked, beq_false (event_hash e.content) e.hash q),
                      ap (λ n. bad_event event_hash n e modified) (omega arith),
                    ))
              | inl q ↦
                  rw (p, q)
                    (extend linked ((text_eq.beq_iff (event_hash e.content) e.hash).0 q)
                      (verify_from event_hash e.hash (checked + 1) events)
                      (verify_from-IsVerdict e.hash (checked + 1) events))
            ]
      ]
    where
      extend :
          e.content.prev_hash ≡ prev
          → event_hash e.content ≡ e.hash
          → (v : ChainVerification) → IsVerdict e.hash (checked + 1) events v
          → IsVerdict prev checked (e ∷ events) v
      extend linked hashed v (inl (yes_, count, chain)) =
          inl (yes_, count ∙ omega arith, (linked, hashed, chain))
      extend linked hashed v (inr (before, f, after, reason, split, chain, wrong, verdict)) = inr (
        e ∷ before,
        f,
        after,
        reason,
        ap (λ es. e ∷ es) split,
        (linked, hashed, chain),
        wrong,
        verdict ∙ ap (λ n. bad_event event_hash n f reason) (omega arith),
      )

  -- A chain is verified exactly if every event links to the hash before it, the first to the genesis
  -- hash, and has the hash of its content, and then all events are counted; otherwise the verdict
  -- names the first event that is wrong, after a chain of right ones, with what is wrong of it.
  pub verify_chain-IsVerdict :
      (events : List AuditEvent) → IsVerdict genesis_hash 0 events (verify_chain event_hash events)
  unfolding verify_chain
  verify_chain-IsVerdict events = verify_from-IsVerdict genesis_hash 0 events

  abbrev pub good : ℕ → ChainVerification
  good checked = record {
    verified = true;
    events_checked = checked;
    first_bad_seq = none;
    reason = none;
  }

  chain-verified :
      (prev : Text) (checked : ℕ) (events : List AuditEvent)
      → IsChain prev events
      → verify_from event_hash prev checked events ≡ good (checked + length events)
  unfolding verify_from
  chain-verified prev checked [] h = ap good (omega arith)
  chain-verified prev checked (e ∷ events) (linked, hashed, chain) =
      rw
        (
          (text_eq.beq_iff e.content.prev_hash prev).1 linked,
          (text_eq.beq_iff (event_hash e.content) e.hash).1 hashed,
        )
        (chain-verified e.hash (checked + 1) events chain ∙ ap good (omega arith))

  verified-IsChain :
      (prev : Text) (checked : ℕ) (events : List AuditEvent)
      → (verify_from event_hash prev checked events).verified ≡ true
      → IsChain prev events
  verified-IsChain prev checked events h = elim (verify_from-IsVerdict prev checked events) [
    | inl (yes_, count, chain) ↦ chain
    | inr (before, f, after, reason, split, chain, wrong, verdict) ↦
        (let no_ = sym h ∙ ap (λ (v : ChainVerification). v.verified) verdict in absurd (cc))
  ]

  IsChain-snoc :
      (prev : Text) (events : List AuditEvent) (seq : ℕ) (e : NewEvent)
      → IsChain prev events
      → IsChain prev (events ++ event_after event_hash seq (last_hash prev events) e ∷ [])
  unfolding last_hash
  IsChain-snoc prev [] seq e h = (refl, refl, tt)
  IsChain-snoc prev (f ∷ events) seq e (linked, hashed, chain) =
      (linked, hashed, IsChain-snoc f.hash events seq e chain)

  or_genesis-last_hash :
      ((c : Content) → event_hash c ≢ [])
      → (h : Text) (prev : Text) (events : List AuditEvent) → h ≢ []
      → IsChain prev events
      → or_genesis (last_hash h events) ≡ last_hash h events
  unfolding last_hash
  or_genesis-last_hash nonempty [] prev [] some_ chain = absurd (some_ refl)
  or_genesis-last_hash nonempty (c ∷ h) prev [] some_ chain = refl
  or_genesis-last_hash nonempty h prev (e ∷ events) some_ (linked, hashed, chain) =
      or_genesis-last_hash nonempty e.hash e.hash events (λ q. nonempty e.content (hashed ∙ q))
        chain

  last_hash-genesis :
      ((c : Content) → event_hash c ≢ [])
      → (events : List AuditEvent) → IsChain genesis_hash events
      → or_genesis (last_hash [] events) ≡ last_hash genesis_hash events
  unfolding last_hash
  last_hash-genesis nonempty [] chain = refl
  last_hash-genesis nonempty (e ∷ events) (linked, hashed, chain) =
      or_genesis-last_hash nonempty e.hash e.hash events (λ q. nonempty e.content (hashed ∙ q))
        chain

  -- Appending an event to a chain that is verified gives a chain that is verified, with one event
  -- more, for a hash that is never the empty text.
  pub append_event-verified :
      ((c : Content) → event_hash c ≢ [])
      → (seq : ℕ) (e : NewEvent) (events : List AuditEvent)
      → (verify_chain event_hash events).verified ≡ true
      → verify_chain event_hash (append_event event_hash seq e events) ≡ good (length events + 1)
  unfolding verify_chain append_event
  append_event-verified nonempty seq e events h =
      let chain = verified-IsChain genesis_hash 0 events h in
      rw (last_hash-genesis nonempty events chain) (
        chain-verified genesis_hash 0
          (events ++ event_after event_hash seq (last_hash genesis_hash events) e ∷ [])
          (IsChain-snoc genesis_hash events seq e chain)
        ∙ ap good (
            omega (
              arith,
              length-append events
                  (event_after event_hash seq (last_hash genesis_hash events) e ∷ []),
            )))

  same_contents :
      ((c d : Content) → event_hash c ≡ event_hash d → c ≡ d)
      → (prev prev' : Text) (xs ys : List AuditEvent) → length xs ≡ length ys
      → IsChain prev xs
      → IsChain prev' ys
      → last_hash prev xs ≡ last_hash prev' ys
      → (map content_of xs ≡ map content_of ys) × (prev ≡ prev')
  unfolding last_hash
  same_contents injective prev prev' [] [] n h k q = (refl, q)
  same_contents injective prev prev' [] (y ∷ ys) n h k q = absurd (omega arith)
  same_contents injective prev prev' (x ∷ xs) [] n h k q = absurd (omega arith)
  same_contents injective prev prev' (x ∷ xs) (y ∷ ys) n (linked, hashed, chain)
        (linked', hashed', chain') q =
      let (rest, hashes) =
        same_contents injective x.hash y.hash xs ys (omega arith) chain chain' q in
      let same = injective x.content y.content (hashed ∙ hashes ∙ sym hashed') in
      (cc, sym linked ∙ ap (λ (c : Content). c.prev_hash) same ∙ linked')

  -- With a hash that no two contents share, two chains that are verified, have as many events and
  -- end in the same hash have the same contents in the same order: no event before the last was
  -- changed, removed, inserted or moved.
  pub verify_chain-injective :
      ((c d : Content) → event_hash c ≡ event_hash d → c ≡ d)
      → (xs ys : List AuditEvent) → (verify_chain event_hash xs).verified ≡ true
      → (verify_chain event_hash ys).verified ≡ true
      → length xs ≡ length ys
      → last_hash genesis_hash xs ≡ last_hash genesis_hash ys
      → map content_of xs ≡ map content_of ys
  unfolding verify_chain
  verify_chain-injective injective xs ys h k n q =
      (same_contents injective genesis_hash genesis_hash xs ys n
        (verified-IsChain genesis_hash 0 xs h) (verified-IsChain genesis_hash 0 ys k) q).0
