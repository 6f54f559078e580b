-- ===== src/Audit/Tests.antt =====
-- A chain of three events under a hash that spells the content out, with the length before each
-- text, and the same chain after a change and without an event.
use patent_landscapes.Base.Text.{text_beq, codes}
use patent_landscapes.Base.{
  ◌+◌, ◌≡◌, refl, ◌≢◌, true, false, Option, none, some, List, [], ◌∷◌, ◌++◌, map, arith, nat_eq,
  length, drop,
}
use patent_landscapes.Audit.{
  Text, Content, AuditEvent, NewEvent, append_event, verify_chain, genesis_hash, modified,
  broken_link,
}
use patent_landscapes.Audit.Chain.{
  verify_chain-IsVerdict, append_event-verified, verify_chain-injective, IsVerdict, good,
  content_of,
}

abbrev spelled : List Text → Text
spelled [] = []
spelled (t ∷ ts) = length t ∷ (t ++ spelled ts)

abbrev run_text : Option Text → Text
run_text none = []
run_text (some t) = 1 ∷ t

abbrev texts : Content → List Text
texts c =
    c.prev_hash
    ∷ run_text c.run_id
    ∷ (c.occurred_at ∷ [])
    ∷ c.step
    ∷ c.event_type
    ∷ c.actor
    ∷ c.payload
    ∷ []

abbrev spell : Content → Text
spell c = spelled (texts c)

append-cancel : (s t p q : Text) → length s ≡ length t → s ++ p ≡ t ++ q → (s ≡ t) × (p ≡ q)
append-cancel [] [] p q n h = (refl, h)
append-cancel [] (c ∷ t) p q n h = absurd (omega arith)
append-cancel (c ∷ s) [] p q n h = absurd (omega arith)
append-cancel (c ∷ s) (d ∷ t) p q n h =
    let heads : c ≡ d = cc in
    let tails : s ++ p ≡ t ++ q = cc in
    let (a, b) = append-cancel s t p q (omega arith) tails in (cc, b)

spelled-injective : (xs ys : List Text) → length xs ≡ length ys → spelled xs ≡ spelled ys → xs ≡ ys
spelled-injective [] [] n h = refl
spelled-injective [] (y ∷ ys) n h = absurd (omega arith)
spelled-injective (x ∷ xs) [] n h = absurd (omega arith)
spelled-injective (x ∷ xs) (y ∷ ys) n h =
    let lengths : length x ≡ length y = cc in
    let rests : x ++ spelled xs ≡ y ++ spelled ys = cc in
    let (a, b) = append-cancel x y (spelled xs) (spelled ys) lengths rests in
    let c = spelled-injective xs ys (omega arith) b in cc

run_text-injective : (a b : Option Text) → run_text a ≡ run_text b → a ≡ b
run_text-injective none none h = refl
run_text-injective none (some t) h = cc
run_text-injective (some s) none h = cc
run_text-injective (some s) (some t) h = cc

texts-injective : (c d : Content) → texts c ≡ texts d → c ≡ d
texts-injective c d h = let r = run_text-injective c.run_id d.run_id (cc) in cc

spell-injective : (c d : Content) → spell c ≡ spell d → c ≡ d
spell-injective c d h = texts-injective c d (spelled-injective (texts c) (texts d) refl h)

spell-nonempty : (c : Content) → spell c ≢ []
spell-nonempty c h = cc

abbrev new_event : Text → NewEvent
new_event payload = record {
  run_id = none;
  occurred_at = 3;
  step = codes "s";
  event_type = codes "t";
  actor = codes "a";
  payload = payload;
}

abbrev two_events : List AuditEvent
two_events =
    append_event spell 2 (new_event (codes "{2}"))
      (append_event spell 1 (new_event (codes "{1}")) [])

two_events_lem : (verify_chain spell two_events).verified ≡ true
unfolding verify_chain append_event text_beq
two_events_lem = refl

abbrev altered : List AuditEvent → List AuditEvent
altered [] = []
altered (e ∷ events) = record e { content = record (e.content) { payload = codes "{0}" } } ∷ events

altered_lem : verify_chain spell (altered two_events) ≡ record {
  verified = false;
  events_checked = 1;
  first_bad_seq = some 1;
  reason = some modified;
}
unfolding verify_chain append_event text_beq
altered_lem = refl

removed_lem : verify_chain spell (drop 1 two_events) ≡ record {
  verified = false;
  events_checked = 1;
  first_bad_seq = some 2;
  reason = some broken_link;
}
unfolding verify_chain append_event text_beq
removed_lem = refl

verify_chain-IsVerdict_example :
    IsVerdict spell genesis_hash 0 (altered two_events) (verify_chain spell (altered two_events))
verify_chain-IsVerdict_example = verify_chain-IsVerdict spell (altered two_events)

append_event-verified_example :
    verify_chain spell (append_event spell 3 (new_event []) two_events)
    ≡ good spell (length two_events + 1)
append_event-verified_example =
    append_event-verified spell spell-nonempty 3 (new_event []) two_events two_events_lem

verify_chain-injective_example : map content_of two_events ≡ map content_of two_events
verify_chain-injective_example =
    verify_chain-injective spell spell-injective two_events two_events two_events_lem two_events_lem
      refl refl
