-- ===== src/Audit.antt =====
-- The hash chain of src/patsquire_plr/db/audit.py. Events are listed by their sequence numbers, which
-- the database gives out; a moment is its instant as a number, a payload its canonical JSON. The
-- hash of an event's content (`canonical_json`, then SHA-256) is a parameter.
use patent_landscapes.Base.Text.{text_beq, Text}
use patent_landscapes.Base.{
  ℕ, zero, suc, ◌+◌, Bool, true, false, not, Option, none, some, List, [], ◌∷◌, ◌++◌, if◌then◌else◌,
  nat_eq,
}
pub mod Chain
pub mod Tests

abbrev zeros : ℕ → Text
zeros zero = []
zeros (suc n) = b'0' ∷ zeros n

-- `GENESIS_HASH`.
abbrev pub genesis_hash : Text
genesis_hash = zeros 64

-- What `event_hash` hashes.
pub record Content : Type 0 where
  pub prev_hash : Text
  pub run_id : Option Text
  pub occurred_at : ℕ
  pub step : Text
  pub event_type : Text
  pub actor : Text
  pub payload : Text

pub record AuditEvent : Type 0 where
  pub seq : ℕ
  pub content : Content
  pub hash : Text

pub data Reason : Type 0 where
  broken_link modified : Reason

pub record ChainVerification : Type 0 where
  pub verified : Bool
  pub events_checked : ℕ
  pub first_bad_seq : Option ℕ
  pub reason : Option Reason

-- `last_hash or GENESIS_HASH`: an empty text counts as none.
abbrev pub or_genesis : Text → Text
or_genesis [] = genesis_hash
or_genesis (c ∷ s) = c ∷ s

-- The hash of the event with the greatest sequence number, or the given one.
unfoldable pub last_hash : Text → List AuditEvent → Text
last_hash h [] = h
last_hash h (e ∷ events) = last_hash e.hash events

-- An event as `append_event` is given it, without the link.
pub record NewEvent : Type 0 where
  pub run_id : Option Text
  pub occurred_at : ℕ
  pub step : Text
  pub event_type : Text
  pub actor : Text
  pub payload : Text

abbrev pub content_after : Text → NewEvent → Content
content_after prev_hash e = record {
  prev_hash = prev_hash;
  run_id = e.run_id;
  occurred_at = e.occurred_at;
  step = e.step;
  event_type = e.event_type;
  actor = e.actor;
  payload = e.payload;
}

module _ (event_hash : Content → Text) where
  abbrev pub event_after : ℕ → Text → NewEvent → AuditEvent
  event_after seq prev_hash e = record {
    seq = seq;
    content = content_after prev_hash e;
    hash = event_hash (content_after prev_hash e);
  }

  -- `append_event`, at the next sequence number.
  unfoldable pub append_event : ℕ → NewEvent → List AuditEvent → List AuditEvent
  unfolding last_hash
  append_event seq e events = events ++ event_after seq (or_genesis (last_hash [] events)) e ∷ []

  abbrev pub bad_event : ℕ → AuditEvent → Reason → ChainVerification
  bad_event checked e reason = record {
    verified = false;
    events_checked = checked;
    first_bad_seq = some e.seq;
    reason = some reason;
  }

  -- The loop of `verify_chain`, after the given number of events.
  unfoldable pub verify_from : Text → ℕ → List AuditEvent → ChainVerification
  verify_from expected_prev checked [] = record {
    verified = true;
    events_checked = checked;
    first_bad_seq = none;
    reason = none;
  }
  verify_from expected_prev checked (e ∷ events) =
      let rest = verify_from e.hash (checked + 1) events in
      if not (text_beq e.content.prev_hash expected_prev)
      then bad_event (checked + 1) e broken_link
      else if not (text_beq (event_hash e.content) e.hash)
      then bad_event (checked + 1) e modified
      else rest

  -- `verify_chain`.
  unfoldable pub verify_chain : List AuditEvent → ChainVerification
  unfolding verify_from
  verify_chain events = verify_from genesis_hash 0 events
