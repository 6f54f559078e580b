-- ===== src/Ingest/Batch.antt =====
-- The operations of src/patsquire_plr/ingest/runner.py. A transaction that raises leaves the store
-- as it was.
use patent_landscapes.Base.Result.{err, ok, Result}
use patent_landscapes.Base.Text.{codes, text_eq, text_beq, strip, Unicode, Text}
pub mod Keys
use patent_landscapes.Base.{
  ℕ, ◌-◌, Bool, true, false, not, ◌&&◌, Option, none, some, List, [], ◌∷◌, ◌++◌, map, if◌then◌else◌,
  nat_eq, length, take, filter,
}
use patent_landscapes.Base.Dict
use patent_landscapes.Publication.{
  text, PublicationNumber, NormalizationError, normalize_publication_number,
}
use patent_landscapes.Ingest.Model.{
  IngestBatch, SourceInfo, ItemOutcome, is_final, IngestItem, BatchStatus, running, complete,
  batch_failed, batch_started, batch_aborted, Store, IngestError, refused,
}

-- `_identity`: the raw text if it is no publication number.
abbrev pub text_or : Text → Result NormalizationError PublicationNumber → Text
text_or key (ok p) = text p
text_or key (err e) = key

unfoldable pub key_identity : Unicode → Text → Text
unfolding normalize_publication_number
key_identity u key = text_or key (normalize_publication_number u key)

-- `[k.strip() for k in keys if k.strip()]`.
abbrev pub is_blank : Text → Bool
is_blank [] = true
is_blank (c ∷ s) = false

unfoldable pub cleaned : Unicode → List Text → List Text
unfolding strip
cleaned u keys = filter (λ k. not (is_blank k)) (map (strip u) keys)

-- The loop over `first.setdefault(_identity(key), key)`.
unfoldable pub first_spellings : Unicode → List (Text × Text) → List Text → List (Text × Text)
unfolding key_identity Dict.set_default
first_spellings u first [] = first
first_spellings u first (key ∷ keys) =
    first_spellings u (Dict.set_default (key_identity u key) key first) keys

abbrev pub spelling : Text × Text → Text
spelling entry = entry.1

-- `_dedupe`.
unfoldable pub dedupe : Unicode → List Text → List Text × ℕ
unfolding cleaned first_spellings
dedupe u keys =
    let clean = cleaned u keys in
    let first = first_spellings u [] clean in (map spelling first, length clean - length first)

abbrev pub new_store : SourceInfo → List Text → ℕ → Store
new_store info requested duplicates = record {
  batch = record {
    source_id = info.source_id;
    adapter_version = info.adapter_version;
    source_api_version = info.source_api_version;
    keys = requested;
    duplicates_ignored = duplicates;
    status = running;
    finished_at = none;
    stored_count = none;
  };
  items = [];
  raws = [];
  documents = [];
  quarantined_records = [];
  events = batch_started (length requested) ∷ [];
}

abbrev pub start_with : SourceInfo → List Text × ℕ → Option Store
start_with info ([], duplicates) = none
start_with info (k ∷ ks, duplicates) = some (new_store info (k ∷ ks) duplicates)

-- `start_lookup_batch`; `none` is the `ValueError` for no keys.
unfoldable pub start_lookup_batch : Unicode → SourceInfo → List Text → Option Store
unfolding dedupe
start_lookup_batch u info keys = start_with info (dedupe u keys)

-- `_latest_outcomes`: later rows win.
unfoldable pub latest_from : List (Text × ItemOutcome) → List IngestItem → List (Text × ItemOutcome)
unfolding Dict.put
latest_from latest [] = latest
latest_from latest (item ∷ items) =
    latest_from (Dict.put item.requested_key item.outcome latest) items

unfoldable pub latest_outcomes : Store → List (Text × ItemOutcome)
unfolding latest_from
latest_outcomes s = latest_from [] s.items

abbrev pub has_final : Option ItemOutcome → Bool
has_final none = false
has_final (some o) = is_final o

abbrev pub is_complete : BatchStatus → Bool
is_complete complete = true
is_complete running = false
is_complete batch_failed = false

-- `[k for k in requested if latest.get(k) not in FINAL_OUTCOMES]`.
unfoldable pub pending : Store → List Text
unfolding latest_outcomes Dict.get
pending s = filter (λ k. not (has_final (Dict.get k (latest_outcomes s)))) s.batch.keys

-- The errors of `_prepare`, whose messages name no identifiers here.
unfoldable pub refusal : SourceInfo → IngestBatch → Option Text
refusal info b =
    if not (text_beq b.source_id info.source_id)
    then some (codes "batch belongs to another source")
    else if not (
        text_beq b.adapter_version info.adapter_version
        && text_beq b.source_api_version info.source_api_version)
    then some (codes "batch was created with another version")
    else if is_complete b.status
    then some (codes "batch is already complete")
    else none

abbrev pub resumed : Store → Store
resumed s = record s { batch = record (s.batch) { status = running; finished_at = none } }

abbrev pub resume : Store → Option Text → Result IngestError (List Text) × Store
resume s (some message) = (err (refused message), s)
resume s none = (ok (pending s), resumed s)

-- `_prepare`: the pending keys, with the batch running again.
unfoldable pub prepare : SourceInfo → Store → Result IngestError (List Text) × Store
unfolding pending refusal
prepare info s = resume s (refusal info s.batch)

-- `_abort`.
unfoldable pub abort : ℕ → Text → Store → Store
abort now message s = record s {
  batch = record (s.batch) { status = batch_failed; finished_at = some now };
  events = s.events ++ batch_aborted (take 2000 message) ∷ [];
}
