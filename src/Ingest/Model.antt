-- ===== src/Ingest/Model.antt =====
-- The data of src/patsquire_plr/ingest/runner.py: what a source yields (ingest/sources.py), the rows
-- of one batch in the database (db/models.py), reports and errors. Rows are in the order in which
-- they were committed. Content is the text of its bytes, a moment its instant as a number, and a raw
-- record is identified by its place.
use patent_landscapes.Base.Result.{Result}
use patent_landscapes.Base.Text.{Text}
use patent_landscapes.Base.{ℕ, Bool, true, false, Option, List, nat_eq}
use patent_landscapes.Patent.{PatentDocument}

pub record SourceInfo : Type 0 where
  pub source_id : Text
  pub source_type : Text
  pub adapter_version : Text
  pub source_api_version : Text

pub data FetchStatus : Type 0 where
  fetch_ok fetch_not_found fetch_invalid_request fetch_failed : FetchStatus

pub record Fetched : Type 0 where
  pub requested_key : Text
  pub status : FetchStatus
  pub content : Option Text
  pub content_type : Option Text
  pub retrieved_at : Option ℕ
  pub detail : Option Text
  pub kind_fallback : Bool

pub record Normalized : Type 0 where
  pub documents : List (PatentDocument × Text)
  pub quarantine_reasons : List Text
  pub warnings : List Text

pub data ItemOutcome : Type 0 where
  stored quarantined duplicate not_found invalid_request failed : ItemOutcome

pub ItemOutcome-discrete : Discrete ItemOutcome
ItemOutcome-discrete = hlevel

-- `FINAL_OUTCOMES` and `FETCHED_OUTCOMES`.
abbrev pub is_final : ItemOutcome → Bool
is_final stored = true
is_final quarantined = true
is_final duplicate = true
is_final not_found = true
is_final invalid_request = true
is_final failed = false

abbrev pub is_fetched : ItemOutcome → Bool
is_fetched stored = true
is_fetched quarantined = true
is_fetched duplicate = true
is_fetched not_found = false
is_fetched invalid_request = false
is_fetched failed = false

pub record IngestItem : Type 0 where
  pub requested_key : Text
  pub outcome : ItemOutcome
  pub raw_record_id : Option ℕ
  pub document_count : ℕ
  pub detail : Option Text

pub record RawRecord : Type 0 where
  pub source_record_key : Text
  pub object_key : Text
  pub sha256 : Text
  pub content_type : Text
  pub byte_size : ℕ
  pub retrieved_at : ℕ

pub record PatentDocumentRow : Type 0 where
  pub raw_record_id : ℕ
  pub raw_pointer : Text
  pub document : PatentDocument

pub record QuarantinedRecord : Type 0 where
  pub raw_record_id : ℕ
  pub reasons : List Text

pub data BatchStatus : Type 0 where
  running complete batch_failed : BatchStatus

pub record IngestBatch : Type 0 where
  pub source_id : Text
  pub adapter_version : Text
  pub source_api_version : Text
  pub keys : List Text
  pub duplicates_ignored : ℕ
  pub status : BatchStatus
  pub finished_at : Option ℕ
  pub stored_count : Option ℕ

-- The messages of `_reconcile`.
pub data Mismatch : Type 0 where
  never_requested : List Text → Mismatch
  without_outcome : List Text → Mismatch
  raw_records : ℕ → ℕ → Mismatch
  documents_stored : ℕ → ℕ → Mismatch

pub record BatchReport : Type 0 where
  pub source_id : Text
  pub status : BatchStatus
  pub requested : ℕ
  pub duplicates_ignored : ℕ
  pub outcomes : List (Option ItemOutcome × ℕ)
  pub documents_stored : ℕ
  pub failed_keys : List Text

-- The audit events of a batch.
pub data Event : Type 0 where
  batch_started : ℕ → Event
  batch_aborted : Text → Event
  batch_finished : BatchReport → List Mismatch → Event

pub record Store : Type 0 where
  pub batch : IngestBatch
  pub items : List IngestItem
  pub raws : List RawRecord
  pub documents : List PatentDocumentRow
  pub quarantined_records : List QuarantinedRecord
  pub events : List Event

-- What a run raises: a `PlrError` of its own, `BatchBusyError`, `ReconciliationError`, or what the
-- source, the object storage or the database raises.
pub data IngestError : Type 0 where
  refused : Text → IngestError
  busy : IngestError
  reconciliation : List Mismatch → IngestError
  raised : Text → IngestError

-- What the runner uses and does not implement: `fetch` yields results and then ends or raises;
-- `normalize` takes content, raw record and moment; `put` takes content and its type, and returns
-- the object's key and hash.
pub record Source : Type 0 where
  pub info : SourceInfo
  pub fetch : List Text → List Fetched × Option Text
  pub normalize : Text → ℕ → ℕ → Result Text Normalized
  pub put : Text → Text → Result Text (Text × Text)
