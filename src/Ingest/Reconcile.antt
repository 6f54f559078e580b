-- ===== src/Ingest/Reconcile.antt =====
-- `_reconcile` and `batch_summary` of src/patsquire_plr/ingest/runner.py. An outcome `none` of a report is
-- `missing`.
use patent_landscapes.Base.Result.{err, ok, Result}
use patent_landscapes.Base.Text.{codes, text_eq, text_le, Text}
use patent_landscapes.Base.{
  ℕ, ◌+◌, Bool, true, false, not, Option, none, some, List, [], ◌∷◌, ◌++◌, map, ◌==◌, if◌then◌else◌,
  is_some, decided, nat_eq, length, filter,
}
use patent_landscapes.Base.Dict
use patent_landscapes.Base.Sort.{sorted}
use patent_landscapes.Ingest.Model.{
  ItemOutcome-discrete, ItemOutcome, stored, quarantined, duplicate, not_found, invalid_request,
  failed, is_fetched, IngestItem, BatchStatus, complete, batch_failed, Mismatch, never_requested,
  without_outcome, raw_records, documents_stored, BatchReport, batch_finished, Store, IngestError,
  reconciliation,
}
use patent_landscapes.Ingest.Batch.{latest_outcomes}

abbrev pub key_of : Text × ItemOutcome → Text
key_of entry = entry.0

-- `sorted(set(latest) - set(requested))`.
unfoldable pub unknown_keys : List (Text × ItemOutcome) → List Text → List Text
unfolding sorted
unknown_keys latest requested =
    sorted text_le (filter (λ k. not (Dict.contains k requested)) (map key_of latest))

-- `[k for k in requested if k not in latest]`.
unfoldable pub missing_keys : List (Text × ItemOutcome) → List Text → List Text
unfolding Dict.get
missing_keys latest requested = filter (λ k. not (is_some (Dict.get k latest))) requested

abbrev pub is_failed : Option ItemOutcome → Bool
is_failed none = false
is_failed (some o) = elim o [
  | stored ↦ false
  | quarantined ↦ false
  | duplicate ↦ false
  | not_found ↦ false
  | invalid_request ↦ false
  | failed ↦ true
]

-- `[k for k in requested if latest.get(k) == "failed"]`.
unfoldable pub failed_keys_of : List (Text × ItemOutcome) → List Text → List Text
unfolding Dict.get
failed_keys_of latest requested = filter (λ k. is_failed (Dict.get k latest)) requested

abbrev pub is_fetched_item : IngestItem → Bool
is_fetched_item item = is_fetched item.outcome

-- The rows of `final_items`.
abbrev pub final_items : List IngestItem → List IngestItem
final_items items = filter is_fetched_item items

abbrev pub raw_ids : List IngestItem → List ℕ
raw_ids [] = []
raw_ids (item ∷ items) = elim item.raw_record_id [
  | none ↦ raw_ids items
  | some i ↦ i ∷ raw_ids items
]

abbrev pub document_total : List IngestItem → ℕ
document_total [] = 0
document_total (item ∷ items) = item.document_count + document_total items

abbrev pub unless_empty : {A : Type 0} → (List A → Mismatch) → List A → List Mismatch
unless_empty f [] = []
unless_empty f (x ∷ xs) = f (x ∷ xs) ∷ []

abbrev pub unless_equal : (ℕ → ℕ → Mismatch) → ℕ → ℕ → List Mismatch
unless_equal f m n = if m == n then [] else f m n ∷ []

-- `problems`.
unfoldable pub mismatches_of : Store → List Mismatch
unfolding latest_outcomes unknown_keys missing_keys
mismatches_of s =
    unless_empty never_requested (unknown_keys (latest_outcomes s) s.batch.keys)
    ++ (unless_empty without_outcome (missing_keys (latest_outcomes s) s.batch.keys)
        ++ (unless_equal raw_records (length s.raws)
              (length (Dict.distinct_from [] (raw_ids (final_items s.items))))
            ++ unless_equal documents_stored (length s.documents)
                (document_total (final_items s.items))))

abbrev pub same_outcome : Option ItemOutcome → Option ItemOutcome → Bool
same_outcome none none = true
same_outcome (some a) (some b) = decided (ItemOutcome-discrete a b)
same_outcome none (some b) = false
same_outcome (some a) none = false

-- `Counter(latest.get(k, "missing") for k in requested)`.
abbrev pub count_one :
    Option ItemOutcome → List (Option ItemOutcome × ℕ) → List (Option ItemOutcome × ℕ)
count_one o [] = (o, 1) ∷ []
count_one o ((p, n) ∷ counts) =
    if same_outcome p o then (p, n + 1) ∷ counts else (p, n) ∷ count_one o counts

unfoldable pub outcome_counts :
    List (Text × ItemOutcome) → List Text → List (Option ItemOutcome × ℕ)
unfolding Dict.get
outcome_counts latest [] = []
outcome_counts latest (k ∷ keys) = count_one (Dict.get k latest) (outcome_counts latest keys)

abbrev pub status_of : List Mismatch → List Text → BatchStatus
status_of [] [] = complete
status_of (p ∷ ps) failed_keys = batch_failed
status_of [] (k ∷ ks) = batch_failed

-- The names of the outcomes, in the order of which a report lists them.
abbrev pub outcome_name : Option ItemOutcome → Text
outcome_name none = codes "missing"
outcome_name (some o) = elim o [
  | stored ↦ codes "stored"
  | quarantined ↦ codes "quarantined"
  | duplicate ↦ codes "duplicate"
  | not_found ↦ codes "not_found"
  | invalid_request ↦ codes "invalid_request"
  | failed ↦ codes "failed"
]

abbrev pub by_name : Option ItemOutcome × ℕ → Option ItemOutcome × ℕ → Bool
by_name a b = text_le (outcome_name a.0) (outcome_name b.0)

unfoldable pub report_of : Store → BatchStatus → ℕ → BatchReport
unfolding latest_outcomes failed_keys_of outcome_counts
report_of s status documents = record {
  source_id = s.batch.source_id;
  status = status;
  requested = length s.batch.keys;
  duplicates_ignored = s.batch.duplicates_ignored;
  outcomes = sorted by_name (outcome_counts (latest_outcomes s) s.batch.keys);
  documents_stored = documents;
  failed_keys = failed_keys_of (latest_outcomes s) s.batch.keys;
}

abbrev pub count_or_zero : Option ℕ → ℕ
count_or_zero none = 0
count_or_zero (some n) = n

-- `batch_summary`.
abbrev pub batch_summary : Store → BatchReport
batch_summary s = report_of s s.batch.status (count_or_zero s.batch.stored_count)

abbrev pub report_or_raise : List Mismatch → BatchReport → Result IngestError BatchReport
report_or_raise [] r = ok r
report_or_raise (p ∷ ps) r = err (reconciliation (p ∷ ps))

-- `_reconcile`.
unfoldable pub reconcile : ℕ → Store → Result IngestError BatchReport × Store
unfolding mismatches_of report_of failed_keys_of
reconcile now s =
    let problems = mismatches_of s in
    let status = status_of problems (failed_keys_of (latest_outcomes s) s.batch.keys) in
    let report = report_of s status (length s.documents) in
    (
      report_or_raise problems report,
      record s {
        batch = record (s.batch) {
          status = status;
          finished_at = some now;
          stored_count = some (length s.documents);
        };
        events = s.events ++ batch_finished report problems ∷ [];
      },
    )
