-- ===== src/Ingest/Run/Tests.antt =====
-- A batch of two publications, one of them asked for twice: a run that is interrupted by a failure,
-- and the run that resumes it.
use patent_landscapes.Publication.{
  text, last_is_digit, accept, is_separator, compact, match_compact,
}
use patent_landscapes.Base.Text.{text_eq, upper, upper_text, text_beq, codes}
use patent_landscapes.Base.{
  All, length, ◌+◌, ℕ, ◌≡◌, refl, ap, Bool, true, false, ◌||◌, Option, none, some, List, [], ◌∷◌,
  map, if◌then◌else◌, nat_eq,
}
use patent_landscapes.Publication.Tests.{ascii}
use patent_landscapes.Patent.Tests.{doc}
use patent_landscapes.Ingest.Model.{
  Fetched, fetch_ok, fetch_failed, Store, IngestError, Source, SourceInfo, BatchReport, complete,
  refused, Normalized,
}
use patent_landscapes.Base.Dict.{contains, get}
use patent_landscapes.Ingest.Run.Kept.{run_keeps_final}
use patent_landscapes.Ingest.Batch.Keys.{dedupe_lem}
use patent_landscapes.Patent.{has_repeats}
use patent_landscapes.Ingest.Batch.{
  dedupe, cleaned, key_identity, latest_outcomes, start_lookup_batch, pending,
}
use patent_landscapes.Ingest.Run.{err, Result, ok, Text, run_lookup_batch}
use patent_landscapes.Ingest.Run.Reachable.{Answers}

abbrev info : SourceInfo
info = record {
  source_id = codes "s";
  source_type = codes "lookup";
  adapter_version = codes "1";
  source_api_version = codes "1";
}

abbrev keys : List Text
keys = codes "US 10,123,456 B2" ∷ codes "EP1234A1" ∷ codes "US10123456B2" ∷ []

-- Of the two keys, the second is answered if it may be; a payload is its key.
abbrev answer_of : Bool → Text → Fetched
answer_of up key = record {
  requested_key = key;
  status = if up || text_beq key (codes "US 10,123,456 B2") then fetch_ok else fetch_failed;
  content = some key;
  content_type = none;
  retrieved_at = some 5;
  detail = none;
  kind_fallback = false;
}

abbrev normalized : Normalized
normalized = record { documents = (doc, codes "/") ∷ []; quarantine_reasons = []; warnings = [] }

abbrev source : Bool → Source
source up = record {
  info = info;
  fetch = λ ks. (map (answer_of up) ks, none);
  normalize = λ content raw moment. ok normalized;
  put = λ content content_type. ok (content, codes "hash");
}

source-Answers : (up : Bool) → Answers (source up)
source-Answers up [] = refl
source-Answers up (k ∷ ks) = ap (λ xs. k ∷ xs) (source-Answers up ks)

abbrev none_left : Store
none_left = record {
  batch = record {
    source_id = [];
    adapter_version = [];
    source_api_version = [];
    keys = [];
    duplicates_ignored = 0;
    status = complete;
    finished_at = none;
    stored_count = none;
  };
  items = [];
  raws = [];
  documents = [];
  quarantined_records = [];
  events = [];
}

abbrev or_no_store : Option Store → Store
or_no_store none = none_left
or_no_store (some s) = s

abbrev new_batch : Store
new_batch = or_no_store (start_lookup_batch ascii info keys)

abbrev after_failure : Store
after_failure = (run_lookup_batch ascii (source false) true 7 new_batch).1

abbrev after_resume : Store
after_resume = (run_lookup_batch ascii (source true) true 8 after_failure).1

abbrev report_lines : Result IngestError BatchReport × Store → ℕ × ℕ × List Text
report_lines (ok r, s) = (r.documents_stored, r.duplicates_ignored, r.failed_keys)
report_lines (err e, s) = (0, 0, [])

-- One document is stored, and the European key has failed.
first_run :
    report_lines (run_lookup_batch ascii (source false) true 7 new_batch)
    ≡ (1, 1, codes "EP1234A1" ∷ [])
unfolding run_lookup_batch text_beq start_lookup_batch match_compact compact upper_text upper
    is_separator accept last_is_digit text
first_run = refl

first_pending : pending after_failure ≡ codes "EP1234A1" ∷ []
unfolding pending run_lookup_batch text_beq start_lookup_batch match_compact compact upper_text
    upper is_separator accept last_is_digit text
first_pending = refl

-- The American document that is served for the European key is quarantined: nothing has failed.
second_run : report_lines (run_lookup_batch ascii (source true) true 8 after_failure) ≡ (1, 1, [])
unfolding run_lookup_batch text_beq start_lookup_batch match_compact compact upper_text upper
    is_separator accept last_is_digit text
second_run = refl

-- A complete batch is not run again.
third_run :
    (run_lookup_batch ascii (source true) true 9 after_resume).0
    ≡ err (refused (codes "batch is already complete"))
unfolding run_lookup_batch text_beq start_lookup_batch match_compact compact upper_text upper
    is_separator accept last_is_digit text
third_run = refl

run_keeps_final_example :
    (contains (codes "US 10,123,456 B2") (pending after_failure) ≡ false)
    × (get (codes "US 10,123,456 B2") (latest_outcomes after_resume)
        ≡ get (codes "US 10,123,456 B2") (latest_outcomes after_failure))
unfolding get latest_outcomes run_lookup_batch text_beq start_lookup_batch match_compact compact
    upper_text upper is_separator accept last_is_digit text
run_keeps_final_example =
    run_keeps_final ascii (source true) true 8 after_failure (codes "US 10,123,456 B2")
      (source-Answers true) refl

abbrev requested_keys : List Text
requested_keys = (dedupe ascii keys).0

dedupe_lem_example :
    (has_repeats (map (key_identity ascii) requested_keys) ≡ false)
    × All
        (λ k. contains (key_identity ascii k) (map (key_identity ascii) requested_keys) ≡ true)
        (cleaned ascii keys)
    × (length requested_keys + (dedupe ascii keys).1 ≡ length (cleaned ascii keys))
dedupe_lem_example = dedupe_lem ascii keys
