-- ===== src/Ingest/Run.antt =====
-- `run_lookup_batch` of src/patsquire_plr/ingest/runner.py. Whether the advisory lock is obtained is
-- an argument; the lock is released when the run is over.
pub mod Consistent
pub mod Items
pub mod Outcomes
pub mod Complete
pub mod Reachable
pub mod Kept
pub mod Tests
use patent_landscapes.Base.Result.{err, ok, Result}
use patent_landscapes.Base.Text.{codes, Text, Unicode}
use patent_landscapes.Base.{◌++◌, ℕ, Bool, true, false, Option, none, some, List, [], ◌∷◌, nat_eq}
use patent_landscapes.Ingest.Model.{
  Fetched, Store, IngestError, busy, refused, raised, reconciliation, BatchReport, Source,
}
use patent_landscapes.Ingest.Batch.{prepare, abort}
use patent_landscapes.Ingest.Record.{record_item}
use patent_landscapes.Ingest.Reconcile.{reconcile}

abbrev pub then_record :
    Result IngestError Store
    → Store
    → (Store → Result IngestError (Unit {0}) × Store)
    → Result IngestError (Unit {0}) × Store
then_record (err e) s next = (err e, s)
then_record (ok s') s next = next s'

-- The loop over what the source yields, and what it raises at the end.
unfoldable pub record_all :
    Unicode → Source → List Fetched → Option Text → Store → Result IngestError (Unit {0}) × Store
unfolding record_item
record_all u source [] none s = (ok tt, s)
record_all u source [] (some e) s = (err (raised e), s)
record_all u source (f ∷ fs) end s =
    then_record (record_item u source f s) s (record_all u source fs end)

-- The type and the message of an error, as `_abort` logs them; the text of a raised one has both.
abbrev pub message_of_error : IngestError → Text
message_of_error (refused t) = codes "PlrError: " ++ t
message_of_error busy = []
message_of_error (reconciliation ps) = []
message_of_error (raised t) = t

-- What follows the loop: the batch is marked as failed and the error goes on, or it is reconciled.
abbrev pub finish :
    ℕ → Result IngestError (Unit {0}) × Store → Result IngestError BatchReport × Store
finish now (err e, s) = (err e, abort now (message_of_error e) s)
finish now (ok _, s) = reconcile now s

abbrev pub process :
    Unicode
    → Source
    → ℕ
    → Result IngestError (List Text) × Store
    → Result IngestError BatchReport × Store
process u source now (err e, s) = (err e, s)
process u source now (ok keys, s) =
    let (yielded, end) = source.fetch keys in finish now (record_all u source yielded end s)

-- `run_lookup_batch`.
unfoldable pub run_lookup_batch :
    Unicode → Source → Bool → ℕ → Store → Result IngestError BatchReport × Store
unfolding prepare record_all abort reconcile
run_lookup_batch u source false now s = (err busy, s)
run_lookup_batch u source true now s = process u source now (prepare source.info s)
