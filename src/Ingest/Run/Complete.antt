-- ===== src/Ingest/Run/Complete.antt =====
-- A run that is not interrupted ends with an outcome for every key.
use patent_landscapes.Ingest.Run.{record_all, run_lookup_batch, process, finish}
use patent_landscapes.Base.Text.{Unicode, Text, text_eq}
use patent_landscapes.Base.{
  Option-cases, ◌↔◌, subst, inr, inl, ℕ, ◌≡◌, Bool, true, false, List, map, nat_eq,
}
use patent_landscapes.Base.Result.{err, Result, ok}
use patent_landscapes.Ingest.Model.{BatchReport, Source, IngestError, complete, Store}
use patent_landscapes.Ingest.Batch.{resumed, prepare, refusal, pending}
use patent_landscapes.Ingest.Reconcile.{report_of, reconcile}
use patent_landscapes.Ingest.Run.Items.{fetched_key, IsPlain, AddsAll, record_all-AddsAll}
use patent_landscapes.Ingest.Run.Consistent.{record_all-IsConsistent, IsConsistent}
use patent_landscapes.Ingest.Run.Outcomes.{
  IsAnswered, IsFinal, IsKnown, added-IsAnswered, added-IsKnown, mismatches-none, status_iff,
}

-- What a run of the batch comes to: a report, after which every key has an outcome, and which is
-- complete exactly when every one is final; or an error that is no `ReconciliationError`.
abbrev pub IsReconciled : Result IngestError BatchReport × Store → Type 0
IsReconciled (ok report, s) = IsAnswered s × ((report.status ≡ complete) ↔ IsFinal s)
IsReconciled (err e, s) = IsPlain e

reconcile-IsReconciled :
    (now : ℕ) (s : Store)
    → IsConsistent s
    → IsKnown s
    → IsAnswered s
    → IsReconciled (reconcile now s)
unfolding reconcile report_of
reconcile-IsReconciled now s consistent known answered =
    rw (mismatches-none s consistent known answered) (answered, status_iff s answered)

module _ (u : Unicode) (source : Source)
    (answers : (keys : List Text) → map fetched_key (source.fetch keys).0 ≡ keys) where
  finish-IsReconciled :
      (now : ℕ) (s : Store) (r : Result IngestError (Unit {0}) × Store)
      → IsConsistent r.1
      → IsKnown s
      → AddsAll (pending s) s r
      → IsReconciled (finish now r)
  finish-IsReconciled now s (err e, s') consistent known adds = adds
  finish-IsReconciled now s (ok _, s') consistent known adds =
      reconcile-IsReconciled now s' consistent (added-IsKnown s s' known adds)
        (added-IsAnswered s s' adds)

  process-IsReconciled :
      (now : ℕ) (s : Store)
      → IsConsistent s
      → IsKnown s
      → IsReconciled (process u source now (ok (pending s), s))
  process-IsReconciled now s consistent known =
      let (yielded, end) = source.fetch (pending s) in
      finish-IsReconciled now s (record_all u source yielded end s)
        (record_all-IsConsistent u source yielded end s consistent) known
        (subst (λ keys. AddsAll keys s (record_all u source yielded end s)) (answers (pending s))
          (record_all-AddsAll u source yielded end s))

  -- From a batch whose rows add up and whose items are for its keys, a run with a source that yields
  -- one result for each key it is given, and then may raise, never ends in a `ReconciliationError`:
  -- it raises another error, or it reports, and then every key of the batch has an outcome, and
  -- the report is complete exactly when the latest outcome of every key is final.
  pub run-IsReconciled :
      (locked : Bool) (now : ℕ) (s : Store)
      → IsConsistent s
      → IsKnown s
      → IsReconciled (run_lookup_batch u source locked now s)
  unfolding run_lookup_batch prepare
  run-IsReconciled false now s consistent known = tt
  run-IsReconciled true now s consistent known = elim (Option-cases (refusal source.info s.batch)) [
    | inl e ↦ rw e (process-IsReconciled now (resumed s) consistent known)
    | inr (x, e) ↦ rw e tt
  ]
