-- ===== src/Ingest.antt =====
-- The ingest runner (src/patsquire_plr/ingest/runner.py): its data (Model), a batch and its keys
-- (Batch), the transaction of an item (Record), the final check (Reconcile), and a run (Run).
pub mod Model
pub mod Batch
pub mod Record
pub mod Reconcile
pub mod Run
