-- ===== src/Ingest/Run/Reachable.antt =====
-- A batch from its start, through any runs.
use patent_landscapes.Base.Text.{text_eq}
use patent_landscapes.Base.{ℕ, ◌≡◌, Bool, Option, some, List, map, nat_eq}
use patent_landscapes.Ingest.Model.{Store, Source, SourceInfo}
use patent_landscapes.Ingest.Batch.{start_lookup_batch}
use patent_landscapes.Ingest.Run.{Unicode, Text, run_lookup_batch}
use patent_landscapes.Ingest.Run.Items.{fetched_key}

-- The source yields one result for each key that it is given, in their order, and then may raise.
abbrev pub Answers : Source → Type 0
Answers source = (keys : List Text) → map fetched_key (source.fetch keys).0 ≡ keys

-- The states of a batch: as it is started, and as a run leaves it, whatever the run comes to.
pub data Reachable (u : Unicode) : Store → Type 0 where
  started :
      (info : SourceInfo) (keys : List Text) (s : Store)
      → start_lookup_batch u info keys ≡ some s
      → Reachable u s
  ran :
      (source : Source) (locked : Bool) (now : ℕ) (s : Store)
      → Answers source
      → Reachable u s
      → Reachable u (run_lookup_batch u source locked now s).1
