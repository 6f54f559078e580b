-- ===== src/Ingest/Run/Kept.antt =====
-- What a run leaves of the outcomes that are final.
use patent_landscapes.Base.Text.{text_eq, text_beq}
use patent_landscapes.Base.{
  ℕ, ◌≡◌, refl, ap, ◌∙◌, inl, inr, Bool, true, false, not, ◌||◌, Option, none, some, List, [], ◌∷◌,
  ◌++◌, map, arith, Bool-cases, Option-cases, nat_eq, filter,
}
use patent_landscapes.Base.Dict.{get, put, get-put, contains}
use patent_landscapes.Ingest.Model.{Fetched, Store, IngestItem, IngestError, Source, ItemOutcome}
use patent_landscapes.Ingest.Batch.{
  latest_from, latest_outcomes, pending, has_final, prepare, abort, refusal, resumed,
}
use patent_landscapes.Ingest.Record.{record_item}
use patent_landscapes.Ingest.Reconcile.{reconcile}
use patent_landscapes.Ingest.Run.{
  err, ok, Result, Unicode, Text, record_all, then_record, run_lookup_batch, finish,
}
use patent_landscapes.Ingest.Run.Items.{item_key, fetched_key, Adds, record_item-Adds}
use patent_landscapes.Ingest.Run.Reachable.{Answers}

latest_from-append :
    (latest : List (Text × ItemOutcome)) (xs ys : List IngestItem)
    → latest_from latest (xs ++ ys) ≡ latest_from (latest_from latest xs) ys
unfolding latest_from
latest_from-append latest [] ys = refl
latest_from-append latest (x ∷ xs) ys =
    latest_from-append (put x.requested_key x.outcome latest) xs ys

or_false : (a b : Bool) → (a || b) ≡ false → (a ≡ false) × (b ≡ false)
or_false a b h = ground arith

-- Items for other keys leave the outcome of a key.
latest_from-other :
    (k : Text) (latest : List (Text × ItemOutcome)) (items : List IngestItem)
    → contains k (map item_key items) ≡ false
    → get k (latest_from latest items) ≡ get k latest
unfolding latest_from
latest_from-other k latest [] h = refl
latest_from-other k latest (item ∷ items) h =
    let (here, later) =
      or_false (text_beq item.requested_key k) (contains k (map item_key items)) h in
    latest_from-other k (put item.requested_key item.outcome latest) items later
    ∙ rw (get-put, here) refl

latest_outcomes-other :
    (k key : Text) (s s' : Store)
    → text_beq key k ≡ false
    → Adds (key ∷ []) s (ok s')
    → get k (latest_outcomes s') ≡ get k (latest_outcomes s)
unfolding latest_outcomes
latest_outcomes-other k key s s' differ (added, items, keys, batch) =
    rw (items, latest_from-append [] s.items added)
      (latest_from-other k (latest_from [] s.items) added (rw (keys, differ) refl))

contains-filter-none :
    (p : Text → Bool) (k : Text) (xs : List Text) → p k ≡ false → contains k (filter p xs) ≡ false
contains-filter-none p k [] e = refl
contains-filter-none p k (x ∷ xs) e = elim (Bool-cases (p x)) [
  | inl t ↦ rw t (elim (Bool-cases (text_beq x k)) [
    | inl q ↦ (let same = ap p ((text_eq.beq_iff x k).0 q) in absurd (cc))
    | inr q ↦ rw q (contains-filter-none p k xs e)
  ])
  | inr t ↦ rw t (contains-filter-none p k xs e)
]

module _ (u : Unicode) (source : Source) where
  record_all-other :
      (k : Text) (fs : List Fetched) (end : Option Text) (s : Store)
      → contains k (map fetched_key fs) ≡ false
      → get k (latest_outcomes (record_all u source fs end s).1) ≡ get k (latest_outcomes s)
  unfolding record_all
  record_all-other k [] none s h = refl
  record_all-other k [] (some e) s h = refl
  record_all-other k (f ∷ fs) end s h =
      let (here, later) =
        or_false (text_beq f.requested_key k) (contains k (map fetched_key fs)) h in
      go here (record_item u source f s) (record_item-Adds u source f s)
        (λ s'. record_all-other k fs end s' later)
    where
      go :
          text_beq f.requested_key k ≡ false
          → (r : Result IngestError Store) → Adds (f.requested_key ∷ []) s r
          → ((s' : Store)
              → get k (latest_outcomes (record_all u source fs end s').1)
                ≡ get k (latest_outcomes s'))
          → get k (latest_outcomes (then_record r s (record_all u source fs end)).1)
            ≡ get k (latest_outcomes s)
      go here (err e) adds next = refl
      go here (ok s') adds next = next s' ∙ latest_outcomes-other k f.requested_key s s' here adds

  finish-latest :
      (now : ℕ) (r : Result IngestError (Unit {0}) × Store)
      → latest_outcomes (finish now r).1 ≡ latest_outcomes r.1
  unfolding abort reconcile latest_outcomes
  finish-latest now (err e, s) = refl
  finish-latest now (ok _, s) = refl

  -- A key with a final outcome keeps it in any run with a source that yields one result for each key
  -- that it is given: it is not among the keys that the run fetches, and no item is added for it,
  -- whatever the run comes to.
  pub run_keeps_final :
      (locked : Bool) (now : ℕ) (s : Store) (k : Text)
      → Answers source
      → has_final (get k (latest_outcomes s)) ≡ true
      → (contains k (pending s) ≡ false)
        × (get k (latest_outcomes (run_lookup_batch u source locked now s).1)
            ≡ get k (latest_outcomes s))
  unfolding run_lookup_batch prepare pending
  run_keeps_final locked now s k answers final = (absent, kept_in locked)
    where
      absent : contains k (pending s) ≡ false
      absent =
          contains-filter-none (λ j. not (has_final (get j (latest_outcomes s)))) k s.batch.keys
            (ap not final)

      kept_in :
          (locked : Bool)
          → get k (latest_outcomes (run_lookup_batch u source locked now s).1)
            ≡ get k (latest_outcomes s)
      kept_in false = refl
      kept_in true = elim (Option-cases (refusal source.info s.batch)) [
        | inl e ↦
            let (yielded, end) = source.fetch (pending s) in
            rw e (
              ap (get k) (finish-latest now (record_all u source yielded end (resumed s)))
              ∙ record_all-other k yielded end (resumed s) (rw (answers (pending s)) absent))
        | inr (x, e) ↦ rw e refl
      ]
