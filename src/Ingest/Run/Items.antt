-- ===== src/Ingest/Run/Items.antt =====
-- The items that a run adds, and the latest outcomes that they make.
use patent_landscapes.Ingest.Reconcile.{key_of}
use patent_landscapes.Base.Text.{text_beq, text_eq}
use patent_landscapes.Base.{
  Bool, All, if◌then◌else◌, false, true, ℕ, ◌≡◌, refl, sym, ◌∙◌, inl, inr, ◌||◌, Option, none, some,
  List, [], ◌∷◌, ◌++◌, map, append-nil, append_assoc, map-append, Bool-cases, is_some, nat_eq,
  length,
}
use patent_landscapes.Base.Result.{◌>>=◌}
use patent_landscapes.Base.Dict.{get, put, get-put, contains}
use patent_landscapes.Publication.{
  NormalizationError, PublicationNumber, normalize_publication_number,
}
use patent_landscapes.Patent.{PatentDocument}
use patent_landscapes.Ingest.Record.{mismatches_at}
use patent_landscapes.Ingest.Model.{
  refused, busy, raised, reconciliation, fetch_failed, fetch_invalid_request, fetch_not_found,
  fetch_ok, Fetched, Normalized, Store, IngestItem, IngestError, Source, FetchStatus, ItemOutcome,
}
use patent_landscapes.Ingest.Batch.{latest_from}
use patent_landscapes.Ingest.Record.{
  raw_of, with_raw, unfetched_item, record_item, record_payload, settle, settle_normalized,
  request_mismatches, with_item, failed_outcome, has_raw, record_ok, record_stored, already_stored,
}
use patent_landscapes.Ingest.Run.{err, ok, Result, Unicode, Text, record_all, then_record}

abbrev pub item_key : IngestItem → Text
item_key item = item.requested_key

abbrev pub fetched_key : Fetched → Text
fetched_key f = f.requested_key

-- An error that is no `ReconciliationError`.
abbrev pub IsPlain : IngestError → Type 0
IsPlain (refused t) = Unit
IsPlain busy = Unit
IsPlain (raised t) = Unit
IsPlain (reconciliation ps) = ⊥

-- A transaction that succeeds adds items for keys, and leaves the batch.
abbrev pub Adds : List Text → Store → Result IngestError Store → Type 0
Adds keys s (err e) = IsPlain e
Adds keys s (ok s') =
    (added : List IngestItem) × (s'.items ≡ s.items ++ added)
    × (map item_key added ≡ keys)
    × (s'.batch ≡ s.batch)

-- The same of the loop, if it ends without raising.
abbrev pub AddsAll : List Text → Store → Result IngestError (Unit {0}) × Store → Type 0
AddsAll keys s (err e, s') = IsPlain e
AddsAll keys s (ok _, s') = Adds keys s (ok s')

settle-Adds :
    (f : Fetched) (n : Normalized) (raw : ℕ) (reasons : List Text) (duplicate_of : Option Text)
    (s : Store)
    → Adds (f.requested_key ∷ []) s (ok (settle f n raw reasons duplicate_of s))
unfolding settle
settle-Adds f n raw [] (some d) s = (_, refl, refl, refl)
settle-Adds f n raw [] none s = (_, refl, refl, refl)
settle-Adds f n raw (r ∷ reasons) d s = (_, refl, refl, refl)

abbrev IsPlainResult : Result IngestError (List Text) → Type 0
IsPlainResult (ok texts) = Unit
IsPlainResult (err e) = IsPlain e

module _ (u : Unicode) (source : Source) where
  request_mismatches-IsPlain :
      (f : Fetched) (documents : List (PatentDocument × Text))
      → IsPlainResult (request_mismatches u f documents)
  unfolding request_mismatches
  request_mismatches-IsPlain f [] = tt
  request_mismatches-IsPlain f (d ∷ documents) = go (normalize_publication_number u f.requested_key)
    where
      go :
          (r : Result NormalizationError PublicationNumber)
          → IsPlainResult (mismatches_at f.requested_key f.kind_fallback (d ∷ documents) r)
      go (ok p) = tt
      go (err e) = tt

  settle_normalized-Adds :
      (f : Fetched) (raw : ℕ) (s : Store) (r : Result Text Normalized)
      → Adds (f.requested_key ∷ []) s (settle_normalized u f raw s r)
  settle_normalized-Adds f raw s (err e) = tt
  settle_normalized-Adds f raw s (ok n) =
      go (request_mismatches u f n.documents) (request_mismatches-IsPlain f n.documents)
    where
      go :
          (r : Result IngestError (List Text))
          → IsPlainResult r
          → Adds (f.requested_key ∷ []) s (
              r >>= λ wrong.
              ok (settle f n raw (n.quarantine_reasons ++ wrong) (already_stored s n.documents) s))
      go (err e) k = k
      go (ok wrong) k =
          settle-Adds f n raw (n.quarantine_reasons ++ wrong) (already_stored s n.documents) s

  record_stored-Adds :
      (f : Fetched) (content : Text) (moment : ℕ) (s : Store) (object : Result Text (Text × Text))
      → Adds (f.requested_key ∷ []) s (record_stored u source f content moment s object)
  unfolding record_payload
  record_stored-Adds f content moment s (err e) = tt
  record_stored-Adds f content moment s (ok object) =
      elim (Bool-cases (has_raw f.requested_key s.raws)) [
        | inl e ↦ rw e tt
        | inr e ↦ rw e (
            settle_normalized-Adds f (length s.raws) (with_raw (raw_of f content moment object) s)
              (source.normalize content (length s.raws) moment))
      ]

  record_ok-Adds :
      (f : Fetched) (content : Option Text) (moment : Option ℕ) (s : Store)
      → Adds (f.requested_key ∷ []) s (record_ok u source f content moment s)
  record_ok-Adds f none moment s = tt
  record_ok-Adds f (some c) none s = tt
  record_ok-Adds f (some c) (some m) s = record_stored-Adds f c m s _

  pub record_item-Adds :
      (f : Fetched) (s : Store) → Adds (f.requested_key ∷ []) s (record_item u source f s)
  unfolding record_item
  record_item-Adds f s = go f.status
    where
      go :
          (status : FetchStatus)
          → Adds (f.requested_key ∷ []) s (elim (failed_outcome status) [
            | some outcome ↦ ok (with_item (unfetched_item f outcome) s)
            | none ↦ record_ok u source f f.content f.retrieved_at s
          ])
      go fetch_ok = record_ok-Adds f f.content f.retrieved_at s
      go fetch_not_found = (_, refl, refl, refl)
      go fetch_invalid_request = (_, refl, refl, refl)
      go fetch_failed = (_, refl, refl, refl)

  pub record_all-AddsAll :
      (fs : List Fetched) (end : Option Text) (s : Store)
      → AddsAll (map fetched_key fs) s (record_all u source fs end s)
  unfolding record_all
  record_all-AddsAll [] none s = ([], sym (append-nil s.items), refl, refl)
  record_all-AddsAll [] (some e) s = tt
  record_all-AddsAll (f ∷ fs) end s =
      go (record_item u source f s) (record_item-Adds f s) (record_all-AddsAll fs end)
    where
      join_adds :
          (s' : Store) (r : Result IngestError (Unit {0}) × Store)
          → Adds (f.requested_key ∷ []) s (ok s')
          → AddsAll (map fetched_key fs) s' r
          → AddsAll (f.requested_key ∷ map fetched_key fs) s r
      join_adds s' (err e, s'') h k = k
      join_adds s' (ok _, s'') (a, items, keys, batch) (b, items', keys', batch') = (
        a ++ b,
        items' ∙ (rw items (append_assoc s.items a b)),
        rw (map-append, keys, keys') refl,
        batch' ∙ batch,
      )

      go :
          (r : Result IngestError Store)
          → Adds (f.requested_key ∷ []) s r
          → ((s' : Store) → AddsAll (map fetched_key fs) s' (record_all u source fs end s'))
          → AddsAll
              (f.requested_key ∷ map fetched_key fs)
              s
              (then_record r s (record_all u source fs end))
      go (err e) k next = k
      go (ok s') k next = join_adds s' (record_all u source fs end s') k (next s')

some_or :
    {A : Type 0} (here later : Bool) (a : A) (o : Option A)
    → (later || is_some (if here then some a else o)) ≡ (here || later || is_some o)
some_or true true a o = refl
some_or true false a o = refl
some_or false later a o = refl

-- A key has an outcome when an item is for it.
pub get-latest_from :
    (k : Text) (latest : List (Text × ItemOutcome)) (items : List IngestItem)
    → is_some (get k (latest_from latest items))
      ≡ (contains k (map item_key items) || is_some (get k latest))
unfolding latest_from
get-latest_from k latest [] = refl
get-latest_from k latest (item ∷ items) =
    get-latest_from k (put item.requested_key item.outcome latest) items
    ∙ rw get-put (
        some_or (text_beq item.requested_key k) (contains k (map item_key items)) item.outcome
          (get k latest))

-- What holds of the keys of every item holds of the keys with an outcome.
pub latest_from-keys :
    (P : Text → Type 0) (latest : List (Text × ItemOutcome)) (items : List IngestItem)
    → All P (map key_of latest)
    → All P (map item_key items)
    → All P (map key_of (latest_from latest items))
unfolding latest_from
latest_from-keys P latest [] h k = h
latest_from-keys P latest (item ∷ items) h k =
    latest_from-keys P (put item.requested_key item.outcome latest) items (put-keys latest h) k.1
  where
    put-keys :
        (d : List (Text × ItemOutcome))
        → All P (map key_of d)
        → All P (map key_of (put item.requested_key item.outcome d))
    put-keys [] h = (k.0, tt)
    put-keys ((j, o) ∷ d) h = elim (Bool-cases (text_beq j item.requested_key)) [
      | inl e ↦ rw e h
      | inr e ↦ rw e (h.0, put-keys d h.1)
    ]
