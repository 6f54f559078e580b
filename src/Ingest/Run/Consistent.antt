-- ===== src/Ingest/Run/Consistent.antt =====
-- The rows of a batch add up to its items, whatever the source does.
use patent_landscapes.Ingest.Run.{then_record, record_all}
use patent_landscapes.Base.Result.{◌>>=◌, err, ok, Result}
use patent_landscapes.Base.Text.{Unicode, Text}
use patent_landscapes.Base.{
  Bool-cases, inr, inl, sym, ℕ, zero, suc, ◌+◌, ◌≡◌, refl, ap, ◌∙◌, Bool, true, false, Option, none,
  some, List, [], ◌∷◌, ◌++◌, map, append-nil, arith, nat_eq, length, filter, length-append,
  length-map,
}
use patent_landscapes.Ingest.Model.{
  fetch_invalid_request, fetch_not_found, fetch_ok, not_found, invalid_request, failed,
  fetch_failed, FetchStatus, Source, IngestError, Fetched, Normalized, Store, IngestItem,
  is_fetched,
}
use patent_landscapes.Ingest.Record.{
  request_mismatches, already_stored, failed_outcome, has_raw, record_item, record_ok,
  record_stored, record_payload, settle_normalized, duplicate_item, stored_item, quarantined_item,
  store_documents, quarantine, with_raw, raw_of, unfetched_item, settle, with_item, row_of,
}
use patent_landscapes.Ingest.Reconcile.{final_items, raw_ids, document_total, is_fetched_item}

abbrev pub count_up : ℕ → ℕ → List ℕ
count_up k zero = []
count_up k (suc n) = k ∷ count_up (suc k) n

count_up-snoc : (k n : ℕ) → count_up k (suc n) ≡ count_up k n ++ (k + n) ∷ []
count_up-snoc k zero = ap (λ m. m ∷ []) (omega arith)
count_up-snoc k (suc n) =
    ap (λ ms. k ∷ ms)
      (count_up-snoc (suc k) n ∙ ap (λ m. count_up (suc k) n ++ m ∷ []) (omega arith))

filter-append :
    {A : Type 0} (p : A → Bool) (xs ys : List A) → filter p (xs ++ ys) ≡ filter p xs ++ filter p ys
filter-append p [] ys = refl
filter-append p (x ∷ xs) ys = ground (arith, filter-append p xs ys)

raw_ids-append : (xs ys : List IngestItem) → raw_ids (xs ++ ys) ≡ raw_ids xs ++ raw_ids ys
raw_ids-append [] ys = refl
raw_ids-append (x ∷ xs) ys = ground (arith, raw_ids-append xs ys)

document_total-append :
    (xs ys : List IngestItem) → document_total (xs ++ ys) ≡ document_total xs + document_total ys
document_total-append [] ys = omega arith
document_total-append (x ∷ xs) ys = omega (arith, document_total-append xs ys)

-- The fetched items name the raw records in their order, and count the documents.
abbrev pub IsConsistent : Store → Type 0
IsConsistent s =
    (raw_ids (final_items s.items) ≡ count_up 0 (length s.raws))
    × (length s.documents ≡ document_total (final_items s.items))

-- The same in a transaction that has added a raw record and some documents, before its item.
abbrev IsUnsettled : ℕ → ℕ → Store → Type 0
IsUnsettled raw added s =
    (raw_ids (final_items s.items) ≡ count_up 0 raw)
    × (length s.raws ≡ suc raw)
    × (length s.documents ≡ document_total (final_items s.items) + added)

with_item-unfetched :
    (item : IngestItem) (s : Store)
    → is_fetched item.outcome ≡ false
    → IsConsistent s
    → IsConsistent (with_item item s)
with_item-unfetched item s e (ids, total) =
    rw (filter-append is_fetched_item s.items (item ∷ []), e, append-nil) (ids, total)

with_item-fetched :
    (item : IngestItem) (s : Store) (raw : ℕ)
    → is_fetched item.outcome ≡ true
    → item.raw_record_id ≡ some raw
    → IsUnsettled raw item.document_count s
    → IsConsistent (with_item item s)
with_item-fetched item s raw e r (ids, raws, total) =
    let split = filter-append is_fetched_item s.items (item ∷ []) in
    (
      rw (split, e, raw_ids-append, ids, r, raws)
          (sym (count_up-snoc 0 raw ∙ ap (λ m. count_up 0 raw ++ m ∷ []) (omega arith))),
      rw (split, e, document_total-append) (omega arith),
    )

settle-IsConsistent :
    (f : Fetched) (n : Normalized) (raw : ℕ) (reasons : List Text) (duplicate_of : Option Text)
    (s : Store)
    → IsUnsettled raw 0 s
    → IsConsistent (settle f n raw reasons duplicate_of s)
unfolding settle
settle-IsConsistent f n raw [] (some d) s h =
    with_item-fetched (duplicate_item f n raw d) s raw refl refl h
settle-IsConsistent f n raw [] none s (ids, raws, total) =
    with_item-fetched (stored_item f n raw) (store_documents raw n.documents s) raw refl refl (
      ids,
      raws,
      omega (
        arith,
        length-append s.documents (map (row_of raw) n.documents),
        length-map (row_of raw) n.documents,
      ),
    )
settle-IsConsistent f n raw (r ∷ reasons) d s h =
    with_item-fetched (quarantined_item f n raw (r ∷ reasons)) (quarantine raw (r ∷ reasons) s) raw
      refl refl h

-- What a transaction leaves: nothing on an error.
abbrev pub Keeps : (Store → Type 0) → Result IngestError Store → Type 0
Keeps P (ok s) = P s
Keeps P (err e) = Unit

module _ (u : Unicode) (source : Source) where
  settle_normalized-IsConsistent :
      (f : Fetched) (raw : ℕ) (s : Store) (r : Result Text Normalized)
      → IsUnsettled raw 0 s
      → Keeps IsConsistent (settle_normalized u f raw s r)
  settle_normalized-IsConsistent f raw s (err e) h = tt
  settle_normalized-IsConsistent f raw s (ok n) h = go (request_mismatches u f n.documents)
    where
      go :
          (r : Result IngestError (List Text))
          → Keeps IsConsistent (
              r >>= λ wrong.
              ok (settle f n raw (n.quarantine_reasons ++ wrong) (already_stored s n.documents) s))
      go (err e) = tt
      go (ok wrong) =
          settle-IsConsistent f n raw (n.quarantine_reasons ++ wrong) (already_stored s n.documents)
            s h

  record_payload-IsConsistent :
      (f : Fetched) (content : Text) (moment : ℕ) (object : Text × Text) (s : Store)
      → IsConsistent s
      → Keeps IsConsistent (record_payload u source f content moment object s)
  unfolding record_payload
  record_payload-IsConsistent f content moment object s (ids, total) =
      elim (Bool-cases (has_raw f.requested_key s.raws)) [
        | inl e ↦ rw e tt
        | inr e ↦ rw e (
            settle_normalized-IsConsistent f (length s.raws)
              (with_raw (raw_of f content moment object) s)
              (source.normalize content (length s.raws) moment)
              (
                ids,
                omega (arith, length-append s.raws (raw_of f content moment object ∷ [])),
                omega arith,
              ))
      ]

  record_stored-IsConsistent :
      (f : Fetched) (content : Text) (moment : ℕ) (s : Store) (object : Result Text (Text × Text))
      → IsConsistent s
      → Keeps IsConsistent (record_stored u source f content moment s object)
  record_stored-IsConsistent f content moment s (err e) h = tt
  record_stored-IsConsistent f content moment s (ok object) h =
      record_payload-IsConsistent f content moment object s h

  record_ok-IsConsistent :
      (f : Fetched) (content : Option Text) (moment : Option ℕ) (s : Store)
      → IsConsistent s
      → Keeps IsConsistent (record_ok u source f content moment s)
  record_ok-IsConsistent f none moment s h = tt
  record_ok-IsConsistent f (some c) none s h = tt
  record_ok-IsConsistent f (some c) (some m) s h = record_stored-IsConsistent f c m s _ h

  pub record_item-IsConsistent :
      (f : Fetched) (s : Store) → IsConsistent s → Keeps IsConsistent (record_item u source f s)
  unfolding record_item
  record_item-IsConsistent f s h = go f.status
    where
      go :
          (status : FetchStatus)
          → Keeps IsConsistent (elim (failed_outcome status) [
            | some outcome ↦ ok (with_item (unfetched_item f outcome) s)
            | none ↦ record_ok u source f f.content f.retrieved_at s
          ])
      go fetch_ok = record_ok-IsConsistent f f.content f.retrieved_at s h
      go fetch_not_found = with_item-unfetched (unfetched_item f not_found) s refl h
      go fetch_invalid_request = with_item-unfetched (unfetched_item f invalid_request) s refl h
      go fetch_failed = with_item-unfetched (unfetched_item f failed) s refl h

  pub record_all-IsConsistent :
      (fs : List Fetched) (end : Option Text) (s : Store)
      → IsConsistent s
      → IsConsistent (record_all u source fs end s).1
  unfolding record_all
  record_all-IsConsistent [] none s h = h
  record_all-IsConsistent [] (some e) s h = h
  record_all-IsConsistent (f ∷ fs) end s h =
      go (record_item u source f s) (record_item-IsConsistent f s h)
        (record_all-IsConsistent fs end)
    where
      go :
          (r : Result IngestError Store)
          → Keeps IsConsistent r
          → ((s' : Store) → IsConsistent s' → IsConsistent (record_all u source fs end s').1)
          → IsConsistent (then_record r s (record_all u source fs end)).1
      go (err e) k next = h
      go (ok s') k next = next s' k
