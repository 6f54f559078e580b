-- ===== src/Ingest/Record.antt =====
-- `_matches_request`, `_already_stored` and `_record` of src/patsquire_plr/ingest/runner.py. Of the
-- database's constraints, the one that is modelled is that a batch has one raw record for a key.
use patent_landscapes.Base.Result.{◌>>=◌, err, ok, Result}
use patent_landscapes.Base.{
  ℕ, Bool, true, false, not, ◌&&◌, ◌||◌, Option, none, some, List, [], ◌∷◌, ◌++◌, map, ◌==◌,
  if◌then◌else◌, is_some, nat_eq, length, get_elem?, any,
}
use patent_landscapes.Base.Text.{codes, Unicode, text_beq, Text, join}
use patent_landscapes.Publication.{
  text, PublicationNumber, NormalizationError, normalize_publication_number,
}
use patent_landscapes.Patent.{PatentDocument}
use patent_landscapes.Ingest.Model.{
  Fetched, FetchStatus, fetch_ok, fetch_not_found, fetch_invalid_request, fetch_failed, Normalized,
  ItemOutcome, stored, quarantined, duplicate, not_found, invalid_request, failed, IngestItem,
  RawRecord, PatentDocumentRow, Store, IngestError, refused, raised, Source,
}

abbrev pub same_kind : Option Text → Option Text → Bool
same_kind none none = true
same_kind (some k) (some l) = text_beq k l
same_kind none (some l) = false
same_kind (some k) none = false

-- `a[0] == b[0]`, for kinds that are not empty.
abbrev pub same_letter : Option Text → Option Text → Bool
same_letter (some (a ∷ k)) (some (b ∷ l)) = a == b
same_letter _ _ = false

-- `_matches_request`, at the requested number.
unfoldable pub matches : PublicationNumber → PublicationNumber → Bool → Bool
matches served requested kind_fallback =
    let same_number =
      text_beq served.country requested.country && text_beq served.number requested.number in
    if not (is_some requested.kind) || same_kind served.kind requested.kind
    then same_number
    else same_number && (kind_fallback && same_letter served.kind requested.kind)

abbrev pub served_text : PatentDocument → Text
served_text d = text d.publication

-- The mismatches among the documents, at the requested number.
unfoldable pub mismatches :
    Text → PublicationNumber → Bool → List (PatentDocument × Text) → List Text
unfolding matches
mismatches key requested kind_fallback [] = []
mismatches key requested kind_fallback ((d, pointer) ∷ documents) =
    let rest = mismatches key requested kind_fallback documents in
    if matches d.publication requested kind_fallback
    then rest
    else (codes "source served " ++ (served_text d ++ (codes " for requested " ++ key))) ∷ rest

-- The requested key is parsed only if there is a document; a key that is no number raises.
abbrev pub mismatches_at :
    Text
    → Bool
    → List (PatentDocument × Text)
    → Result NormalizationError PublicationNumber
    → Result IngestError (List Text)
mismatches_at key kind_fallback documents (ok requested) =
    ok (mismatches key requested kind_fallback documents)
mismatches_at key kind_fallback documents (err e) = err (raised (codes "NormalizationError"))

unfoldable pub request_mismatches :
    Unicode → Fetched → List (PatentDocument × Text) → Result IngestError (List Text)
unfolding mismatches
request_mismatches u f [] = ok []
request_mismatches u f (d ∷ documents) =
    mismatches_at f.requested_key f.kind_fallback (d ∷ documents)
      (normalize_publication_number u f.requested_key)

-- `_already_stored`: the key of the first row with the publication of the first document that has one.
abbrev pub same_publication : PublicationNumber → PublicationNumber → Bool
same_publication p q =
    text_beq p.country q.country && text_beq p.number q.number && same_kind p.kind q.kind

abbrev pub key_of_raw : List RawRecord → ℕ → Option Text
key_of_raw raws i = elim (get_elem? raws i) [ none ↦ none | some r ↦ some r.source_record_key ]

unfoldable pub row_key : List RawRecord → PublicationNumber → List PatentDocumentRow → Option Text
row_key raws p [] = none
row_key raws p (row ∷ rows) =
    let rest = row_key raws p rows in
    if same_publication row.document.publication p then key_of_raw raws row.raw_record_id else rest

unfoldable pub already_stored : Store → List (PatentDocument × Text) → Option Text
unfolding row_key
already_stored s [] = none
already_stored s ((d, pointer) ∷ documents) = elim (row_key s.raws d.publication s.documents) [
  | some key ↦ some key
  | none ↦ already_stored s documents
]

abbrev pub shown : Option Text → Text
shown none = codes "None"
shown (some t) = t

-- `notes`.
abbrev pub notes_of : Fetched → Normalized → List Text
notes_of f n =
    if f.kind_fallback
    then (shown f.detail
        ++ (codes "; served "
            ++ join (codes ", ")
                (map (λ (d : PatentDocument × Text). served_text d.0) n.documents)))
      ∷ n.warnings
    else n.warnings

-- `"; ".join(...) or None`.
abbrev pub detail_or_none : List Text → Option Text
detail_or_none [] = none
detail_or_none (t ∷ ts) = elim (join (codes "; ") (t ∷ ts)) [ [] ↦ none | c ∷ cs ↦ some (c ∷ cs) ]

abbrev pub row_of : ℕ → PatentDocument × Text → PatentDocumentRow
row_of raw (d, pointer) = record { raw_record_id = raw; raw_pointer = pointer; document = d }

abbrev pub with_item : IngestItem → Store → Store
with_item item s = record s { items = s.items ++ item ∷ [] }

abbrev pub item_of : Fetched → ItemOutcome → ℕ → ℕ → Option Text → IngestItem
item_of f outcome raw count detail = record {
  requested_key = f.requested_key;
  outcome = outcome;
  raw_record_id = some raw;
  document_count = count;
  detail = detail;
}

abbrev pub duplicate_item : Fetched → Normalized → ℕ → Text → IngestItem
duplicate_item f n raw duplicate_of = item_of f duplicate raw 0 (
    some (
      join (codes "; ")
        ((codes "same publication as requested key " ++ duplicate_of) ∷ notes_of f n)))

abbrev pub stored_item : Fetched → Normalized → ℕ → IngestItem
stored_item f n raw = item_of f stored raw (length n.documents) (detail_or_none (notes_of f n))

abbrev pub quarantined_item : Fetched → Normalized → ℕ → List Text → IngestItem
quarantined_item f n raw reasons =
    item_of f quarantined raw 0 (detail_or_none (reasons ++ notes_of f n))

abbrev pub store_documents : ℕ → List (PatentDocument × Text) → Store → Store
store_documents raw documents s = record s { documents = s.documents ++ map (row_of raw) documents }

abbrev pub quarantine : ℕ → List Text → Store → Store
quarantine raw reasons s = record s {
  quarantined_records =
      s.quarantined_records ++ record { raw_record_id = raw; reasons = reasons } ∷ [];
}

-- The outcome of an item whose payload is stored raw under the identifier: without reasons, the
-- documents are stored unless one is there already; with reasons, the payload is quarantined.
unfoldable pub settle : Fetched → Normalized → ℕ → List Text → Option Text → Store → Store
settle f n raw [] (some duplicate_of) s = with_item (duplicate_item f n raw duplicate_of) s
settle f n raw [] none s = with_item (stored_item f n raw) (store_documents raw n.documents s)
settle f n raw (r ∷ reasons) duplicate_of s =
    with_item (quarantined_item f n raw (r ∷ reasons)) (quarantine raw (r ∷ reasons) s)

abbrev pub failed_outcome : FetchStatus → Option ItemOutcome
failed_outcome fetch_ok = none
failed_outcome fetch_not_found = some not_found
failed_outcome fetch_invalid_request = some invalid_request
failed_outcome fetch_failed = some failed

unfoldable pub has_raw : Text → List RawRecord → Bool
has_raw key raws = any (λ (r : RawRecord). text_beq r.source_record_key key) raws

abbrev pub type_or_default : Option Text → Text
type_or_default none = codes "application/octet-stream"
type_or_default (some t) = t

-- What follows `normalize`, in the transaction that has added the raw record.
abbrev pub settle_normalized :
    Unicode → Fetched → ℕ → Store → Result Text Normalized → Result IngestError Store
settle_normalized u f raw s (err e) = err (raised e)
settle_normalized u f raw s (ok n) = request_mismatches u f n.documents >>= λ wrong.
    ok (settle f n raw (n.quarantine_reasons ++ wrong) (already_stored s n.documents) s)

abbrev pub raw_of : Fetched → Text → ℕ → Text × Text → RawRecord
raw_of f content moment (object_key, hash) = record {
  source_record_key = f.requested_key;
  object_key = object_key;
  sha256 = hash;
  content_type = type_or_default f.content_type;
  byte_size = length content;
  retrieved_at = moment;
}

abbrev pub with_raw : RawRecord → Store → Store
with_raw raw s = record s { raws = s.raws ++ raw ∷ [] }

-- The transaction of a payload that is in the object storage under the key and the hash.
unfoldable pub record_payload :
    Unicode → Source → Fetched → Text → ℕ → Text × Text → Store → Result IngestError Store
unfolding settle request_mismatches already_stored has_raw
record_payload u source f content moment object s =
    if has_raw f.requested_key s.raws
    then err (raised (codes "IntegrityError"))
    else settle_normalized u f (length s.raws) (with_raw (raw_of f content moment object) s)
        (source.normalize content (length s.raws) moment)

abbrev pub record_stored :
    Unicode
    → Source
    → Fetched
    → Text
    → ℕ
    → Store
    → Result Text (Text × Text)
    → Result IngestError Store
record_stored u source f content moment s (err e) = err (raised e)
record_stored u source f content moment s (ok object) =
    record_payload u source f content moment object s

abbrev pub record_ok :
    Unicode → Source → Fetched → Option Text → Option ℕ → Store → Result IngestError Store
record_ok u source f none moment s =
    err (refused (f.requested_key ++ codes ": 'ok' fetch without content or timestamp"))
record_ok u source f (some content) none s =
    err (refused (f.requested_key ++ codes ": 'ok' fetch without content or timestamp"))
record_ok u source f (some content) (some moment) s =
    record_stored u source f content moment s (source.put content (type_or_default f.content_type))

abbrev pub unfetched_item : Fetched → ItemOutcome → IngestItem
unfetched_item f outcome = record {
  requested_key = f.requested_key;
  outcome = outcome;
  raw_record_id = none;
  document_count = 0;
  detail = f.detail;
}

-- `_record`.
unfoldable pub record_item : Unicode → Source → Fetched → Store → Result IngestError Store
unfolding record_payload
record_item u source f s = elim (failed_outcome f.status) [
  | some outcome ↦ ok (with_item (unfetched_item f outcome) s)
  | none ↦ record_ok u source f f.content f.retrieved_at s
]
