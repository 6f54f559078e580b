-- ===== src/Clean/Copies.antt =====
-- `_choose_copies` and `_conflicts` of src/patsquire_plr/clean/dataset.py. A document identifier is the
-- text that `str` gives its UUID, a retrieval time its instant as a number. What Pydantic's
-- `model_dump` and `json.dumps` make of a document, field names with JSON texts, is a parameter.
pub mod Partition
pub mod Groups
pub mod Latest
pub mod Tests
use patent_landscapes.Base.{
  ℕ, Bool, true, not, ◌&&◌, ◌||◌, Option, none, some, List, [], ◌∷◌, ◌++◌, map, ltb, ◌==◌,
  if◌then◌else◌, nat_eq, length, filter, all,
}
use patent_landscapes.Base.Text.{Text, codes, text_eq, text_beq, text_le}
use patent_landscapes.Base.Sort.{sorted}
use patent_landscapes.Base.Dict
use patent_landscapes.Publication.{text}
use patent_landscapes.Patent.{PatentDocument}

pub record InputDocument : Type 0 where
  pub document_id : Text
  pub retrieved_at : ℕ
  pub document : PatentDocument

-- `item.document.publication.text`.
abbrev pub publication_of : InputDocument → Text
publication_of c = text c.document.publication

-- A decision, with its reason `superseded_copy` and the kept copy that its detail names.
pub data Decision : Type 0 where
  selected : Decision
  superseded_copy : Text → ℕ → Decision

pub record DocumentDecision : Type 0 where
  pub document_id : Text
  pub publication : Text
  pub decision : Decision

pub record Conflict : Type 0 where
  pub publication : Text
  pub field : Text
  pub values : List (Text × Text)

abbrev pub or_nil : {A : Type 0} → Option (List A) → List A
or_nil none = []
or_nil (some xs) = xs

-- `by_publication[key].append(item)` on a `defaultdict(list)`.
unfoldable pub append_to :
    Text → InputDocument → List (Text × List InputDocument) → List (Text × List InputDocument)
append_to key item [] = (key, item ∷ []) ∷ []
append_to key item ((k, items) ∷ d) =
    if text_beq k key then (k, items ++ item ∷ []) ∷ d else (k, items) ∷ append_to key item d

-- The first loop.
unfoldable pub group_from :
    List (Text × List InputDocument) → List InputDocument → List (Text × List InputDocument)
unfolding append_to
group_from d [] = d
group_from d (item ∷ items) = group_from (append_to (publication_of item) item d) items

-- `(c.retrieved_at, str(c.document_id))`, as the order of the copies.
abbrev pub older : InputDocument → InputDocument → Bool
older a b =
    ltb a.retrieved_at b.retrieved_at
    || (a.retrieved_at == b.retrieved_at && text_le a.document_id b.document_id)

abbrev pub by_key : {A : Type 0} → Text × A → Text × A → Bool
by_key a b = text_le a.0 b.0

-- `copies[:-1]` and `copies[-1]`.
unfoldable pub others : {A : Type 0} → A → List A → List A
others c [] = []
others c (d ∷ ds) = c ∷ others d ds

unfoldable pub last : {A : Type 0} → A → List A → A
last c [] = c
last c (d ∷ ds) = last d ds

abbrev pub superseded : Text → InputDocument → InputDocument → DocumentDecision
superseded publication keep other = record {
  document_id = other.document_id;
  publication = publication;
  decision = superseded_copy keep.document_id keep.retrieved_at;
}

abbrev pub kept : Text → InputDocument → DocumentDecision
kept publication keep = record {
  document_id = keep.document_id;
  publication = publication;
  decision = selected;
}

abbrev pub identity_fields : List Text
identity_fields = codes "raw_record_id" ∷ codes "source_id" ∷ []

-- The choice for one publication, whose copies are never none.
pub record Choice : Type 0 where
  pub decisions : List DocumentDecision
  pub keep : Option InputDocument

unfoldable pub choose_sorted : Text → List InputDocument → Choice
unfolding others last
choose_sorted publication [] = record { decisions = []; keep = none }
choose_sorted publication (c ∷ cs) =
    let keep = last c cs in
    record {
      decisions = kept publication keep ∷ map (superseded publication keep) (others c cs);
      keep = some keep;
    }

unfoldable pub choose : Text × List InputDocument → Choice
unfolding choose_sorted sorted
choose (publication, copies) = choose_sorted publication (sorted older copies)

abbrev pub entry_of : Text → Option InputDocument → List (Text × InputDocument)
entry_of publication none = []
entry_of publication (some keep) = (publication, keep) ∷ []

module _ (dump : PatentDocument → List (Text × Text)) where
  -- `d.get(name)` as JSON: a field that a copy lacks is `null`.
  abbrev pub value_in : Text → InputDocument → Text
  value_in name c = elim (Dict.get name (dump c.document)) [ none ↦ codes "null" | some v ↦ v ]

  abbrev pub field_names : List InputDocument → List Text
  field_names [] = []
  field_names (c ∷ cs) = map (λ (f : Text × Text). f.0) (dump c.document) ++ field_names cs

  -- `sorted(set().union(...) - _IDENTITY_FIELDS)`.
  unfoldable pub compared_fields : List InputDocument → List Text
  unfolding sorted
  compared_fields copies = sorted text_le (
      filter (λ n. not (Dict.contains n identity_fields))
        (Dict.distinct_from [] (field_names copies)))

  -- `{doc_id: value}`: one entry for each identifier, the last value for a repeated one.
  unfoldable pub values_of : Text → List InputDocument → List (Text × Text) → List (Text × Text)
  values_of name [] d = d
  values_of name (c ∷ cs) d = values_of name cs (Dict.put c.document_id (value_in name c) d)

  abbrev pub all_equal : List (Text × Text) → Bool
  all_equal [] = true
  all_equal (v ∷ vs) = all (λ (w : Text × Text). text_beq w.1 v.1) vs

  unfoldable pub conflicts_in : Text → List InputDocument → List Text → List Conflict
  unfolding values_of
  conflicts_in publication copies [] = []
  conflicts_in publication copies (name ∷ names) =
      let values = values_of name copies [] in
      let rest = conflicts_in publication copies names in
      if all_equal values
      then rest
      else record { publication = publication; field = name; values = values } ∷ rest

  -- `_conflicts`.
  unfoldable pub conflicts : Text → List InputDocument → List Conflict
  unfolding conflicts_in compared_fields
  conflicts publication copies =
      if ltb (length copies) 2 then [] else conflicts_in publication copies (compared_fields copies)

  pub record Chosen : Type 0 where
    pub decisions : List DocumentDecision
    pub found : List Conflict
    pub kept_copies : List (Text × InputDocument)

  -- The second loop, over the publications in order.
  unfoldable pub choose_all : List (Text × List InputDocument) → Chosen
  unfolding choose conflicts sorted
  choose_all [] = record { decisions = []; found = []; kept_copies = [] }
  choose_all ((publication, copies) ∷ groups) =
      let c = choose (publication, copies) in
      let rest = choose_all groups in
      record {
        decisions = c.decisions ++ rest.decisions;
        found = conflicts publication (sorted older copies) ++ rest.found;
        kept_copies = entry_of publication c.keep ++ rest.kept_copies;
      }

  -- `_choose_copies`.
  unfoldable pub choose_copies : List InputDocument → Chosen
  unfolding choose_all group_from sorted
  choose_copies inputs = choose_all (sorted by_key (group_from [] inputs))
