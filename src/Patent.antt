-- ===== src/Patent.antt =====
-- The canonical patent record of src/patsquire_plr/domain/patent.py and its validators; those of the
-- fields and of the parts of a record are in `Fields`, with the whole. A date is its
-- ordinal number, a UUID the text that `str` gives it.
pub mod Fields
pub mod Conditions
mod Parts
pub mod Validity
pub mod Tests
use patent_landscapes.Base.{
  ℕ, ◌+◌, ◌≡◌, ◌↔◌, Bool, true, false, not, ◌&&◌, ◌||◌, Option, none, some, List, [], ◌∷◌, ◌++◌,
  ltb, ◌==◌, if◌then◌else◌, is_some, decided, decided_iff, Eq, nat_eq, any,
}
use patent_landscapes.Base.Text.{Text, text_eq}
use patent_landscapes.Base.Result.{Result, ok, err}
use patent_landscapes.Base.Dict
use patent_landscapes.Publication.{PublicationNumber, text}
use Prim.Native.Nat.{min}

pub data MissingReason : Type 0 where
  not_provided_by_source not_applicable unparseable not_requested : MissingReason

pub data Role : Type 0 where
  applicant inventor : Role

pub record Party : Type 0 where
  pub role : Role
  pub sequence : ℕ
  pub name_raw : Text
  pub country : Option Text
  pub country_missing : Option MissingReason

pub record Priority : Type 0 where
  pub number_raw : Text
  pub country : Text
  pub date : ℕ

pub data Scheme : Type 0 where
  cpc ipc : Scheme

pub record ClassificationCode : Type 0 where
  pub scheme : Scheme
  pub code : Text
  pub code_raw : Text

pub data ReferenceKind : Type 0 where
  patent npl : ReferenceKind

pub data Origin : Type 0 where
  by_examiner by_applicant by_third_party unknown : Origin

pub record CitedReference : Type 0 where
  pub kind : ReferenceKind
  pub publication_number : Option Text
  pub publication_number_raw : Option Text
  pub npl_text : Option Text
  pub origin : Origin

pub data Category : Type 0 where
  pending granted active lapsed expired withdrawn refused revoked other : Category

pub record LegalStatus : Type 0 where
  pub category : Category
  pub status_raw : Text
  pub as_of : ℕ

pub record ForwardCitations : Type 0 where
  pub citing_publication_numbers : List Text
  pub as_of : ℕ

pub data CanonicalField : Type 0 where
  application_number_raw family_id_simple family_id_extended family_members : CanonicalField
  earliest_priority_date priorities filing_date publication_date grant_date : CanonicalField
  title abstract claims language applicants inventors cpc_codes ipc_codes : CanonicalField
  legal_status backward_citations forward_citations : CanonicalField

pub CanonicalField-discrete : Discrete CanonicalField
CanonicalField-discrete = hlevel

abbrev field_beq : CanonicalField → CanonicalField → Bool
field_beq f g = decided (CanonicalField-discrete f g)

pub field_beq_iff : (f g : CanonicalField) → (field_beq f g ≡ true) ↔ (f ≡ g)
field_beq_iff f g = decided_iff (CanonicalField-discrete f g)

instance abbrev pub field_eq : Eq CanonicalField
field_eq = record { beq = field_beq; beq_iff = field_beq_iff }

-- `CANONICAL_OPTIONAL_FIELDS`.
abbrev pub canonical_optional_fields : List CanonicalField
canonical_optional_fields =
    application_number_raw ∷ family_id_simple ∷ family_id_extended ∷ family_members
    ∷ earliest_priority_date ∷ priorities ∷ filing_date ∷ publication_date ∷ grant_date ∷ title
    ∷ abstract ∷ claims ∷ language ∷ applicants ∷ inventors ∷ cpc_codes ∷ ipc_codes ∷ legal_status
    ∷ backward_citations ∷ forward_citations ∷ []

pub record PatentDocument : Type 0 where
  pub raw_record_id : Text
  pub source_id : Text
  pub publication : PublicationNumber
  pub publication_number_raw : Text
  pub application_number_raw : Option Text
  pub family_id_simple : Option Text
  pub family_id_extended : Option Text
  pub family_members : Option (List Text)
  pub earliest_priority_date : Option ℕ
  pub priorities : Option (List Priority)
  pub filing_date : Option ℕ
  pub publication_date : Option ℕ
  pub grant_date : Option ℕ
  pub title : Option Text
  pub abstract : Option Text
  pub claims : Option Text
  pub language : Option Text
  pub applicants : Option (List Party)
  pub inventors : Option (List Party)
  pub cpc : Option (List ClassificationCode)
  pub ipc : Option (List ClassificationCode)
  pub legal_status : Option LegalStatus
  pub backward_citations : Option (List CitedReference)
  pub forward_citations : Option ForwardCitations
  pub missing : List (CanonicalField × MissingReason)

-- `PatentDocument.filing_office`.
abbrev pub filing_office : PatentDocument → Text
filing_office d = d.publication.country

-- `getattr(self, name) is not None`.
unfoldable pub is_present : PatentDocument → CanonicalField → Bool
is_present d application_number_raw = is_some d.application_number_raw
is_present d family_id_simple = is_some d.family_id_simple
is_present d family_id_extended = is_some d.family_id_extended
is_present d family_members = is_some d.family_members
is_present d earliest_priority_date = is_some d.earliest_priority_date
is_present d priorities = is_some d.priorities
is_present d filing_date = is_some d.filing_date
is_present d publication_date = is_some d.publication_date
is_present d grant_date = is_some d.grant_date
is_present d title = is_some d.title
is_present d abstract = is_some d.abstract
is_present d claims = is_some d.claims
is_present d language = is_some d.language
is_present d applicants = is_some d.applicants
is_present d inventors = is_some d.inventors
is_present d cpc_codes = is_some d.cpc
is_present d ipc_codes = is_some d.ipc
is_present d legal_status = is_some d.legal_status
is_present d backward_citations = is_some d.backward_citations
is_present d forward_citations = is_some d.forward_citations

-- The messages of the validators.
pub data Problem : Type 0 where
  unexplained contradictory : CanonicalField → Problem
  wrong_role wrong_sequence : CanonicalField → Problem
  wrong_scheme : CanonicalField → Problem
  lists_itself repeats earliest_differs published_before_filed : Problem
  country_unexplained country_contradictory : Problem
  patent_without_number patent_with_npl npl_without_text : Problem
  not_valid : Text → Problem

-- `_check_value_xor_reason`, as one of two problems.
abbrev pub xor_problem : Bool → Bool → Problem → Problem → List Problem
xor_problem false false none_given both_given = none_given ∷ []
xor_problem true true none_given both_given = both_given ∷ []
xor_problem true false none_given both_given = []
xor_problem false true none_given both_given = []

-- `Party._country_xor_reason`.
unfoldable pub party_problems : Party → List Problem
party_problems p =
    xor_problem (is_some p.country) (is_some p.country_missing) country_unexplained
      country_contradictory

-- `CitedReference._shape_matches_kind`: the first problem is raised.
unfoldable pub reference_problems : CitedReference → List Problem
reference_problems c = elim c.kind [
  | patent ↦
      if not (is_some c.publication_number) || not (is_some c.publication_number_raw)
      then patent_without_number ∷ []
      else if is_some c.npl_text
      then patent_with_npl ∷ []
      else []
  | npl ↦
      if not (is_some c.npl_text) || is_some c.publication_number then npl_without_text ∷ [] else []
]

abbrev pub report : Bool → Problem → List Problem
report true p = p ∷ []
report false p = []

-- The first loop of `_every_field_present_or_explained`.
unfoldable pub field_problems : PatentDocument → List CanonicalField → List Problem
unfolding is_present
field_problems d [] = []
field_problems d (f ∷ fs) =
    xor_problem (is_present d f) (is_some (Dict.get f d.missing)) (unexplained f) (contradictory f)
    ++ field_problems d fs

abbrev pub has_role : Role → Party → Bool
has_role applicant p = elim p.role [ applicant ↦ true | inventor ↦ false ]
has_role inventor p = elim p.role [ applicant ↦ false | inventor ↦ true ]

abbrev pub has_scheme : Scheme → ClassificationCode → Bool
has_scheme cpc c = elim c.scheme [ cpc ↦ true | ipc ↦ false ]
has_scheme ipc c = elim c.scheme [ cpc ↦ false | ipc ↦ true ]

-- `[p.sequence for p in parties] == list(range(n, n + len(parties)))`.
unfoldable pub in_sequence : ℕ → List Party → Bool
in_sequence n [] = true
in_sequence n (p ∷ ps) = p.sequence == n && in_sequence (n + 1) ps

unfoldable pub role_problems : CanonicalField → Role → Option (List Party) → List Problem
unfolding in_sequence
role_problems f role none = []
role_problems f role (some ps) =
    report (any (λ p. not (has_role role p)) ps) (wrong_role f)
    ++ report (not (in_sequence 1 ps)) (wrong_sequence f)

unfoldable pub scheme_problems :
    CanonicalField → Scheme → Option (List ClassificationCode) → List Problem
scheme_problems f scheme none = []
scheme_problems f scheme (some cs) =
    report (any (λ c. not (has_scheme scheme c)) cs) (wrong_scheme f)

-- `_role_and_scheme_problems`.
unfoldable pub role_and_scheme_problems : PatentDocument → List Problem
unfolding role_problems scheme_problems
role_and_scheme_problems d =
    role_problems applicants applicant d.applicants
    ++ (role_problems inventors inventor d.inventors
        ++ (scheme_problems cpc_codes cpc d.cpc ++ scheme_problems ipc_codes ipc d.ipc))

-- `len(set(xs)) != len(xs)`.
unfoldable pub has_repeats : List Text → Bool
has_repeats [] = false
has_repeats (x ∷ xs) = Dict.contains x xs || has_repeats xs

unfoldable pub family_problems : PatentDocument → List Problem
unfolding has_repeats
family_problems d = elim d.family_members [
  | none ↦ []
  | some ms ↦
      report (Dict.contains (text d.publication) ms) lists_itself ++ report (has_repeats ms) repeats
]

-- `min(p.date for p in priorities)`, for a first priority and the others.
abbrev pub earliest : ℕ → List Priority → ℕ
earliest d [] = d
earliest d (p ∷ ps) = earliest (min d p.date) ps

unfoldable pub priority_problems : Option (List Priority) → Option ℕ → List Problem
priority_problems none date = []
priority_problems (some []) date = []
priority_problems (some (p ∷ ps)) none = []
priority_problems (some (p ∷ ps)) (some date) =
    report (not (earliest p.date ps == date)) earliest_differs

unfoldable pub publication_problems : Option ℕ → Option ℕ → List Problem
publication_problems none published = []
publication_problems (some filed) none = []
publication_problems (some filed) (some published) =
    report (ltb published filed) published_before_filed

-- `_date_order_problems`.
unfoldable pub date_order_problems : PatentDocument → List Problem
unfolding priority_problems publication_problems
date_order_problems d =
    priority_problems d.priorities d.earliest_priority_date
    ++ publication_problems d.filing_date d.publication_date

-- `_every_field_present_or_explained`: the document is refused if there is a problem.
unfoldable pub problems : PatentDocument → List Problem
unfolding field_problems role_and_scheme_problems family_problems date_order_problems
problems d =
    field_problems d canonical_optional_fields
    ++ (role_and_scheme_problems d ++ (family_problems d ++ date_order_problems d))

abbrev pub refuse_if_any : {A : Type 0} → A → List Problem → Result (List Problem) A
refuse_if_any a [] = ok a
refuse_if_any a (p ∷ ps) = err (p ∷ ps)
