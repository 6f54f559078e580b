-- ===== src/Patent/Tests.antt =====
-- The validators at a document, and at the same document with a fault.
use patent_landscapes.Publication.{text}
use patent_landscapes.Base.Dict.{get}
use patent_landscapes.Base.{ℕ, ◌≡◌, refl, ◌↔◌, none, some, [], ◌∷◌, nat_eq}
use patent_landscapes.Base.Text.{text_beq, codes, text_eq}
use patent_landscapes.Base.Result.{ok}
use patent_landscapes.Patent.{
  CanonicalField-discrete, CanonicalField, PatentDocument, Party, applicant, Priority,
  not_requested, not_provided_by_source, Problem, problems, party_problems, reference_problems, npl,
  unknown,
}
use patent_landscapes.Patent.Fields.{validate, document_faults}
use patent_landscapes.Patent.Validity.{IsDocument, validate_iff}

abbrev acme : Party
acme = record {
  role = applicant;
  sequence = 1;
  name_raw = codes "Acme";
  country = none;
  country_missing = some not_provided_by_source;
}

abbrev priority : ℕ → Priority
priority date = record { number_raw = codes "P"; country = codes "US"; date = date }

abbrev pub doc : PatentDocument
doc = record {
  raw_record_id = codes "r";
  source_id = codes "s";
  publication = record {
    country = codes "US";
    number = codes "10123456";
    kind = some (codes "B2");
  };
  publication_number_raw = codes "US10123456B2";
  application_number_raw = none;
  family_id_simple = none;
  family_id_extended = none;
  family_members = some (codes "EP1234A1" ∷ []);
  earliest_priority_date = some 700;
  priorities = some (priority 730 ∷ priority 700 ∷ []);
  filing_date = none;
  publication_date = none;
  grant_date = none;
  title = none;
  abstract = none;
  claims = none;
  language = none;
  applicants = some (acme ∷ []);
  inventors = none;
  cpc = none;
  ipc = none;
  legal_status = none;
  backward_citations = none;
  forward_citations = none;
  missing =
      (CanonicalField.application_number_raw, not_requested)
      ∷ (CanonicalField.family_id_simple, not_requested)
      ∷ (CanonicalField.family_id_extended, not_requested)
      ∷ (CanonicalField.filing_date, not_requested)
      ∷ (CanonicalField.publication_date, not_requested)
      ∷ (CanonicalField.grant_date, not_requested)
      ∷ (CanonicalField.title, not_requested)
      ∷ (CanonicalField.abstract, not_requested)
      ∷ (CanonicalField.claims, not_requested)
      ∷ (CanonicalField.language, not_requested)
      ∷ (CanonicalField.inventors, not_requested)
      ∷ (CanonicalField.cpc_codes, not_requested)
      ∷ (CanonicalField.ipc_codes, not_requested)
      ∷ (CanonicalField.legal_status, not_requested)
      ∷ (CanonicalField.backward_citations, not_requested)
      ∷ (CanonicalField.forward_citations, not_requested)
      ∷ [];
}

doc_accepted : validate doc ≡ ok doc
unfolding validate get CanonicalField-discrete text_beq text
doc_accepted = refl

doc_faults :
    problems (record doc { earliest_priority_date = some 730; title = some (codes "T") })
    ≡ Problem.contradictory CanonicalField.title ∷ Problem.earliest_differs ∷ []
unfolding problems get CanonicalField-discrete text_beq text
doc_faults = refl

acme_accepted : party_problems acme ≡ []
unfolding party_problems
acme_accepted = refl

npl_refused :
    reference_problems (record {
      kind = npl;
      publication_number = none;
      publication_number_raw = none;
      npl_text = none;
      origin = unknown;
    })
    ≡ Problem.npl_without_text ∷ []
unfolding reference_problems
npl_refused = refl

-- A language that is no code of two letters, and a party with neither a country nor a reason.
fields_refused :
    document_faults (record doc {
      language = some (codes "english");
      applicants = some (record acme { country_missing = none } ∷ []);
    })
    ≡ Problem.not_valid (codes "language") ∷ Problem.country_unexplained ∷ []
unfolding document_faults text_beq
fields_refused = refl

validate_iff_example : (validate doc ≡ ok doc) ↔ IsDocument doc
validate_iff_example = validate_iff doc
