-- ===== src/Patent/Validity.antt =====
-- The validators of a document as a condition on it (src/patsquire_plr/domain/patent.py).
use patent_landscapes.Base.{◌≡◌, refl, ◌↔◌, not, List, [], ◌∷◌, is_some, nat_eq, All, true}
use patent_landscapes.Base.Text.{text_eq, codes}
use patent_landscapes.Base.Dict
use patent_landscapes.Publication.{text, fields_match}
use patent_landscapes.Patent.{
  date_order_problems, ok, role_and_scheme_problems, reference_problems, refuse_if_any, problems,
  priority_problems, family_problems, scheme_problems, role_problems, field_eq, CanonicalField,
  PatentDocument, applicant, inventor, cpc, ipc, Problem, canonical_optional_fields, is_present,
  xor_problem, field_problems,
}
use patent_landscapes.Patent.Fields.{
  validate, document_faults, then_after, has_text, is_source_name, is_language_or_none,
  priority_faults, party_faults, code_faults, status_faults,
}
use patent_landscapes.Patent.Parts.{
  IsParty, IsPriority, IsCode, IsStatus, IsReference, AllListed, IfStated, unless_valid_iff,
  then_after_iff, priority_faults_iff, party_faults_iff, code_faults_iff, status_faults_iff,
  reference_problems_iff, listed_faults_iff, stated_faults_iff,
}
use patent_landscapes.Patent.Conditions.{
  All-of, CodesAre, EarliestIs, FamilyIs, FiledBefore, PartiesAre, append_nil_iff,
  family_problems_iff, priority_problems_iff, publication_problems_iff, role_problems_iff,
  scheme_problems_iff, xor_iff,
}

-- What the validator of the whole document promises.
pub record IsCanonical (d : PatentDocument) : Type 0 where
  pub explained : (f : CanonicalField) → is_present d f ≡ not (is_some (Dict.get f d.missing))
  pub applicants_are : PartiesAre applicant d.applicants
  pub inventors_are : PartiesAre inventor d.inventors
  pub cpc_are : CodesAre cpc d.cpc
  pub ipc_are : CodesAre ipc d.ipc
  pub family_is : FamilyIs (text d.publication) d.family_members
  pub earliest_is : EarliestIs d.priorities d.earliest_priority_date
  pub filed_before : FiledBefore d.filing_date d.publication_date

field_problems_iff :
    (d : PatentDocument) (fs : List CanonicalField)
    → (field_problems d fs ≡ [])
      ↔ All (λ f. is_present d f ≡ not (is_some (Dict.get f d.missing))) fs
unfolding field_problems
field_problems_iff d [] = (λ h. tt, λ h. refl)
field_problems_iff d (f ∷ fs) =
    let here =
      xor_iff (is_present d f) (is_some (Dict.get f d.missing)) (Problem.unexplained f)
        (Problem.contradictory f) in
    let parts =
      append_nil_iff
        (xor_problem (is_present d f) (is_some (Dict.get f d.missing)) (Problem.unexplained f)
          (Problem.contradictory f))
        (field_problems d fs) in
    let rest = field_problems_iff d fs in
    (λ h. (here.0 (parts.0 h).0, rest.0 (parts.0 h).1), λ h. parts.1 (here.1 h.0, rest.1 h.1))

All-fields :
    (P : CanonicalField → Type 0) → All P canonical_optional_fields → (f : CanonicalField) → P f
All-fields P h CanonicalField.application_number_raw = h.0
All-fields P h CanonicalField.family_id_simple = h.1.0
All-fields P h CanonicalField.family_id_extended = h.1.1.0
All-fields P h CanonicalField.family_members = h.1.1.1.0
All-fields P h CanonicalField.earliest_priority_date = h.1.1.1.1.0
All-fields P h CanonicalField.priorities = h.1.1.1.1.1.0
All-fields P h CanonicalField.filing_date = h.1.1.1.1.1.1.0
All-fields P h CanonicalField.publication_date = h.1.1.1.1.1.1.1.0
All-fields P h CanonicalField.grant_date = h.1.1.1.1.1.1.1.1.0
All-fields P h CanonicalField.title = h.1.1.1.1.1.1.1.1.1.0
All-fields P h CanonicalField.abstract = h.1.1.1.1.1.1.1.1.1.1.0
All-fields P h CanonicalField.claims = h.1.1.1.1.1.1.1.1.1.1.1.0
All-fields P h CanonicalField.language = h.1.1.1.1.1.1.1.1.1.1.1.1.0
All-fields P h CanonicalField.applicants = h.1.1.1.1.1.1.1.1.1.1.1.1.1.0
All-fields P h CanonicalField.inventors = h.1.1.1.1.1.1.1.1.1.1.1.1.1.1.0
All-fields P h CanonicalField.cpc_codes = h.1.1.1.1.1.1.1.1.1.1.1.1.1.1.1.0
All-fields P h CanonicalField.ipc_codes = h.1.1.1.1.1.1.1.1.1.1.1.1.1.1.1.1.0
All-fields P h CanonicalField.legal_status = h.1.1.1.1.1.1.1.1.1.1.1.1.1.1.1.1.1.0
All-fields P h CanonicalField.backward_citations = h.1.1.1.1.1.1.1.1.1.1.1.1.1.1.1.1.1.1.0
All-fields P h CanonicalField.forward_citations = h.1.1.1.1.1.1.1.1.1.1.1.1.1.1.1.1.1.1.1.0

problems_iff : (d : PatentDocument) → (problems d ≡ []) ↔ IsCanonical d
unfolding problems role_and_scheme_problems date_order_problems
problems_iff d = (
  λ h.
      let (fields, h1) = (append_nil_iff (field_problems d canonical_optional_fields) _).0 h in
      let (roles, h2) = (append_nil_iff (role_and_scheme_problems d) _).0 h1 in
      let (family, dates) = (append_nil_iff (family_problems d) _).0 h2 in
      let (a, r1) =
        (append_nil_iff (role_problems CanonicalField.applicants applicant d.applicants) _).0
          roles in
      let (i, r2) =
        (append_nil_iff (role_problems CanonicalField.inventors inventor d.inventors) _).0 r1 in
      let (c, p) = (append_nil_iff (scheme_problems CanonicalField.cpc_codes cpc d.cpc) _).0 r2 in
      let (e, f) =
        (append_nil_iff (priority_problems d.priorities d.earliest_priority_date) _).0 dates in
      record {
        explained = All-fields _ ((field_problems_iff d canonical_optional_fields).0 fields);
        applicants_are = (role_problems_iff CanonicalField.applicants applicant d.applicants).0 a;
        inventors_are = (role_problems_iff CanonicalField.inventors inventor d.inventors).0 i;
        cpc_are = (scheme_problems_iff CanonicalField.cpc_codes cpc d.cpc).0 c;
        ipc_are = (scheme_problems_iff CanonicalField.ipc_codes ipc d.ipc).0 p;
        family_is = (family_problems_iff d).0 family;
        earliest_is = (priority_problems_iff d.priorities d.earliest_priority_date).0 e;
        filed_before = (publication_problems_iff d.filing_date d.publication_date).0 f;
      },
  λ v. simp (
    (field_problems_iff d canonical_optional_fields).1
        (All-of v.explained canonical_optional_fields),
    (role_problems_iff CanonicalField.applicants applicant d.applicants).1 v.applicants_are,
    (role_problems_iff CanonicalField.inventors inventor d.inventors).1 v.inventors_are,
    (scheme_problems_iff CanonicalField.cpc_codes cpc d.cpc).1 v.cpc_are,
    (scheme_problems_iff CanonicalField.ipc_codes ipc d.ipc).1 v.ipc_are,
    (family_problems_iff d).1 v.family_is,
    (priority_problems_iff d.priorities d.earliest_priority_date).1 v.earliest_is,
    (publication_problems_iff d.filing_date d.publication_date).1 v.filed_before,
  ),
)

refuse_iff : {A : Type 0} (a : A) (ps : List Problem) → (refuse_if_any a ps ≡ ok a) ↔ (ps ≡ [])
refuse_iff a [] = (λ h. refl, λ h. refl)
refuse_iff a (p ∷ ps) = (λ h. cc, λ h. cc)

-- What the module promises of a document: its own fields, its parts, and the whole.
pub record IsDocument (d : PatentDocument) : Type 0 where
  pub source_named : is_source_name d.source_id ≡ true
  pub numbered : fields_match d.publication ≡ true
  pub number_given : has_text d.publication_number_raw ≡ true
  pub priorities_are : AllListed IsPriority d.priorities
  pub language_is : is_language_or_none d.language ≡ true
  pub each_applicant : AllListed IsParty d.applicants
  pub each_inventor : AllListed IsParty d.inventors
  pub each_cpc : AllListed IsCode d.cpc
  pub each_ipc : AllListed IsCode d.ipc
  pub status_is : IfStated IsStatus d.legal_status
  pub each_reference : AllListed IsReference d.backward_citations
  pub canonical : IsCanonical d

document_faults_iff :
    (d : PatentDocument) → ((document_faults d ≡ []) × IsCanonical d) ↔ IsDocument d
unfolding document_faults
document_faults_iff d =
    let source = unless_valid_iff (codes "source_id") (is_source_name d.source_id) in
    let number = unless_valid_iff (codes "publication") (fields_match d.publication) in
    let raw =
      unless_valid_iff (codes "publication_number_raw") (has_text d.publication_number_raw) in
    let priorities =
      listed_faults_iff IsPriority priority_faults priority_faults_iff d.priorities in
    let language = unless_valid_iff (codes "language") (is_language_or_none d.language) in
    let applicants = listed_faults_iff IsParty party_faults party_faults_iff d.applicants in
    let inventors = listed_faults_iff IsParty party_faults party_faults_iff d.inventors in
    let cpcs = listed_faults_iff IsCode code_faults code_faults_iff d.cpc in
    let ipcs = listed_faults_iff IsCode code_faults code_faults_iff d.ipc in
    let status = stated_faults_iff IsStatus status_faults status_faults_iff d.legal_status in
    let references =
      listed_faults_iff IsReference reference_problems reference_problems_iff
        d.backward_citations in
    (
      λ (h, whole).
          let (a, h1) = (append_nil_iff _ _).0 h in
          let (b, h2) = (append_nil_iff _ _).0 h1 in
          let (c, h3) = (append_nil_iff _ _).0 h2 in
          let (e, h4) = (append_nil_iff _ _).0 h3 in
          let (f, h5) = (append_nil_iff _ _).0 h4 in
          let (i, h6) = (append_nil_iff _ _).0 h5 in
          let (j, h7) = (append_nil_iff _ _).0 h6 in
          let (k, h8) = (append_nil_iff _ _).0 h7 in
          let (l, h9) = (append_nil_iff _ _).0 h8 in
          let (m, n) = (append_nil_iff _ _).0 h9 in
          record {
            source_named = source.0 a;
            numbered = number.0 b;
            number_given = raw.0 c;
            priorities_are = priorities.0 e;
            language_is = language.0 f;
            each_applicant = applicants.0 i;
            each_inventor = inventors.0 j;
            each_cpc = cpcs.0 k;
            each_ipc = ipcs.0 l;
            status_is = status.0 m;
            each_reference = references.0 n;
            canonical = whole;
          },
      λ v. (
        simp (
          source.1 v.source_named,
          number.1 v.numbered,
          raw.1 v.number_given,
          priorities.1 v.priorities_are,
          language.1 v.language_is,
          applicants.1 v.each_applicant,
          inventors.1 v.each_inventor,
          cpcs.1 v.each_cpc,
          ipcs.1 v.each_ipc,
          status.1 v.status_is,
          references.1 v.each_reference,
        ),
        v.canonical,
      ),
    )

-- A document of typed fields passes all validators exactly when: its fields and those of its parts
-- match their patterns and bounds; each party has either a country or a reason why it has none, and
-- not both; each backward citation has what its kind needs and nothing of the other; each optional
-- field has either a value or a reason why it has none, and not both; applicants and inventors have
-- their roles and are numbered from 1; the codes are of their scheme; the family lists neither the
-- document nor a number twice; a stated earliest priority date is the least of the listed ones; and
-- it was not published before it was filed.
pub validate_iff : (d : PatentDocument) → (validate d ≡ ok d) ↔ IsDocument d
unfolding validate
validate_iff d =
    let r = refuse_iff d (then_after (document_faults d) (problems d)) in
    let parts = then_after_iff (document_faults d) (problems d) in
    let whole = problems_iff d in
    let all = document_faults_iff d in
    (
      λ h. let (a, b) = parts.0 (r.0 h) in all.0 (a, whole.0 b),
      λ v. let (a, b) = all.1 v in r.1 (parts.1 (a, whole.1 b)),
    )
