-- ===== src/Patent/Parts.antt =====
-- The conditions on the parts of a document, each with the validators that decide it
-- (src/patsquire_plr/domain/patent.py).
use patent_landscapes.Base.{
  ◌≤◌, ◌≡◌, refl, ◌↔◌, Bool, true, false, not, Option, none, some, List, [], ◌∷◌, arith, leb,
  is_some, nat_eq, All,
}
use patent_landscapes.Base.Text.{Text, text_eq, codes}
use patent_landscapes.Publication.{is_country}
use patent_landscapes.Patent.{
  Party, Priority, ClassificationCode, LegalStatus, CitedReference, patent, npl, Problem,
  party_problems, reference_problems,
}
use patent_landscapes.Patent.Fields.{
  has_text, is_country_or_none, unless_valid, then_after, party_faults, priority_faults,
  code_faults, status_faults, each_fault, listed_faults, stated_faults,
}
use patent_landscapes.Patent.Conditions.{append_nil_iff, xor_iff}

-- A country that is a code of two letters, or else a reason, and not both.
pub record IsParty (p : Party) : Type 0 where
  pub from_one : 1 ≤ p.sequence
  pub named : has_text p.name_raw ≡ true
  pub country_code : is_country_or_none p.country ≡ true
  pub country_explained : is_some p.country ≡ not (is_some p.country_missing)

abbrev pub IsPriority : Priority → Type 0
IsPriority p = (has_text p.number_raw ≡ true) × (is_country p.country ≡ true)

abbrev pub IsCode : ClassificationCode → Type 0
IsCode c = has_text c.code_raw ≡ true

abbrev pub IsStatus : LegalStatus → Type 0
IsStatus s = has_text s.status_raw ≡ true

-- A patent has its number in both forms and no text, other literature a text and no number.
abbrev pub IsReference : CitedReference → Type 0
IsReference c = elim c.kind [
  | patent ↦
      (is_some c.publication_number ≡ true)
      × (is_some c.publication_number_raw ≡ true)
      × (is_some c.npl_text ≡ false)
  | npl ↦ (is_some c.npl_text ≡ true) × (is_some c.publication_number ≡ false)
]

pub unless_valid_iff : (name : Text) (b : Bool) → (unless_valid name b ≡ []) ↔ (b ≡ true)
unless_valid_iff name b = ground arith

pub then_after_iff : (xs ys : List Problem) → (then_after xs ys ≡ []) ↔ ((xs ≡ []) × (ys ≡ []))
then_after_iff [] ys = (λ h. (refl, h), λ h. h.1)
then_after_iff (x ∷ xs) ys = (λ h. cc, λ h. cc (h.0))

pub party_faults_iff : (p : Party) → (party_faults p ≡ []) ↔ IsParty p
unfolding party_faults party_problems
party_faults_iff p =
    let country =
      xor_iff (is_some p.country) (is_some p.country_missing) Problem.country_unexplained
        Problem.country_contradictory in
    let sequence_ok = unless_valid_iff (codes "sequence") (leb 1 p.sequence) in
    let name_ok = unless_valid_iff (codes "name_raw") (has_text p.name_raw) in
    let country_ok = unless_valid_iff (codes "country") (is_country_or_none p.country) in
    (
      λ h.
          let (fields, after) = (then_after_iff _ _).0 h in
          let (a, rest) = (append_nil_iff _ _).0 fields in
          let (b, c) = (append_nil_iff _ _).0 rest in
          let first = sequence_ok.0 a in
          record {
            from_one = ground arith;
            named = name_ok.0 b;
            country_code = country_ok.0 c;
            country_explained = country.0 after;
          },
      λ v. (then_after_iff _ _).1 (
        (append_nil_iff _ _).1 (
          sequence_ok.1 (let first = v.from_one in ground arith),
          (append_nil_iff _ _).1 (name_ok.1 v.named, country_ok.1 v.country_code),
        ),
        country.1 v.country_explained,
      ),
    )

pub priority_faults_iff : (p : Priority) → (priority_faults p ≡ []) ↔ IsPriority p
unfolding priority_faults
priority_faults_iff p =
    let number_ok = unless_valid_iff (codes "number_raw") (has_text p.number_raw) in
    let country_ok = unless_valid_iff (codes "country") (is_country p.country) in
    (
      λ h. let (a, b) = (append_nil_iff _ _).0 h in (number_ok.0 a, country_ok.0 b),
      λ v. (append_nil_iff _ _).1 (number_ok.1 v.0, country_ok.1 v.1),
    )

pub code_faults_iff : (c : ClassificationCode) → (code_faults c ≡ []) ↔ IsCode c
unfolding code_faults
code_faults_iff c = unless_valid_iff (codes "code_raw") (has_text c.code_raw)

pub status_faults_iff : (s : LegalStatus) → (status_faults s ≡ []) ↔ IsStatus s
unfolding status_faults
status_faults_iff s = unless_valid_iff (codes "status_raw") (has_text s.status_raw)

pub reference_problems_iff : (c : CitedReference) → (reference_problems c ≡ []) ↔ IsReference c
unfolding reference_problems
reference_problems_iff c = ground arith

module _ {A : Type 0} (P : A → Type 0) where
  abbrev pub AllListed : Option (List A) → Type 0
  AllListed none = Unit
  AllListed (some xs) = All P xs

  abbrev pub IfStated : Option A → Type 0
  IfStated none = Unit
  IfStated (some a) = P a

  module _ (faults : A → List Problem) (one : (a : A) → (faults a ≡ []) ↔ P a) where
    each_fault_iff : (xs : List A) → (each_fault faults xs ≡ []) ↔ All P xs
    each_fault_iff [] = (λ h. tt, λ h. refl)
    each_fault_iff (a ∷ xs) =
        let both = append_nil_iff (faults a) (each_fault faults xs) in
        let rest = each_fault_iff xs in
        (
          λ h. ((one a).0 (both.0 h).0, rest.0 (both.0 h).1),
          λ h. both.1 ((one a).1 h.0, rest.1 h.1),
        )

    pub listed_faults_iff : (o : Option (List A)) → (listed_faults faults o ≡ []) ↔ AllListed o
    listed_faults_iff none = (λ h. tt, λ h. refl)
    listed_faults_iff (some xs) = each_fault_iff xs

    pub stated_faults_iff : (o : Option A) → (stated_faults faults o ≡ []) ↔ IfStated o
    stated_faults_iff none = (λ h. tt, λ h. refl)
    stated_faults_iff (some a) = one a
