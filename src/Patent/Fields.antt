-- ===== src/Patent/Fields.antt =====
-- The conditions on the fields of a record and of its parts in src/patsquire_plr/domain/patent.py (the
-- patterns and bounds that each `Field` states, and the validators of the parts), and the
-- validation of a record: its own validator runs where its fields are valid.
use patent_landscapes.Base.{
  ℕ, Bool, true, false, not, ◌&&◌, ◌||◌, Option, none, some, List, [], ◌∷◌, ◌++◌, leb, ◌==◌, nat_eq,
  all,
}
use patent_landscapes.Base.Text.{Text, text_eq, codes, is_digit}
use patent_landscapes.Base.Result.{Result}
use patent_landscapes.Publication.{fields_match, is_country}
use patent_landscapes.Patent.{
  PatentDocument, Party, Priority, ClassificationCode, LegalStatus, Problem, not_valid, report,
  party_problems, reference_problems, problems, refuse_if_any,
}

abbrev pub has_text : Text → Bool
has_text [] = false
has_text (c ∷ s) = true

abbrev pub is_small_letter : ℕ → Bool
is_small_letter c = leb 97 c && leb c 122

-- `^[a-z][a-z0-9_]*$`.
abbrev pub is_source_name : Text → Bool
is_source_name [] = false
is_source_name (c ∷ s) =
    is_small_letter c && all (λ d. is_small_letter d || (is_digit d || d == 95)) s

-- `^[a-z]{2}$`, where there is a language.
abbrev pub is_language_or_none : Option Text → Bool
is_language_or_none none = true
is_language_or_none (some (a ∷ b ∷ [])) = is_small_letter a && is_small_letter b
is_language_or_none (some _) = false

abbrev pub is_country_or_none : Option Text → Bool
is_country_or_none none = true
is_country_or_none (some c) = is_country c

abbrev pub unless_valid : Text → Bool → List Problem
unless_valid name b = report (not b) (not_valid name)

-- A validator that runs after the fields, where these are valid.
abbrev pub then_after : List Problem → List Problem → List Problem
then_after [] after = after
then_after (p ∷ ps) after = p ∷ ps

unfoldable pub party_faults : Party → List Problem
unfolding party_problems
party_faults p =
    then_after
      (unless_valid (codes "sequence") (leb 1 p.sequence)
        ++ (unless_valid (codes "name_raw") (has_text p.name_raw)
            ++ unless_valid (codes "country") (is_country_or_none p.country)))
      (party_problems p)

unfoldable pub priority_faults : Priority → List Problem
priority_faults p =
    unless_valid (codes "number_raw") (has_text p.number_raw)
    ++ unless_valid (codes "country") (is_country p.country)

unfoldable pub code_faults : ClassificationCode → List Problem
code_faults c = unless_valid (codes "code_raw") (has_text c.code_raw)

unfoldable pub status_faults : LegalStatus → List Problem
status_faults s = unless_valid (codes "status_raw") (has_text s.status_raw)

module _ {A : Type 0} (faults : A → List Problem) where
  abbrev pub each_fault : List A → List Problem
  each_fault [] = []
  each_fault (a ∷ xs) = faults a ++ each_fault xs

  abbrev pub listed_faults : Option (List A) → List Problem
  listed_faults none = []
  listed_faults (some xs) = each_fault xs

  abbrev pub stated_faults : Option A → List Problem
  stated_faults none = []
  stated_faults (some a) = faults a

-- The fields in their order.
unfoldable pub document_faults : PatentDocument → List Problem
unfolding party_faults priority_faults code_faults status_faults reference_problems fields_match
document_faults d =
    unless_valid (codes "source_id") (is_source_name d.source_id)
    ++ (unless_valid (codes "publication") (fields_match d.publication)
        ++ (unless_valid (codes "publication_number_raw") (has_text d.publication_number_raw)
            ++ (listed_faults priority_faults d.priorities
                ++ (unless_valid (codes "language") (is_language_or_none d.language)
                    ++ (listed_faults party_faults d.applicants
                        ++ (listed_faults party_faults d.inventors
                            ++ (listed_faults code_faults d.cpc
                                ++ (listed_faults code_faults d.ipc
                                    ++ (stated_faults status_faults d.legal_status
                                        ++ listed_faults reference_problems
                                            d.backward_citations)))))))))

-- `PatentDocument(...)`, of typed fields.
unfoldable pub validate : PatentDocument → Result (List Problem) PatentDocument
unfolding document_faults problems
validate d = refuse_if_any d (then_after (document_faults d) (problems d))
