-- ===== src/Clean/Families/Tests.antt =====
-- An American publication that states a European one as its family, and the European one, which
-- states another.
use patent_landscapes.Base.Text.{text_beq, text_le, codes}
use patent_landscapes.Base.{◌≡◌, refl, ◌↔◌, some, List, [], ◌∷◌, nat_eq, IsIn}
use patent_landscapes.Patent.Tests.{doc}
use patent_landscapes.Clean.Copies.{InputDocument}
use patent_landscapes.Clean.Families.{Text, asymmetric_statements}
use patent_landscapes.Clean.Families.Warnings.{asymmetric_statements_iff, IsStated, IsOmitted}

abbrev american : InputDocument
american = record { document_id = codes "a"; retrieved_at = 1; document = doc }

abbrev european : InputDocument
european = record american { document = record doc { family_members = some (codes "JP5A" ∷ []) } }

abbrev selected : List (Text × InputDocument)
selected = (codes "US10123456B2", american) ∷ (codes "EP1234A1", european) ∷ []

-- Nothing is said of the Japanese publication, which is not selected.
reported : asymmetric_statements selected ≡ (codes "US10123456B2", codes "EP1234A1") ∷ []
unfolding asymmetric_statements text_le text_beq
reported = refl

asymmetric_statements_iff_example :
    IsIn {A = Text × Text} (codes "US10123456B2", codes "EP1234A1") (asymmetric_statements selected)
    ↔ (IsStated selected (codes "US10123456B2") (codes "EP1234A1") selected
        × IsOmitted selected (codes "US10123456B2") (codes "EP1234A1"))
asymmetric_statements_iff_example =
    asymmetric_statements_iff selected (codes "US10123456B2") (codes "EP1234A1")
