-- ===== src/Clean/Grouping/Tests.antt =====
-- Three documents: two with one application, and one with a stated member.
use patent_landscapes.Base.Sort.{sorted}
use patent_landscapes.Base.{◌≡◌, refl, ◌↔◌, true, false, Option, none, some, List, [], ◌∷◌, nat_eq}
use patent_landscapes.Base.Text.{text_le, text_beq, upper, Text, codes, text_eq}
use patent_landscapes.Publication.Tests.{ascii}
use patent_landscapes.Patent.Tests.{doc}
use patent_landscapes.Clean.Copies.{InputDocument}
use patent_landscapes.Clean.Grouping
use patent_landscapes.Clean.Grouping.{
  Components, Kinds, all_steps, application_key, group_families, families_in, in_order, is_evidence,
}
use patent_landscapes.Clean.Grouping.Components.{IsMember, group_families-IsLinked}
use patent_landscapes.Clean.Union.Linked.{IsLinked}

abbrev item : Option Text → Option (List Text) → InputDocument
item application members = record {
  document_id = codes "d";
  retrieved_at = 1;
  document = record doc { application_number_raw = application; family_members = members };
}

abbrev selected : List (Text × InputDocument)
selected =
    (codes "US2A", item (some (codes "US14/643,719")) none)
    ∷ (codes "US1B", item (some (codes "14643719")) (some []))
    ∷ (codes "EP3A", item none (some (codes "WO4A" ∷ [])))
    ∷ []

application_key_lem :
    application_key ascii (codes "US14/643,719") (codes "US") ≡ codes "US|14643719"
unfolding application_key upper
application_key_lem = refl

group_families_lem :
    group_families ascii selected
    ≡ some (
      record {
        key = codes "EP3A";
        evidence = Grouping.stated_member ∷ [];
        publications_in_dataset = 1;
        stated_members_not_retrieved = 1;
      }
          ∷ record {
            key = codes "US1B";
            evidence = Grouping.application ∷ [];
            publications_in_dataset = 2;
            stated_members_not_retrieved = 0;
          }
          ∷ [],
      record { family_key = codes "EP3A"; publication = codes "EP3A"; in_dataset = true }
          ∷ record { family_key = codes "EP3A"; publication = codes "WO4A"; in_dataset = false }
          ∷ record { family_key = codes "US1B"; publication = codes "US1B"; in_dataset = true }
          ∷ record { family_key = codes "US1B"; publication = codes "US2A"; in_dataset = true }
          ∷ [],
    )
unfolding group_families text_beq upper text_le sorted
group_families_lem = refl

group_families-IsLinked_example :
    (kinds : List (Text × Kinds)) × (c : Components) × (group_families ascii selected
      ≡ some (in_order (families_in selected kinds c)))
    × ((x y : Text)
        → is_evidence x ≡ false
        → is_evidence y ≡ false
        → ((root : Text) × IsMember c root x × IsMember c root y)
          ↔ IsLinked (all_steps ascii selected) x y)
group_families-IsLinked_example = group_families-IsLinked ascii selected
