-- ===== src/Clean/Families.antt =====
-- `_asymmetric_statements` of src/patsquire_plr/clean/dataset.py: statements of families that the
-- other document does not return. A warning is the two publications that its text names.
pub mod Warnings
pub mod Tests
use patent_landscapes.Base.Text.{text_eq, Text}
use patent_landscapes.Base.{
  Bool, false, not, Option, none, some, List, [], ◌∷◌, ◌++◌, map, nat_eq, filter,
}
use patent_landscapes.Base.Dict
use patent_landscapes.Base.Sort.{sorted}
use patent_landscapes.Clean.Copies.{InputDocument, by_key, or_nil}

-- The statements of a document: `item.document.family_members or ()`.
abbrev pub stated_members : InputDocument → List Text
stated_members item = or_nil item.document.family_members

module _ (selected : List (Text × InputDocument)) where
  abbrev pub omits : Text → Option (List Text) → Bool
  omits publication none = false
  omits publication (some members) = not (Dict.contains publication members)

  abbrev pub omitted_by : Text → Option InputDocument → Bool
  omitted_by publication none = false
  omitted_by publication (some other) = omits publication other.document.family_members

  -- The tests of the inner loop.
  unfoldable pub is_asymmetric : Text → Text → Bool
  unfolding Dict.get
  is_asymmetric publication member = omitted_by publication (Dict.get member selected)

  abbrev pub warnings_of : Text → List Text → List (Text × Text)
  warnings_of publication members =
      map (λ m. (publication, m)) (filter (is_asymmetric publication) members)

  abbrev pub warnings_in : List (Text × InputDocument) → List (Text × Text)
  warnings_in [] = []
  warnings_in ((publication, item) ∷ items) =
      warnings_of publication (stated_members item) ++ warnings_in items

  -- `_asymmetric_statements`.
  unfoldable pub asymmetric_statements : List (Text × Text)
  unfolding is_asymmetric sorted
  asymmetric_statements = warnings_in (sorted by_key selected)
