-- ===== src/Taxonomy/EditTests.antt =====
-- An edited taxonomy over a small scheme, and one with a code that is too broad.
use patent_landscapes.Base.Dict.{set_default, put}
use patent_landscapes.Base.Number.{str}
use patent_landscapes.Base.Sort.{sorted}
use patent_landscapes.Cpc.Code.{is_decimals}
use patent_landscapes.Cpc.Titles.{parse_title_list}
use patent_landscapes.Base.{◌≤◌, ◌≡◌, refl, ◌⊎◌, none, some, List, [], ◌∷◌, nat_eq, length, All}
use patent_landscapes.Base.Text.{text_beq, upper, upper_text, Text, codes, text_eq}
use patent_landscapes.Base.Result.{ok, err}
use patent_landscapes.Publication.Tests.{ascii}
use patent_landscapes.Cpc.Scheme
use patent_landscapes.Cpc.Tests.{scheme}
use patent_landscapes.Taxonomy.Spec.{SegmentSpec, TaxonomySpec, TaxonomyContent}
use patent_landscapes.Taxonomy.Edit.{EditProblem, wrong_codes, too_broad, content_from_edit}
use patent_landscapes.Taxonomy.Replaced.{AllReplaced}
use patent_landscapes.Taxonomy.Edited.{HasAcceptable, HasUsable, content_from_edit-cases}

abbrev segment : Text → List Text → SegmentSpec
segment id cpc = record {
  id = id;
  name = codes "Nets";
  definition = codes "Networks of units";
  includes = [];
  excludes = [];
  keywords = record { term = codes "nets"; synonyms = [] } ∷ [];
  cpc = cpc;
}

abbrev edited : List Text → TaxonomySpec
edited cpc = record { topic = codes "Nets"; segments = segment (codes "nets") cpc ∷ [] }

abbrev two_codes : TaxonomySpec
two_codes = edited (codes "g06n 3/02" ∷ codes "G06N" ∷ codes "G06N3/02" ∷ [])

edit_lem :
    (content_from_edit ascii scheme none (some two_codes)
      ≡ ok (record {
        spec = edited (codes "G06N3/02" ∷ codes "G06N" ∷ []);
        cpc_scheme_version = codes "2026.08";
        cpc =
            (
              codes "nets",
              record { symbol = codes "G06N3/02"; title_path = codes "BIO > NETS" }
                  ∷ record { symbol = codes "G06N"; title_path = codes "MODELS" }
                  ∷ [],
            )
            ∷ [];
        suggestions = (codes "nets", []) ∷ [];
        rejected = [];
      }))
    × (content_from_edit ascii scheme none (some (edited (codes "G06" ∷ [])))
        ≡ err (wrong_codes (too_broad (codes "nets") (codes "G06") Scheme.class ∷ [])))
unfolding content_from_edit parse_title_list upper_text upper is_decimals sorted text_beq str put
    set_default
edit_lem = (refl, refl)

content_from_edit-cases_example :
    (All (HasAcceptable ascii scheme) two_codes.segments
      × ((content : TaxonomyContent) × (content_from_edit ascii scheme none (some two_codes)
            ≡ ok content)
          × (content.spec.topic ≡ two_codes.topic)
          × AllReplaced ascii scheme two_codes.segments content.spec.segments
          × All (HasUsable scheme) content.spec.segments))
    ⊎ ((¬ All (HasAcceptable ascii scheme) two_codes.segments)
        × ((ps : List EditProblem) × (content_from_edit ascii scheme none (some two_codes)
              ≡ err (wrong_codes ps))
            × (1 ≤ length ps)))
content_from_edit-cases_example = content_from_edit-cases ascii scheme none two_codes
