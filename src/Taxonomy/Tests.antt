-- ===== src/Taxonomy/Tests.antt =====
-- A taxonomy of two segments, drafted over a small scheme.
use patent_landscapes.Cpc.Code.{is_decimals}
use patent_landscapes.Base.Sort.{sorted}
use patent_landscapes.Cpc.Titles.{parse_title_list}
use patent_landscapes.Base.{◌≤◌, ◌≡◌, refl, true, false, some, List, [], ◌∷◌, nat_eq, length, All}
use patent_landscapes.Base.Text.{upper, upper_text, text_beq, Text, codes, text_eq}
use patent_landscapes.Base.Dict.{set_default, put, get, contains}
use patent_landscapes.Base.Result.{Result, ok, err}
use patent_landscapes.Publication.Tests.{ascii}
use patent_landscapes.Cpc.Tests.{latin, scheme}
use patent_landscapes.Taxonomy.Error.{not_a_spec, TaxonomyError}
use patent_landscapes.Taxonomy.Spec.{
  TaxonomyContent, ResolvedCpc, has_unique_ids, ids_of, not_offered, chosen_twice, over_limit,
}
use patent_landscapes.Taxonomy.Ids.{segment_id}
use patent_landscapes.Taxonomy.Segment.{DraftSegment}
use patent_landscapes.Taxonomy.Pick.{accept_picks}
use patent_landscapes.Taxonomy.Draft.{StructuredModel, Scope, Limits, draft_taxonomy}
use patent_landscapes.Taxonomy.Hints.{subclasses}
use patent_landscapes.Taxonomy.Fresh.{segment_id-fresh}
use patent_landscapes.Taxonomy.Drafted.{IsFilled}
use patent_landscapes.Taxonomy.Content.{setting, draft_taxonomy-IsFilled, draft_taxonomy-validators}

abbrev same_text : Text → Text
same_text t = t

abbrev taken : List Text
taken = codes "nets" ∷ codes "nets_2" ∷ []

segment_id_lem :
    (segment_id latin same_text (codes "  Nets & ") taken ≡ some (codes "nets_3"))
    × (segment_id latin same_text (codes "3D") [] ≡ some (codes "s_3d"))
unfolding segment_id text_beq
segment_id_lem = (refl, refl)

segment_id-fresh_example :
    (id : Text) × (segment_id latin same_text (codes "Nets") taken ≡ some id)
    × (contains id taken ≡ false)
segment_id-fresh_example = segment_id-fresh latin same_text (codes "Nets") taken

abbrev entry : Text → ResolvedCpc
entry symbol = record { symbol = symbol; title_path = codes "T" }

abbrev offered : List ResolvedCpc
offered = entry (codes "A") ∷ entry (codes "B") ∷ entry (codes "C") ∷ []

abbrev picks : List Text
picks = codes "A" ∷ codes " A " ∷ codes "D" ∷ codes "C" ∷ codes "B" ∷ []

accept_picks_lem : accept_picks ascii picks offered 2 ≡ (
  entry (codes "A") ∷ entry (codes "C") ∷ [],
  (codes " A ", chosen_twice) ∷ (codes "D", not_offered) ∷ (codes "B", over_limit 2) ∷ [],
)
unfolding accept_picks get put text_beq
accept_picks_lem = refl

abbrev drafted : Text → DraftSegment
drafted name = record {
  name = name;
  definition = codes "Networks of units";
  includes = [];
  excludes = codes " " ∷ [];
  keywords = record { term = codes "nets "; synonyms = codes "net" ∷ codes "a*b" ∷ [] } ∷ [];
}

abbrev model : StructuredModel
model = record {
  draft = λ variables. ok (record {
    value = drafted (codes "Nets") ∷ drafted (codes "NETS") ∷ drafted (codes "Nets!") ∷ [];
    cache_key = codes "k0";
  });
  select = λ n variables.
      ok (record { value = codes "G06N3/02" ∷ codes "H01L1/00" ∷ []; cache_key = codes "k" });
}

abbrev scope : Scope
scope = record { topic = codes "Nets"; notes = []; cpc_hints = codes "g06n" ∷ [] }

abbrev limits : Limits
limits = record { max_segments = 4; candidates_per_segment = 5; max_cpc_per_segment = 2 }

abbrev empty : TaxonomyContent
empty = record {
  spec = record { topic = []; segments = [] };
  cpc_scheme_version = [];
  cpc = [];
  suggestions = [];
  rejected = [];
}

abbrev content_or_empty :
    Result TaxonomyError (TaxonomyContent × List Text) → TaxonomyContent × List Text
content_or_empty (ok c) = c
content_or_empty (err e) = (empty, [])

abbrev run : TaxonomyContent × List Text
run = content_or_empty (draft_taxonomy ascii latin same_text model scheme scope limits)

drafted_ok : draft_taxonomy ascii latin same_text model scheme scope limits ≡ ok (run.0, run.1)
unfolding draft_taxonomy parse_title_list text_beq upper_text upper get sorted is_decimals put
    set_default
drafted_ok = refl

ids_lem :
    (ids_of run.0.spec.segments ≡ codes "nets" ∷ codes "nets_2" ∷ [])
    × (run.1 ≡ codes "k0" ∷ codes "k" ∷ codes "k" ∷ [])
    × (length run.0.rejected ≡ 5)
unfolding draft_taxonomy parse_title_list text_beq upper_text upper get sorted is_decimals put
    set_default
ids_lem = (refl, refl, refl)

draft_taxonomy-IsFilled_example :
    (within : List Text) × (subclasses ascii scheme scope.cpc_hints ≡ ok within)
    × (has_unique_ids run.0.spec.segments ≡ true)
    × (1 ≤ length run.0.spec.segments)
    × All
        (IsFilled (setting ascii latin same_text model scheme limits within) run.0.cpc)
        run.0.spec.segments
draft_taxonomy-IsFilled_example =
    draft_taxonomy-IsFilled ascii latin same_text model scheme scope limits run.0 run.1 drafted_ok

draft_taxonomy-validators_example :
    ¬ (draft_taxonomy ascii latin same_text model scheme scope limits ≡ err not_a_spec)
draft_taxonomy-validators_example =
    draft_taxonomy-validators ascii latin same_text model scheme scope limits
