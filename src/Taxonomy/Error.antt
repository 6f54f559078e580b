-- ===== src/Taxonomy/Error.antt =====
-- `TaxonomyError` of src/patsquire_plr/landscape/taxonomy.py, by its messages.
use patent_landscapes.Base.{ℕ, Option, List, nat_eq}
use patent_landscapes.Base.Text.{Text, text_eq}
use patent_landscapes.Cpc.Within.{CheckProblem}

pub data TaxonomyError : Type 0 where
  model_failed : Text → TaxonomyError
  wrong_count : ℕ → ℕ → TaxonomyError
  unknown_hint : Option CheckProblem → TaxonomyError
  not_a_segment : Text → TaxonomyError
  not_a_spec : TaxonomyError
  -- A path of the scheme does not end, where the source would not return.
  no_end : TaxonomyError
  invalid_edit : TaxonomyError
  invalid_codes : List Text → TaxonomyError
