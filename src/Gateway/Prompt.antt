-- ===== src/Gateway/Prompt.antt =====
-- `PromptTemplate.placeholders` and `PromptTemplate.render` of src/patsquire_plr/gateway/prompts.py.
use patent_landscapes.Base.{not, Option, none, some, List, [], ◌∷◌, ◌++◌, map, nat_eq, filter}
use patent_landscapes.Base.Text.{Text, codes, text_eq, join, text_le}
use patent_landscapes.Base.Sort.{sorted}
use patent_landscapes.Base.Result.{Result, ok, err}
use patent_landscapes.Base.Dict
use patent_landscapes.Gateway.Model.{GatewayError, plain}

-- A template as `string.Formatter().parse` reads it.
pub data Piece : Type 0 where
  literal : Text → Piece
  placeholder : Text → Piece

pub record PromptTemplate : Type 0 where
  pub id : Text
  pub version : Text
  pub sha256 : Text
  pub system : List Piece
  pub user : List Piece

abbrev pub names : List Piece → List Text
names [] = []
names (literal t ∷ ps) = names ps
names (placeholder n ∷ ps) = n ∷ names ps

-- `PromptTemplate.placeholders`, with repeats.
unfoldable pub placeholders : PromptTemplate → List Text
placeholders p = names p.system ++ names p.user

abbrev pub value_of : Option Text → Text
value_of none = []
value_of (some v) = v

-- `format_map`, for variables that are all given.
unfoldable pub format_map : List (Text × Text) → List Piece → Text
format_map vars [] = []
format_map vars (literal t ∷ ps) = t ++ format_map vars ps
format_map vars (placeholder n ∷ ps) = value_of (Dict.get n vars) ++ format_map vars ps

-- `sorted(a - b)`, for the error messages.
unfoldable pub difference : List Text → List Text → List Text
difference a b = sorted text_le (filter (λ n. not (Dict.contains n b)) (Dict.distinct_from [] a))

abbrev pub variable_error : PromptTemplate → Text → List Text → GatewayError
variable_error p what found =
    plain
      (codes "prompt " ++ (p.id ++ (codes "@" ++ (p.version ++ (what ++ join (codes ", ") found)))))

unfoldable pub render : PromptTemplate → List (Text × Text) → Result GatewayError (Text × Text)
render p vars =
    let given = map (λ (v : Text × Text). v.0) vars in
    elim (difference (placeholders p) given) [
      | m ∷ ms ↦ err (variable_error p (codes ": missing variables ") (m ∷ ms))
      | [] ↦ elim (difference given (placeholders p)) [
        | x ∷ xs ↦ err (variable_error p (codes ": unexpected variables ") (x ∷ xs))
        | [] ↦ ok (format_map vars p.system, format_map vars p.user)
      ]
    ]
