-- ===== src/Cpc/Within.antt =====
-- `CpcScheme.is_within` and `CpcScheme.check` of src/patsquire_plr/classification/cpc.py.
use patent_landscapes.Cpc.Code.{normalize_cpc_symbol}
use patent_landscapes.Publication.{NormalizationError}
use patent_landscapes.Base.{
  ◌+◌, ◌-◌, Bool, true, false, not, ◌&&◌, ◌||◌, Option, none, some, List, [], ◌∷◌, ltb, ◌==◌,
  if◌then◌else◌, is_some, nat_eq, take, drop, any,
}
use patent_landscapes.Base.Text.{Text, Unicode, text_eq}
use patent_landscapes.Base.Dict.{get}
use patent_landscapes.Base.Int.{ℤ, pos, negsuc}
use patent_landscapes.Base.Number.{int_of}
use patent_landscapes.Base.Result.{Result, ok, err}
use patent_landscapes.Cpc.Scheme.{CpcScheme, CpcEntry, path, title_path}

-- `_main_group`, the number only: none for the `ValueError` of `int`.
abbrev pub until_slash : Text → Text
until_slash [] = []
until_slash (c ∷ s) = if c == b'/' then [] else c ∷ until_slash s

unfoldable pub main_group_number : Unicode → Text → Option ℤ
unfolding int_of
main_group_number u symbol = int_of u (drop 4 (until_slash symbol))

-- `n + INDEXING_OFFSET`.
abbrev pub plus_offset : ℤ → ℤ
plus_offset (pos n) = pos (n + 2000)
plus_offset (negsuc n) = if ltb n 2000 then pos (1999 - n) else negsuc (n - 2000)

abbrev pub int_beq : ℤ → ℤ → Bool
int_beq (pos a) (pos b) = a == b
int_beq (negsuc a) (negsuc b) = a == b
int_beq _ _ = false

-- `code_group in {g, g + INDEXING_OFFSET, g - INDEXING_OFFSET}`.
unfoldable pub is_related : ℤ → ℤ → Bool
is_related code_group g =
    int_beq code_group g
    || (int_beq code_group (plus_offset g) || int_beq (plus_offset code_group) g)

abbrev pub starts_with : Text → Text → Bool
starts_with s [] = true
starts_with [] (p ∷ prefix) = false
starts_with (c ∷ s) (p ∷ prefix) = (c == p) && starts_with s prefix

-- `target is not None and target.dot_level is None`, and the same for level 0.
abbrev pub is_above_groups : Option CpcEntry → Bool
is_above_groups none = false
is_above_groups (some e) = not (is_some e.dot_level)

abbrev pub is_main_group : Option CpcEntry → Bool
is_main_group none = false
is_main_group (some e) = elim e.dot_level [ none ↦ false | some n ↦ n == 0 ]

abbrev pub compare_groups : Bool → Option ℤ → Option ℤ → Option Bool
compare_groups is_main (some a) (some b) =
    if is_main && int_beq a b then some true else if is_related a b then none else some false
compare_groups is_main none b = none
compare_groups is_main (some a) none = none

-- `is_within` for a code that the scheme does not list.
unfoldable pub is_within_unlisted : Unicode → CpcScheme → Text → Text → Option Bool
unfolding main_group_number is_related
is_within_unlisted u s code symbol =
    let target = get symbol s.entries in
    if is_above_groups target
    then some (starts_with code symbol)
    else if not (text_eq.beq (take 4 code) (take 4 symbol))
    then some false
    else compare_groups (is_main_group target) (main_group_number u code)
        (main_group_number u symbol)

-- `any(e.symbol == symbol for e in self.path(code))`; a path that does not end gives no answer.
abbrev pub is_on : Text → Option (List CpcEntry) → Option Bool
is_on symbol none = none
is_on symbol (some chain) = some (any (λ (e : CpcEntry). text_eq.beq e.symbol symbol) chain)

-- `CpcScheme.is_within`.
unfoldable pub is_within : Unicode → CpcScheme → Text → Text → Option Bool
unfolding path is_within_unlisted
is_within u s code symbol =
    if is_some (get code s.entries)
    then is_on symbol (path s code)
    else is_within_unlisted u s code symbol

-- The two messages of `check`: that of a `NormalizationError`, and a symbol that is not listed.
pub data CheckProblem : Type 0 where
  invalid : NormalizationError → CheckProblem
  not_listed : Text → Text → CheckProblem

pub record CpcCheck : Type 0 where
  pub code_raw : Text
  pub symbol : Option Text
  pub problem : Option CheckProblem
  pub title_path : Option Text

abbrev pub rejected : Text → CheckProblem → CpcCheck
rejected code_raw problem = record {
  code_raw = code_raw;
  symbol = none;
  problem = some problem;
  title_path = none;
}

abbrev pub check_symbol : CpcScheme → Text → Result NormalizationError Text → CpcCheck
check_symbol s code_raw (err e) = rejected code_raw (invalid e)
check_symbol s code_raw (ok symbol) =
    if is_some (get symbol s.entries)
    then record {
      code_raw = code_raw;
      symbol = some symbol;
      problem = none;
      title_path = title_path s symbol;
    }
    else rejected code_raw (not_listed symbol s.version)

-- `CpcScheme.check`.
unfoldable pub check : Unicode → CpcScheme → Text → CpcCheck
unfolding normalize_cpc_symbol title_path
check u s code_raw = check_symbol s code_raw (normalize_cpc_symbol u code_raw)
