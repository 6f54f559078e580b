-- ===== src/Cpc/Code.antt =====
-- `normalize_classification_code` of src/patsquire_plr/domain/patent.py and `normalize_cpc_symbol` of
-- src/patsquire_plr/classification/cpc.py, their patterns written as tests.
use patent_landscapes.Base.{
  ℕ, Bool, false, not, ◌&&◌, ◌||◌, Option, none, some, [], ◌∷◌, ◌++◌, leb, ◌==◌, if◌then◌else◌,
  nat_eq, length, filter, all,
}
use patent_landscapes.Base.Text.{Text, Unicode, is_space, is_capital, upper_text, strip}
use patent_landscapes.Base.Number.{is_decimal, value_from, str}
use patent_landscapes.Base.Result.{Result, ok, err}
use patent_landscapes.Publication.{NormalizationError, unrecognised}

-- `re.sub(r"\s+", "", raw.strip().upper())`.
unfoldable pub without_space : Unicode → Text → Text
without_space u raw = filter (λ c. not (is_space u c)) (upper_text u (strip u raw))

-- `[A-HY]`.
abbrev pub is_section_letter : ℕ → Bool
is_section_letter c = (leb b'A' c && leb c b'H') || c == b'Y'

-- `_SECTION`, `_CLASS` and `_SUBCLASS`.
abbrev pub is_section : Text → Bool
is_section (s ∷ []) = is_section_letter s
is_section _ = false

abbrev pub is_class : Unicode → Text → Bool
is_class u (s ∷ a ∷ b ∷ []) = is_section_letter s && (is_decimal u a && is_decimal u b)
is_class u _ = false

abbrev pub is_subclass : Unicode → Text → Bool
is_subclass u (s ∷ a ∷ b ∷ l ∷ []) =
    is_section_letter s && (is_decimal u a && (is_decimal u b && is_capital l))
is_subclass u _ = false

-- The texts on both sides of the first slash.
abbrev pub before_slash : ℕ → Option (Text × Text) → Option (Text × Text)
before_slash c none = none
before_slash c (some (a, b)) = some (c ∷ a, b)

abbrev pub split_slash : Text → Option (Text × Text)
split_slash [] = none
split_slash (c ∷ s) = if c == b'/' then some ([], s) else before_slash c (split_slash s)

-- `\d{low,high}` as a whole text.
unfoldable pub is_decimals : Unicode → ℕ → ℕ → Text → Bool
is_decimals u low high s = all (is_decimal u) s && (leb low (length s) && leb (length s) high)

-- The section, class and subclass, the group and the subgroup of a code that matches.
abbrev pub with_groups : Unicode → Text → Option (Text × Text) → Option (Text × Text × Text)
with_groups u head none = none
with_groups u head (some (group, subgroup)) =
    if is_decimals u 1 4 group && is_decimals u 2 6 subgroup
    then some (head, group, subgroup)
    else none

-- `_CPC.fullmatch`.
unfoldable pub match_code : Unicode → Text → Option (Text × Text × Text)
match_code u (s ∷ a ∷ b ∷ l ∷ rest) =
    if is_subclass u (s ∷ a ∷ b ∷ l ∷ [])
    then with_groups u (s ∷ a ∷ b ∷ l ∷ []) (split_slash rest)
    else none
match_code u _ = none

abbrev pub code_text : Unicode → Text → Option (Text × Text × Text) → Result NormalizationError Text
code_text u raw none = err (unrecognised raw)
code_text u raw (some (head, group, subgroup)) =
    ok (head ++ (str (value_from u 0 group) ++ (b'/' ∷ subgroup)))

unfoldable pub normalize_classification_code : Unicode → Text → Result NormalizationError Text
unfolding without_space match_code
normalize_classification_code u raw = code_text u raw (match_code u (without_space u raw))

unfoldable pub normalize_cpc_symbol : Unicode → Text → Result NormalizationError Text
unfolding without_space normalize_classification_code
normalize_cpc_symbol u raw =
    let symbol = without_space u raw in
    if is_section symbol || (is_class u symbol || is_subclass u symbol)
    then ok symbol
    else normalize_classification_code u symbol
