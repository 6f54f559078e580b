-- ===== src/Cpc/Titles.antt =====
-- `parse_title_list`, `_parse_section` and `_entry` of src/patsquire_plr/classification/cpc.py. The zip
-- archive is a parameter: the names that it lists, and the decoded text of each.
use patent_landscapes.Base.{
  ℕ, zero, suc, Bool, false, not, ◌&&◌, ◌||◌, Option, none, some, List, [], ◌∷◌, ◌++◌, leb, ◌==◌,
  if◌then◌else◌, nat_eq, length, take, drop, get_elem?, all,
}
use patent_landscapes.Base.Text.{Text, Unicode, text_eq, text_le, codes, strip}
use patent_landscapes.Base.Dict.{distinct_from}
use patent_landscapes.Base.Sort.{sorted}
use patent_landscapes.Base.Int.{ℤ, pos, negsuc}
use patent_landscapes.Base.Number.{is_decimal, is_digits, int_of}
use patent_landscapes.Base.Result.{Result, ok, err, ◌>>=◌}
use patent_landscapes.Cpc.Code.{
  is_section, is_class, is_subclass, is_section_letter, normalize_classification_code,
}
use patent_landscapes.Cpc.Scheme.{
  EntryKind, section, class, subclass, main_group, subgroup, CpcEntry, CpcScheme, CpcSchemeError,
  wrong_columns, no_level, level_not_number, not_normal, unrecognised_code, no_parent_group,
  value_error, not_a_zip, unexpected_files, different_dates, make_scheme,
}
use patent_landscapes.Cpc.Within.{main_group_number, plus_offset, int_beq}

-- Where `splitlines` ends a line.
abbrev pub is_line_end : ℕ → Bool
is_line_end c =
    (leb 10 c && leb c 13) || ((leb 28 c && leb c 30) || (c == 133 || (c == 8232 || c == 8233)))

abbrev pub in_first_line : ℕ → List Text → List Text
in_first_line c [] = (c ∷ []) ∷ []
in_first_line c (l ∷ ls) = (c ∷ l) ∷ ls

-- `text.splitlines()`: a carriage return and the line feed after it end one line.
unfoldable pub splitlines : Text → List Text
splitlines [] = []
splitlines (c ∷ []) = if is_line_end c then [] ∷ [] else (c ∷ []) ∷ []
splitlines (c ∷ d ∷ s) =
    let rest = splitlines (d ∷ s) in
    if c == 13 && d == 10 then rest else if is_line_end c then [] ∷ rest else in_first_line c rest

-- `line.split("\t")`.
abbrev pub split_tabs : Text → List Text
split_tabs [] = [] ∷ []
split_tabs (c ∷ s) = if c == 9 then [] ∷ split_tabs s else in_first_line c (split_tabs s)

-- `_same_family`, for two normalised symbols.
unfoldable pub same_family : Unicode → Text → Text → Bool
unfolding main_group_number
same_family u parent child =
    text_eq.beq (take 4 parent) (take 4 child) && (elim (main_group_number u parent) [
      | none ↦ false
      | some p ↦ elim (main_group_number u child) [
        | none ↦ false
        | some c ↦ int_beq c p || int_beq c (plus_offset p)
      ]
    ])

abbrev pub make_entry : Text → EntryKind → Option ℕ → Text → Option Text → CpcEntry
make_entry symbol kind dot_level title parent = record {
  symbol = symbol;
  kind = kind;
  dot_level = dot_level;
  title = title;
  parent = parent;
}

-- `_entry` without a level.
unfoldable pub entry_above_groups : Unicode → ℕ → Text → Text → Result CpcSchemeError CpcEntry
entry_above_groups u n symbol title =
    if is_section symbol
    then ok (make_entry symbol section none title none)
    else if is_class u symbol
    then ok (make_entry symbol class none title (some (take 1 symbol)))
    else if is_subclass u symbol
    then ok (make_entry symbol subclass none title (some (take 3 symbol)))
    else err (no_level n)

abbrev pub subgroup_under :
    Unicode → ℕ → ℕ → Text → Text → Option CpcEntry → Result CpcSchemeError CpcEntry
subgroup_under u n above symbol title none = err (no_parent_group n above)
subgroup_under u n above symbol title (some p) =
    if same_family u p.symbol symbol
    then ok (make_entry symbol subgroup (some (suc above)) title (some p.symbol))
    else err (no_parent_group n above)

-- `_entry` from `int(level)` on: the group `stack[dot_level - 1]` is open, or there is none.
unfoldable pub group_entry :
    Unicode → ℕ → Text → Text → List CpcEntry → Option ℤ → Result CpcSchemeError CpcEntry
unfolding same_family
group_entry u n symbol title stack none = err (value_error n)
group_entry u n symbol title stack (some (negsuc k)) = err (value_error n)
group_entry u n symbol title stack (some (pos zero)) =
    ok (make_entry symbol main_group (some 0) title (some (take 4 symbol)))
group_entry u n symbol title stack (some (pos (suc above))) =
    subgroup_under u n above symbol title (get_elem? stack above)

abbrev pub entry_with_level :
    Unicode → ℕ → Text → Text → Text → List CpcEntry → Result CpcSchemeError CpcEntry
entry_with_level u n symbol level title stack =
    if not (is_digits u level)
    then err (level_not_number n)
    else elim (normalize_classification_code u symbol) [
      | err e ↦ err (unrecognised_code n)
      | ok normal ↦
          if text_eq.beq normal symbol
          then group_entry u n symbol title stack (int_of u level)
          else err (not_normal n)
    ]

-- `_entry`.
unfoldable pub entry :
    Unicode → ℕ → Text → Text → Text → List CpcEntry → Result CpcSchemeError CpcEntry
unfolding entry_above_groups group_entry normalize_classification_code is_digits int_of
entry u n symbol [] title stack = entry_above_groups u n symbol title
entry u n symbol (c ∷ level) title stack = entry_with_level u n symbol (c ∷ level) title stack

-- The variables of the loop of `_parse_section`.
pub record Reading : Type 0 where
  pub stack : List CpcEntry
  pub entries : List CpcEntry

-- `del stack[entry.dot_level:]` and `stack.append(entry)`, or `stack.clear()`.
abbrev pub open_at : Option ℕ → CpcEntry → List CpcEntry → List CpcEntry
open_at none e stack = []
open_at (some level) e stack = take level stack ++ (e ∷ [])

unfoldable pub open_group : CpcEntry → List CpcEntry → List CpcEntry
open_group e stack = open_at e.dot_level e stack

unfoldable pub add_entry : Reading → CpcEntry → Reading
unfolding open_group
add_entry r e = record { stack = open_group e r.stack; entries = r.entries ++ (e ∷ []) }

-- The columns of a line, which must be three, the first and the last not empty.
unfoldable pub read_columns : Unicode → ℕ → Reading → List Text → Result CpcSchemeError Reading
unfolding entry add_entry
read_columns u n r ((c ∷ symbol) ∷ level ∷ (t ∷ title) ∷ []) =
    entry u n (c ∷ symbol) level (t ∷ title) r.stack >>= λ e. ok (add_entry r e)
read_columns u n r _ = err (wrong_columns n)

-- The body of the loop, at the line with this number.
unfoldable pub read_line : Unicode → ℕ → Reading → Text → Result CpcSchemeError Reading
unfolding read_columns strip
read_line u n r line = elim (strip u line) [
  | [] ↦ ok r
  | c ∷ s ↦ read_columns u n r (split_tabs line)
]

unfoldable pub read_lines : Unicode → ℕ → Reading → List Text → Result CpcSchemeError Reading
unfolding read_line
read_lines u n r [] = ok r
read_lines u n r (line ∷ lines) = read_line u n r line >>= λ s. read_lines u (suc n) s lines

-- `_parse_section`, after the entries of the sections before it.
unfoldable pub parse_section :
    Unicode → List CpcEntry → Text → Result CpcSchemeError (List CpcEntry)
unfolding read_lines splitlines
parse_section u entries content =
    read_lines u 1 (record { stack = []; entries = entries }) (splitlines content) >>= λ r.
    ok r.entries

-- What `zipfile` offers of an archive.
pub record Archive : Type 0 where
  pub namelist : List Text
  pub read : Text → Text

abbrev pub after : Text → Text → Option Text
after [] s = some s
after (p ∷ prefix) [] = none
after (p ∷ prefix) (c ∷ s) = if c == p then after prefix s else none

abbrev pub date_of : Unicode → Text → Option Text
date_of u rest =
    if all (is_decimal u) (take 8 rest)
      && (length (take 8 rest) == 8 && text_eq.beq (drop 8 rest) (codes ".txt"))
    then some (take 8 rest)
    else none

abbrev pub after_section : Unicode → Option Text → Option Text
after_section u (some (s ∷ c ∷ rest)) =
    if is_section_letter s && c == b'_' then date_of u rest else none
after_section u _ = none

-- `_SECTION_FILE.fullmatch(name)`: the date.
unfoldable pub file_date : Unicode → Text → Option Text
file_date u name = after_section u (after (codes "cpc-section-") name)

abbrev pub and_date : Option Text → Option (List Text) → Option (List Text)
and_date (some date) (some dates) = some (date ∷ dates)
and_date (some date) none = none
and_date none dates = none

unfoldable pub file_dates : Unicode → List Text → Option (List Text)
unfolding file_date
file_dates u [] = some []
file_dates u (name ∷ names) = and_date (file_date u name) (file_dates u names)

unfoldable pub parse_files :
    Unicode → Archive → List CpcEntry → List Text → Result CpcSchemeError (List CpcEntry)
unfolding parse_section
parse_files u archive entries [] = ok entries
parse_files u archive entries (name ∷ names) =
    parse_section u entries (archive.read name) >>= λ more. parse_files u archive more names

-- The one date of all files, if there are files and they have one.
abbrev pub one_date : Option (List Text) → Result CpcSchemeError Text
one_date none = err unexpected_files
one_date (some []) = err unexpected_files
one_date (some (date ∷ dates)) = elim (distinct_from (date ∷ []) dates) [
  | [] ↦ ok date
  | d ∷ ds ↦ err different_dates
]

unfoldable pub version_of : Text → Text
version_of stamp = take 4 stamp ++ (b'.' ∷ take 2 (drop 4 stamp))

-- `parse_title_list`: no archive for a `BadZipFile`.
unfoldable pub parse_title_list : Unicode → Option Archive → Result CpcSchemeError CpcScheme
unfolding file_dates parse_files make_scheme version_of
parse_title_list u none = err not_a_zip
parse_title_list u (some archive) =
    let names = sorted text_le archive.namelist in
    one_date (file_dates u names) >>= λ stamp.
    parse_files u archive [] names >>= λ entries. make_scheme (version_of stamp) entries
