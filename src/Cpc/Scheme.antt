-- ===== src/Cpc/Scheme.antt =====
-- The class `CpcScheme` of src/patsquire_plr/classification/cpc.py: a version of the scheme held by
-- symbol, with the symbols below each. The walk to the section runs on fuel: as many rounds as the
-- scheme has entries, and as many more as the entry is deep.
use patent_landscapes.Base.{
  ℕ, zero, suc, ◌+◌, ◌-◌, Bool, false, not, ◌||◌, Option, none, some, List, [], ◌∷◌, ◌++◌, map,
  ◌==◌, if◌then◌else◌, is_some, nat_eq, length, take, drop, filter,
}
use patent_landscapes.Base.Text.{Text, text_eq, codes, join}
use patent_landscapes.Base.Dict.{get, put}
use patent_landscapes.Base.Result.{Result, ok, err}
use Prim.Native.Nat.{min}

pub data EntryKind : Type 0 where
  section class subclass main_group subgroup : EntryKind

pub record CpcEntry : Type 0 where
  pub symbol : Text
  pub kind : EntryKind
  pub dot_level : Option ℕ
  pub title : Text
  pub parent : Option Text

-- `CpcEntry.plain_title`.
abbrev pub plain_title : CpcEntry → Text
plain_title e = filter (λ c. not (c == b'{' || c == b'}')) e.title

-- The errors of the reader and of the constructor, by the line where one is named; `value_error`
-- is Python's own, which `int` raises.
pub data CpcSchemeError : Type 0 where
  repeats_symbol : CpcSchemeError
  missing_parents : List Text → CpcSchemeError
  not_a_zip unexpected_files different_dates : CpcSchemeError
  wrong_columns no_level level_not_number not_normal unrecognised_code : ℕ → CpcSchemeError
  no_parent_group : ℕ → ℕ → CpcSchemeError
  value_error : ℕ → CpcSchemeError

pub record CpcScheme : Type 0 where
  pub version : Text
  pub entries : List (Text × CpcEntry)
  pub children : List (Text × List Text)

-- `{e.symbol: e for e in entries}`.
unfoldable pub by_symbol : List (Text × CpcEntry) → List CpcEntry → List (Text × CpcEntry)
by_symbol d [] = d
by_symbol d (e ∷ es) = by_symbol (put e.symbol e d) es

abbrev pub is_orphan : List (Text × CpcEntry) → CpcEntry → Bool
is_orphan d e = elim e.parent [ none ↦ false | some p ↦ not (is_some (get p d)) ]

abbrev pub or_no_symbols : Option (List Text) → List Text
or_no_symbols none = []
or_no_symbols (some symbols) = symbols

-- `setdefault(parent, []).append(symbol)`.
unfoldable pub add_child : CpcEntry → List (Text × List Text) → List (Text × List Text)
add_child e d = elim e.parent [
  | none ↦ d
  | some p ↦ put p (or_no_symbols (get p d) ++ (e.symbol ∷ [])) d
]

unfoldable pub children_of : List (Text × List Text) → List CpcEntry → List (Text × List Text)
unfolding add_child
children_of d [] = d
children_of d (e ∷ es) = children_of (add_child e d) es

abbrev pub symbols_of : List CpcEntry → List Text
symbols_of es = map (λ (e : CpcEntry). e.symbol) es

abbrev pub without_orphans : Text → List CpcEntry → List CpcEntry → Result CpcSchemeError CpcScheme
without_orphans version entries (o ∷ os) = err (missing_parents (take 10 (symbols_of (o ∷ os))))
without_orphans version entries [] = ok (record {
  version = version;
  entries = by_symbol [] entries;
  children = children_of [] entries;
})

-- `CpcScheme.__init__`.
unfoldable pub make_scheme : Text → List CpcEntry → Result CpcSchemeError CpcScheme
unfolding by_symbol
make_scheme version entries =
    if not (length (by_symbol [] entries) == length entries)
    then err repeats_symbol
    else without_orphans version entries (filter (is_orphan (by_symbol [] entries)) entries)

-- `self._entries.get(entry.parent) if entry.parent else None`: an empty text counts as none.
unfoldable pub parent_entry : CpcScheme → Option Text → Option CpcEntry
parent_entry s none = none
parent_entry s (some []) = none
parent_entry s (some (c ∷ p)) = get (c ∷ p) s.entries

abbrev pub or_zero : Option ℕ → ℕ
or_zero none = 0
or_zero (some n) = n

-- How far below a section an entry stands, at most.
unfoldable pub depth : CpcEntry → ℕ
depth e = min 5 (length e.symbol) + or_zero e.dot_level

abbrev pub and_below : CpcEntry → Option (List CpcEntry) → Option (List CpcEntry)
and_below e none = none
and_below e (some above) = some (above ++ (e ∷ []))

-- The loop of `path`, the chain reversed: none where the fuel ends first.
unfoldable pub walk : CpcScheme → ℕ → Option CpcEntry → Option (List CpcEntry)
unfolding parent_entry
walk s fuel none = some []
walk s zero (some e) = none
walk s (suc fuel) (some e) = and_below e (walk s fuel (parent_entry s e.parent))

unfoldable pub path_fuel : CpcScheme → Option CpcEntry → ℕ
unfolding depth
path_fuel s none = 0
path_fuel s (some e) = suc (length s.entries + depth e)

-- `CpcScheme.path`.
unfoldable pub path : CpcScheme → Text → Option (List CpcEntry)
unfolding walk path_fuel
path s symbol = walk s (path_fuel s (get symbol s.entries)) (get symbol s.entries)

-- `[...] or chain[-1:]`.
abbrev pub or_last : List CpcEntry → List CpcEntry → List CpcEntry
or_last [] chain = drop (length chain - 1) chain
or_last (g ∷ gs) chain = g ∷ gs

-- `title_path`, of a path.
unfoldable pub titles : List CpcEntry → Text
titles chain =
    join (codes " > ")
      (map plain_title (or_last (filter (λ (e : CpcEntry). is_some e.dot_level) chain) chain))

-- `CpcScheme.title_path`.
unfoldable pub title_path : CpcScheme → Text → Option Text
unfolding path titles
title_path s symbol = elim (path s symbol) [ none ↦ none | some chain ↦ some (titles chain) ]

-- `CpcScheme.child_count`.
unfoldable pub child_count : CpcScheme → Text → ℕ
child_count s symbol = length (or_no_symbols (get symbol s.children))

-- The loop of `descendants`, its stack with the top first: none where the fuel ends first.
unfoldable pub collect : CpcScheme → ℕ → List Text → Option (List Text)
collect s fuel [] = some []
collect s zero (c ∷ stack) = none
collect s (suc fuel) (c ∷ stack) =
    elim (collect s fuel (or_no_symbols (get c s.children) ++ stack)) [
      | none ↦ none
      | some found ↦ some (c ∷ found)
    ]

-- `CpcScheme.descendants`.
unfoldable pub descendants : CpcScheme → ℕ → Text → Option (List Text)
unfolding collect
descendants s fuel symbol = collect s fuel (or_no_symbols (get symbol s.children))
