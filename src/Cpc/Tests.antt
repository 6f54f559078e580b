-- ===== src/Cpc/Tests.antt =====
-- A small title list, read and asked.
use patent_landscapes.Cpc.Descent.{descendants-returns}
use patent_landscapes.Cpc.Children.{children_of-listed}
use patent_landscapes.Base.Pigeon.{AllApart}
use patent_landscapes.Cpc.Paths.{is_within-listed, path-returns, IsWithin, IsChain}
use patent_landscapes.Base.Dict.{get, put}
use patent_landscapes.Base.Number.{str}
use patent_landscapes.Cpc.Code.{is_decimals}
use patent_landscapes.Base.Sort.{sorted}
use patent_landscapes.Base.{
  IsIn, if◌then◌else◌, leb, map, ◌||◌, ◌&&◌, ◌<◌, ◌↔◌, ◌+◌, ℕ, none, Option, false, true, ◌⊎◌, ◌≡◌,
  refl, some, List, [], ◌∷◌, ◌++◌, nat_eq, length,
}
use patent_landscapes.Base.Text.{Letters, upper, upper_text, text_beq, Text, codes, text_eq}
use patent_landscapes.Base.Result.{Result, ok, err}
use patent_landscapes.Publication.Tests.{ascii}
use patent_landscapes.Cpc.Scheme
use patent_landscapes.Cpc.Scheme.{path, CpcEntry, CpcScheme, or_no_symbols, depth, descendants}
use patent_landscapes.Cpc.Within.{is_within}
use patent_landscapes.Cpc.Search.{search_titles}
use patent_landscapes.Cpc.Titles.{Archive, parse_title_list}

abbrev content : Text
content =
    codes "G\t\tPHYSICS\n"
    ++ codes "G06\t\tCOMPUTING\r\n"
    ++ codes "\n"
    ++ codes "G06N\t\tMODELS\n"
    ++ codes "G06N3/00\t0\tBIO\n"
    ++ codes "G06N3/02\t1\tNETS\n"
    ++ codes "G06N3/04\t2\tSHAPE"

abbrev lower_char : ℕ → ℕ
lower_char c = if leb 65 c && leb c 90 then c + 32 else c

abbrev pub latin : Letters
latin = record {
  is_word = λ c. (leb 48 c && leb c 57) || ((leb 65 c && leb c 90) || (leb 97 c && leb c 122));
  is_letter = λ c. (leb 65 c && leb c 90) || (leb 97 c && leb c 122);
  lower = map lower_char;
  casefold = map lower_char;
}

abbrev pub archive : Archive
archive = record { namelist = codes "cpc-section-G_20260801.txt" ∷ []; read = λ name. content }

abbrev pub scheme_or_empty : Result Scheme.CpcSchemeError CpcScheme → CpcScheme
scheme_or_empty (ok s) = s
scheme_or_empty (err e) = record { version = []; entries = []; children = [] }

abbrev pub scheme : CpcScheme
scheme = scheme_or_empty (parse_title_list ascii (some archive))

read_lem : (length scheme.entries ≡ 6) × (scheme.version ≡ codes "2026.08")
unfolding parse_title_list sorted text_beq upper_text upper is_decimals str put get
read_lem = (refl, refl)

read_ok : parse_title_list ascii (some archive) ≡ ok scheme
unfolding parse_title_list sorted text_beq upper_text upper is_decimals str put get
read_ok = refl

abbrev entry_or_first : Option CpcEntry → CpcEntry
entry_or_first (some e) = e
entry_or_first none = record {
  symbol = [];
  kind = Scheme.section;
  dot_level = none;
  title = [];
  parent = none;
}

abbrev nets : CpcEntry
nets = entry_or_first (get (codes "G06N3/02") scheme.entries)

nets_listed : get (codes "G06N3/02") scheme.entries ≡ some nets
unfolding parse_title_list get sorted text_beq upper_text upper is_decimals str put
nets_listed = refl

-- A subgroup of a main group that is not open.
orphan_lem :
    parse_title_list ascii (
      some (record {
        namelist = codes "cpc-section-G_20260801.txt" ∷ [];
        read = λ name. codes "G06N\t\tM\nG06N3/00\t0\tB\nG06N5/02\t1\tN";
      }))
    ≡ err (Scheme.no_parent_group 3 0)
unfolding parse_title_list sorted text_beq upper_text upper is_decimals str
orphan_lem = refl

path-returns_example :
    ((get (codes "G06N3/02") scheme.entries ≡ none) × (path scheme (codes "G06N3/02") ≡ some []))
    ⊎ ((e : CpcEntry) × (chain : List CpcEntry) × (get (codes "G06N3/02") scheme.entries ≡ some e)
        × (path scheme (codes "G06N3/02") ≡ some chain)
        × IsChain scheme e chain)
path-returns_example = path-returns ascii archive scheme (codes "G06N3/02") read_ok

children_of-listed_example :
    (IsIn (codes "G06N3/02") (or_no_symbols (get (codes "G06N3/00") scheme.children)) ↔ (
      (e : CpcEntry) × (a : CpcEntry) × (get (codes "G06N3/02") scheme.entries ≡ some e)
      × (e.parent ≡ some (codes "G06N3/00"))
      × (get (codes "G06N3/00") scheme.entries ≡ some a)
      × (depth a < depth e)))
    × AllApart (or_no_symbols (get (codes "G06N3/00") scheme.children))
children_of-listed_example =
    children_of-listed ascii archive scheme (codes "G06N3/00") (codes "G06N3/02") read_ok

descendants-returns_example :
    (found : List Text) × (descendants scheme (length scheme.entries) (codes "G06N") ≡ some found)
    × AllApart found
    × ((x : Text)
        → IsIn x found ↔ (
            (e : CpcEntry) × (get x scheme.entries ≡ some e)
            × IsWithin scheme (codes "G06N") e
            × ¬ (x ≡ codes "G06N")))
descendants-returns_example = descendants-returns ascii archive scheme (codes "G06N") read_ok

descendants_lem :
    descendants scheme 6 (codes "G06N")
    ≡ some (codes "G06N3/00" ∷ codes "G06N3/02" ∷ codes "G06N3/04" ∷ [])
unfolding descendants parse_title_list get sorted text_beq upper_text upper is_decimals str put
    Scheme.children_of
descendants_lem = refl

is_within-listed_example :
    ((is_within ascii scheme (codes "G06N3/02") (codes "G06") ≡ some true)
      × IsWithin scheme (codes "G06") nets)
    ⊎ ((is_within ascii scheme (codes "G06N3/02") (codes "G06") ≡ some false)
        × ¬ IsWithin scheme (codes "G06") nets)
is_within-listed_example =
    is_within-listed ascii archive scheme (codes "G06N3/02") (codes "G06") nets read_ok nets_listed

is_within_lem :
    (is_within ascii scheme (codes "G06N3/02") (codes "G06") ≡ some true)
    × (is_within ascii scheme (codes "G06N3/02") (codes "G06N3/04") ≡ some false)
    × (is_within ascii scheme (codes "G06N7/01") (codes "G06N3/00") ≡ some false)
    × (is_within ascii scheme (codes "G06N2003/01") (codes "G06N3/02") ≡ none)
unfolding is_within parse_title_list get sorted text_beq upper_text upper is_decimals str put
is_within_lem = (refl, refl, refl, refl)

abbrev nets_terms : List Text
nets_terms = codes "net" ∷ codes "nets" ∷ codes "c++" ∷ []

search_titles_lem :
    search_titles ascii latin scheme (codes "bio" ∷ codes "shape" ∷ []) (codes "G06N" ∷ []) 1
    ≡ some (
        record {
          symbol = codes "G06N3/04";
          title_path = codes "BIO > NETS > SHAPE";
          matched_terms = codes "bio" ∷ codes "shape" ∷ [];
          score = 2;
        }
        ∷ [])
unfolding search_titles parse_title_list sorted text_beq upper_text upper is_decimals str put get
search_titles_lem = refl
