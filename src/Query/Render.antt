-- ===== src/Query/Render.antt =====
-- The rendering of a logical query in src/patsquire_plr/landscape/queries.py for the EPO (CQL) and for
-- BigQuery (SQL), and `expand_codes`. How a date is written and `re.escape` are parameters.
use patent_landscapes.Base.{
  ℕ, suc, Bool, false, not, ◌&&◌, ◌||◌, Option, none, some, List, [], ◌∷◌, ◌++◌, map, if◌then◌else◌,
  is_some, nat_eq, length, filter, any, all, keep_if,
}
use patent_landscapes.Base.Text.{Text, Unicode, Letters, text_eq, codes, join, is_capital}
use patent_landscapes.Base.Dict.{get, distinct_from, contains}
use patent_landscapes.Base.Result.{Result, ok, err, ◌>>=◌}
use patent_landscapes.Cpc.Code.{is_subclass}
use patent_landscapes.Cpc.Scheme.{CpcScheme, descendants}
use patent_landscapes.Query.Pattern.{
  QueryError, unknown_code, unsafe_values, Phrase, phrase_patterns,
}
use patent_landscapes.Query.Matcher.{LogicalQuery, or_no_texts}

-- `f"{d:%Y%m%d}"` and `re.escape`.
pub record Writing : Type 0 where
  pub compact_date : ℕ → Text
  pub escape : Text → Text

-- `_or`.
unfoldable pub or_text : List Text → Text
or_text [] = codes "()"
or_text (part ∷ []) = part
or_text (part ∷ more ∷ parts) =
    codes "(" ++ (join (codes " or ") (part ∷ more ∷ parts) ++ codes ")")

abbrev pub quoted : Text → Text → Text → Text
quoted before after t = before ++ (t ++ after)

-- A clause for a list that is not empty.
abbrev pub clause_of : (Text → Text) → List Text → List Text
clause_of write [] = []
clause_of write (t ∷ ts) = or_text (map write (t ∷ ts)) ∷ []

-- `to_epo_cql`.
unfoldable pub to_epo_cql : Writing → LogicalQuery → Text
unfolding or_text
to_epo_cql w q =
    let dates = w.compact_date q.date_from ++ (b' ' ∷ w.compact_date q.date_to) in
    join (codes " and ") (
      clause_of (quoted (codes "ta=\"") (codes "\"")) (or_no_texts q.phrases)
      ++ (clause_of (quoted (codes "cpc=/low ") []) (or_no_texts q.cpc)
          ++ (quoted (codes "pd within \"") (codes "\"") dates
              ∷ clause_of (quoted (codes "pn=") []) q.offices)))

-- What `expand_codes` adds for a code: itself where it is a group, and the groups below it. Each
-- entry below is popped once, so one round for each entry of the scheme is enough.
abbrev pub has_slash : Text → Bool
has_slash t = contains b'/' t

abbrev pub or_none_below : Option (List Text) → List Text
or_none_below none = []
or_none_below (some ds) = ds

unfoldable pub groups_below : CpcScheme → Text → List Text
unfolding descendants
groups_below s code = filter has_slash (or_none_below (descendants s (suc (length s.entries)) code))

unfoldable pub expand_all : CpcScheme → List Text → Result QueryError (List Text)
unfolding groups_below get
expand_all s [] = ok []
expand_all s (code ∷ codes) = elim (get code s.entries) [
  | none ↦ err (unknown_code code)
  | some e ↦ expand_all s codes >>= λ rest.
      ok (keep_if (is_some e.dot_level) code (groups_below s code) ++ rest)
]

-- `expand_codes`.
unfoldable pub expand_codes : CpcScheme → List Text → Result QueryError (List Text)
unfolding expand_all
expand_codes s codes = expand_all s codes >>= λ all. ok (distinct_from [] all)

-- `['\"\\`]`.
abbrev pub unsafe_characters : Text
unsafe_characters = codes "'\"\\`"

abbrev pub is_unsafe : Text → Bool
is_unsafe t = any (λ c. contains c unsafe_characters) t

abbrev pub is_office_code : Text → Bool
is_office_code (a ∷ b ∷ []) = is_capital a && is_capital b
is_office_code _ = false

abbrev pub values_in : LogicalQuery → List Text
values_in q = q.offices ++ (or_no_texts q.cpc ++ or_no_texts q.phrases)

abbrev pub or_offices : List Text → List Text → List Text
or_offices [] offices = offices
or_offices (t ∷ ts) offices = t ∷ ts

-- `_check_sql_safe`.
unfoldable pub check_sql_safe : LogicalQuery → Result QueryError LogicalQuery
check_sql_safe q =
    if any is_unsafe (values_in q) || not (all is_office_code q.offices)
    then err (unsafe_values (or_offices (filter is_unsafe (values_in q)) q.offices))
    else ok q

-- The text of `_phrase_regex`.
abbrev pub with_plural : Bool → List Text → List Text
with_plural plural [] = []
with_plural plural (w ∷ []) = (if plural then w ++ codes "(?:s|es)?" else w) ∷ []
with_plural plural (w ∷ x ∷ ws) = w ∷ with_plural plural (x ∷ ws)

unfoldable pub phrase_text : Writing → Phrase → Text
phrase_text w p = join (codes "[\\s\\-]+") (with_plural p.plural (map w.escape p.parts))

-- `_bigquery_pattern`.
unfoldable pub bigquery_pattern : Writing → List Phrase → Text
unfolding phrase_text
bigquery_pattern w ps =
    codes "(?:^|[^\\pL\\pN])(?:"
    ++ (join (codes "|") (map (phrase_text w) ps) ++ codes ")(?:$|[^\\pL\\pN])")

abbrev pub in_quotes : Text → Text
in_quotes t = quoted (codes "'") (codes "'") t

abbrev pub field_condition : Text → Text → Text
field_condition pattern field =
    codes "EXISTS (SELECT 1 FROM UNNEST(p."
    ++ (field
        ++ (codes ") AS t WHERE REGEXP_CONTAINS(LOWER(t.text), r'" ++ (pattern ++ codes "'))")))

abbrev pub office_conditions : List Text → List Text
office_conditions [] = []
office_conditions (o ∷ os) =
    quoted (codes "p.country_code IN (") (codes ")") (join (codes ", ") (map in_quotes (o ∷ os)))
    ∷ []

abbrev pub text_conditions : Writing → List Phrase → List Text
text_conditions w [] = []
text_conditions w (p ∷ ps) =
    let pattern = bigquery_pattern w (p ∷ ps) in
    quoted (codes "(") (codes ")") (
      field_condition pattern (codes "title_localized")
      ++ (codes " OR " ++ field_condition pattern (codes "abstract_localized")))
    ∷ []

abbrev pub group_condition : List Text → List Text
group_condition [] = []
group_condition (g ∷ gs) =
    quoted (codes "c.code IN (") (codes ")") (join (codes ", ") (map in_quotes (g ∷ gs))) ∷ []

unfoldable pub code_conditions : Unicode → CpcScheme → List Text → Result QueryError (List Text)
unfolding expand_codes
code_conditions u s [] = ok []
code_conditions u s (c ∷ cs) =
    expand_codes s (filter (λ t. not (is_subclass u t)) (c ∷ cs)) >>= λ groups. ok (
      quoted (codes "EXISTS (SELECT 1 FROM UNNEST(p.cpc) AS c WHERE ") (codes ")") (
        join (codes " OR ") (
          map (quoted (codes "SUBSTR(c.code, 1, 4) = '") (codes "'"))
            (filter (is_subclass u) (c ∷ cs))
          ++ group_condition groups))
      ∷ [])

-- `to_bigquery_sql`.
unfoldable pub to_bigquery_sql :
    Unicode → Letters → Writing → CpcScheme → LogicalQuery → Result QueryError Text
unfolding check_sql_safe phrase_patterns bigquery_pattern code_conditions
to_bigquery_sql u l w s q = check_sql_safe q >>= λ safe.
    phrase_patterns u l (or_no_texts q.phrases) >>= λ patterns.
    code_conditions u s (or_no_texts q.cpc) >>= λ conditions. ok (
      codes
        "SELECT COUNT(DISTINCT p.publication_number) AS matches\nFROM `patents-public-data.patents.publications` AS p\nWHERE "
      ++ join (codes "\n  AND ") (
          (codes "p.publication_date BETWEEN "
            ++ (w.compact_date q.date_from ++ (codes " AND " ++ w.compact_date q.date_to)))
          ∷ (office_conditions q.offices ++ (text_conditions w patterns ++ conditions))))
