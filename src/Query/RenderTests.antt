-- ===== src/Query/RenderTests.antt =====
-- A query in the syntax of the EPO and of BigQuery.
use patent_landscapes.Cpc.Scheme.{children_of}
use patent_landscapes.Base.Dict.{put}
use patent_landscapes.Base.Number.{str}
use patent_landscapes.Cpc.Code.{is_decimals}
use patent_landscapes.Base.Sort.{sorted}
use patent_landscapes.Cpc.Titles.{parse_title_list}
use patent_landscapes.Base.{◌≡◌, refl, some, List, [], ◌∷◌, ◌==◌, if◌then◌else◌, nat_eq}
use patent_landscapes.Base.Text.{upper, upper_text, text_beq, Text, codes, text_eq}
use patent_landscapes.Base.Result.{ok, err}
use patent_landscapes.Publication.Tests.{ascii}
use patent_landscapes.Cpc.Tests.{scheme, latin}
use patent_landscapes.Query.Pattern.{unknown_code, unsafe_values}
use patent_landscapes.Query.Matcher.{LogicalQuery}
use patent_landscapes.Query.Render.{Writing, to_epo_cql, expand_codes, to_bigquery_sql}

abbrev writing : Writing
writing = record {
  compact_date = λ d. if d == 1 then codes "20200101" else codes "20201231";
  escape = λ t. t;
}

abbrev query : List Text → LogicalQuery
query phrases = record {
  phrases = some phrases;
  cpc = some (codes "G06N" ∷ codes "G06N3/02" ∷ []);
  date_from = 1;
  date_to = 2;
  offices = codes "US" ∷ [];
}

epo_lem :
    to_epo_cql writing (query (codes "neural net" ∷ codes "LLM" ∷ []))
    ≡ codes
        "(ta=\"neural net\" or ta=\"LLM\") and (cpc=/low G06N or cpc=/low G06N3/02) and pd within \"20200101 20201231\" and pn=US"
unfolding to_epo_cql
epo_lem = refl

expand_codes_lem :
    (expand_codes scheme (codes "G06N3/02" ∷ codes "G06" ∷ [])
      ≡ ok (codes "G06N3/02" ∷ codes "G06N3/04" ∷ codes "G06N3/00" ∷ []))
    × (expand_codes scheme (codes "H04" ∷ []) ≡ err (unknown_code (codes "H04")))
unfolding expand_codes parse_title_list sorted text_beq upper_text upper is_decimals str put
    children_of
expand_codes_lem = (refl, refl)

sql_lem :
    (to_bigquery_sql ascii latin writing scheme (query (codes "LLM" ∷ []))
      ≡ ok (
          codes
            "SELECT COUNT(DISTINCT p.publication_number) AS matches\nFROM `patents-public-data.patents.publications` AS p\nWHERE p.publication_date BETWEEN 20200101 AND 20201231\n  AND p.country_code IN ('US')\n  AND (EXISTS (SELECT 1 FROM UNNEST(p.title_localized) AS t WHERE REGEXP_CONTAINS(LOWER(t.text), r'(?:^|[^\\pL\\pN])(?:llm(?:s|es)?)(?:$|[^\\pL\\pN])')) OR EXISTS (SELECT 1 FROM UNNEST(p.abstract_localized) AS t WHERE REGEXP_CONTAINS(LOWER(t.text), r'(?:^|[^\\pL\\pN])(?:llm(?:s|es)?)(?:$|[^\\pL\\pN])')))\n  AND EXISTS (SELECT 1 FROM UNNEST(p.cpc) AS c WHERE SUBSTR(c.code, 1, 4) = 'G06N' OR c.code IN ('G06N3/02', 'G06N3/04'))"))
    × (to_bigquery_sql ascii latin writing scheme (query (codes "a'b" ∷ []))
        ≡ err (unsafe_values (codes "a'b" ∷ [])))
unfolding to_bigquery_sql parse_title_list sorted text_beq upper_text upper is_decimals str put
    children_of
sql_lem = (refl, refl)
