-- ===== src/Query/Tests.antt =====
-- The matcher at a small scheme: words, plurals, and the three outcomes.
use patent_landscapes.Base.Number.{str}
use patent_landscapes.Cpc.Code.{is_decimals}
use patent_landscapes.Base.Sort.{sorted}
use patent_landscapes.Base.Dict.{put, get}
use patent_landscapes.Cpc.Titles.{parse_title_list}
use patent_landscapes.Base.{ℕ, ◌≡◌, refl, true, false, Option, none, some, List, [], ◌∷◌, nat_eq}
use patent_landscapes.Base.Text.{upper, upper_text, text_beq, is_space, Text, codes, text_eq}
use patent_landscapes.Base.Result.{ok, err}
use patent_landscapes.Publication.Tests.{ascii}
use patent_landscapes.Cpc.Tests.{latin, scheme}
use patent_landscapes.Query.Pattern.{Phrase, search, phrase_pattern, no_letters}
use patent_landscapes.Query.Matcher.{MatchRecord, LocalMatcher, evaluate, local_outcome}
use patent_landscapes.Query.Meaning.{evaluate-Tells, Tells, query_truth}

abbrev model : Phrase
model = record { parts = codes "language" ∷ codes "model" ∷ []; plural = true }

pattern_lem :
    (phrase_pattern ascii latin (codes " Language--model") ≡ ok model)
    × (phrase_pattern ascii latin (codes "+") ≡ err (no_letters (codes "+")))
unfolding phrase_pattern
pattern_lem = (refl, refl)

search_lem :
    (search ascii latin (model ∷ []) (codes "large language models, ") ≡ true)
    × (search ascii latin (model ∷ []) (codes "sublanguage model") ≡ false)
    × (search ascii latin (model ∷ []) (codes "language modeling") ≡ false)
unfolding search is_space
search_lem = (refl, refl, refl)

abbrev matcher : LocalMatcher
matcher = record {
  query = record {
    phrases = some (codes "language model" ∷ []);
    cpc = some (codes "G06N3/02" ∷ []);
    date_from = 10;
    date_to = 20;
    offices = codes "US" ∷ [];
  };
  scheme = scheme;
  pattern = some (model ∷ []);
}

abbrev stored : Text → Option ℕ → List Text → MatchRecord
stored title date cpc = record {
  publication = codes "US1A1";
  office = codes "US";
  publication_date = date;
  title = some title;
  abstract = none;
  cpc = cpc;
}

evaluate_lem :
    (evaluate ascii latin matcher
        (stored (codes "Language models") (some 20) (codes "G06N3/04" ∷ []))
      ≡ local_outcome true none)
    × (evaluate ascii latin matcher (stored (codes "Engine") none (codes "G06N3/04" ∷ []))
        ≡ local_outcome false (some (codes "no publication date; no abstract")))
    × (evaluate ascii latin matcher (stored (codes "Engine") (some 21) [])
        ≡ local_outcome false none)
unfolding evaluate parse_title_list text_beq get sorted upper_text upper is_decimals str put
evaluate_lem = (refl, refl, refl)

evaluate-Tells_example :
    Tells
      (evaluate ascii latin matcher
        (stored (codes "Language models") (some 20) (codes "G06N3/04" ∷ [])))
      (query_truth ascii latin matcher
        (stored (codes "Language models") (some 20) (codes "G06N3/04" ∷ [])))
evaluate-Tells_example =
    evaluate-Tells ascii latin matcher
      (stored (codes "Language models") (some 20) (codes "G06N3/04" ∷ []))
