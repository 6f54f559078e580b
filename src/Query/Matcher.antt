-- ===== src/Query/Matcher.antt =====
-- `LogicalQuery`, `MatchRecord`, `LocalOutcome` and `LocalMatcher` of
-- src/patsquire_plr/landscape/queries.py.
use patent_landscapes.Base.{
  ℕ, Bool, true, false, not, ◌&&◌, Option, none, some, List, [], ◌∷◌, ◌++◌, map, leb, if◌then◌else◌,
  nat_eq, any,
}
use patent_landscapes.Base.Text.{Letters, Text, Unicode, text_eq, codes, join, strip}
use patent_landscapes.Base.Dict.{contains}
use patent_landscapes.Base.Result.{Result, ok, ◌>>=◌}
use patent_landscapes.Cpc.Scheme.{CpcScheme}
use patent_landscapes.Cpc.Within.{is_within}
use patent_landscapes.Query.Pattern.{QueryError, Phrase, phrase_patterns, search}

pub record LogicalQuery : Type 0 where
  pub phrases : Option (List Text)
  pub cpc : Option (List Text)
  pub date_from : ℕ
  pub date_to : ℕ
  pub offices : List Text

pub record MatchRecord : Type 0 where
  pub publication : Text
  pub office : Text
  pub publication_date : Option ℕ
  pub title : Option Text
  pub abstract : Option Text
  pub cpc : List Text

pub record LocalOutcome : Type 0 where
  pub matched : Bool
  pub undecidable : Option Text

-- `self._pattern` is the list of the phrases' patterns, or none where there are no phrases.
pub record LocalMatcher : Type 0 where
  pub query : LogicalQuery
  pub scheme : CpcScheme
  pub pattern : Option (List Phrase)

abbrev pub or_no_texts : Option (List Text) → List Text
or_no_texts none = []
or_no_texts (some ts) = ts

abbrev pub with_pattern : LogicalQuery → CpcScheme → Option (List Phrase) → LocalMatcher
with_pattern q s pattern = record { query = q; scheme = s; pattern = pattern }

-- `LocalMatcher.__init__`.
unfoldable pub make_matcher :
    Unicode → Letters → LogicalQuery → CpcScheme → Result QueryError LocalMatcher
unfolding phrase_patterns
make_matcher u l q s = elim (or_no_texts q.phrases) [
  | [] ↦ ok (with_pattern q s none)
  | p ∷ ps ↦ phrase_patterns u l (p ∷ ps) >>= λ patterns. ok (with_pattern q s (some patterns))
]

-- A verdict and the reason where there is none.
abbrev pub Verdict : Type 0
Verdict = Option Bool × Option Text

-- `_date`.
unfoldable pub date_verdict : LocalMatcher → MatchRecord → Verdict
date_verdict m r = elim r.publication_date [
  | none ↦ (none, some (codes "no publication date"))
  | some d ↦ (some (leb m.query.date_from d && leb d m.query.date_to), none)
]

-- `text and text.strip()`: the text of a field that is present.
abbrev pub present_text : Unicode → Option Text → Option Text
present_text u none = none
present_text u (some t) = elim (strip u t) [ [] ↦ none | c ∷ s ↦ some t ]

-- The fields that are present, as `title` or `abstract` of the dictionary, and the missing ones.
abbrev pub keep_present : Option Text → List Text → List Text
keep_present none ts = ts
keep_present (some t) ts = t ∷ ts

abbrev pub keep_missing : Text → Option Text → List Text → List Text
keep_missing name none names = name ∷ names
keep_missing name (some t) names = names

abbrev pub unless_missing : List Text → Verdict
unless_missing [] = (some false, none)
unless_missing (f ∷ fs) = (none, some (codes "no " ++ join (codes " or ") (f ∷ fs)))

-- `_text`, of the title and the abstract where they are present.
abbrev pub verdict_of_fields : Unicode → Letters → List Phrase → Option Text → Option Text → Verdict
verdict_of_fields u l ps title abstract =
    if any (λ t. search u l ps (l.lower t)) (keep_present title (keep_present abstract []))
    then (some true, none)
    else unless_missing
        (keep_missing (codes "title") title (keep_missing (codes "abstract") abstract []))

-- `_text`.
unfoldable pub text_verdict : Unicode → Letters → LocalMatcher → MatchRecord → Verdict
unfolding search strip
text_verdict u l m r = elim m.pattern [
  | none ↦ (some true, none)
  | some ps ↦ verdict_of_fields u l ps (present_text u r.title) (present_text u r.abstract)
]

-- `[is_within(code, c) for code in record.cpc for c in query.cpc]`.
abbrev pub verdicts_of : Unicode → CpcScheme → List Text → List Text → List (Option Bool)
verdicts_of u s [] chosen = []
verdicts_of u s (code ∷ cs) chosen =
    map (λ (c : Text). is_within u s code c) chosen ++ verdicts_of u s cs chosen

abbrev pub is_true : Option Bool → Bool
is_true (some true) = true
is_true (some false) = false
is_true none = false

abbrev pub is_unknown : Option Bool → Bool
is_unknown none = true
is_unknown (some b) = false

-- `_codes`, from the verdicts on.
abbrev pub codes_of_verdicts : Text → List Text → List (Option Bool) → Verdict
codes_of_verdicts version listed verdicts =
    if any is_true verdicts then (some true, none) else elim listed [
      | [] ↦ (none, some (codes "no CPC codes"))
      | c ∷ cs ↦
          if any is_unknown verdicts
          then (none, some (codes "CPC codes not in " ++ version))
          else (some false, none)
    ]

unfoldable pub codes_verdict : Unicode → LocalMatcher → MatchRecord → Verdict
unfolding is_within
codes_verdict u m r = elim (or_no_texts m.query.cpc) [
  | [] ↦ (some true, none)
  | c ∷ cs ↦ codes_of_verdicts m.scheme.version r.cpc (verdicts_of u m.scheme r.cpc (c ∷ cs))
]

abbrev pub is_no : Verdict → Bool
is_no v = elim v.0 [ none ↦ false | some b ↦ not b ]

-- `[r for v, r in verdicts if v is None and r is not None]`.
abbrev pub reason_of : Verdict → List Text → List Text
reason_of (none, some reason) rest = reason ∷ rest
reason_of (none, none) rest = rest
reason_of (some b, reason) rest = rest

abbrev pub reasons : List Verdict → List Text
reasons [] = []
reasons (v ∷ vs) = reason_of v (reasons vs)

abbrev pub local_outcome : Bool → Option Text → LocalOutcome
local_outcome matched undecidable = record { matched = matched; undecidable = undecidable }

abbrev pub outcome_of_reasons : List Text → LocalOutcome
outcome_of_reasons [] = local_outcome true none
outcome_of_reasons (r ∷ rs) = local_outcome false (some (join (codes "; ") (r ∷ rs)))

abbrev pub outcome_of : List Verdict → LocalOutcome
outcome_of verdicts =
    if any is_no verdicts then local_outcome false none else outcome_of_reasons (reasons verdicts)

abbrev pub is_office : LogicalQuery → MatchRecord → Bool
is_office q r = elim q.offices [ [] ↦ true | o ∷ os ↦ contains r.office (o ∷ os) ]

-- `LocalMatcher.evaluate`.
unfoldable pub evaluate : Unicode → Letters → LocalMatcher → MatchRecord → LocalOutcome
unfolding date_verdict text_verdict codes_verdict
evaluate u l m r =
    if not (is_office m.query r)
    then local_outcome false none
    else outcome_of (date_verdict m r ∷ text_verdict u l m r ∷ codes_verdict u m r ∷ [])
