-- ===== src/Query/Meaning.antt =====
-- What a logical query means, in three-valued logic, and that `LocalMatcher.evaluate` of
-- src/patsquire_plr/landscape/queries.py computes it.
use patent_landscapes.Base.{
  subst, not, sym, ◌≡◌, refl, ◌∙◌, Bool, true, false, ◌&&◌, Option, none, some, List, [], ◌∷◌, ◌++◌,
  map, arith, leb, if◌then◌else◌, is_some, nat_eq, any,
}
use patent_landscapes.Base.Text.{Letters, codes, Text, Unicode, text_eq}
use patent_landscapes.Cpc.Scheme.{CpcScheme}
use patent_landscapes.Cpc.Within.{is_within}
use patent_landscapes.Query.Pattern.{Phrase, search}
use patent_landscapes.Query.Matcher.{
  local_outcome, evaluate, outcome_of, codes_verdict, codes_of_verdicts, MatchRecord, LocalOutcome,
  LocalMatcher, or_no_texts, date_verdict, present_text, verdict_of_fields, text_verdict,
  verdicts_of, is_true, is_unknown, is_office, Verdict,
}
use patent_landscapes.Query.Kleene.{Truth, and3, or3, any3, any3-append, any3-map}

-- Published in the range: unknown without a date.
abbrev pub date_truth : LocalMatcher → MatchRecord → Truth
date_truth m r = elim r.publication_date [
  | none ↦ none
  | some d ↦ some (leb m.query.date_from d && leb d m.query.date_to)
]

-- A field has one of the phrases: unknown where the field is missing or blank.
abbrev pub field_truth : Unicode → Letters → List Phrase → Option Text → Truth
field_truth u l ps none = none
field_truth u l ps (some t) = some (search u l ps (l.lower t))

abbrev pub text_truth : Unicode → Letters → LocalMatcher → MatchRecord → Truth
text_truth u l m r = elim m.pattern [
  | none ↦ some true
  | some ps ↦
      or3 (field_truth u l ps (present_text u r.title))
        (field_truth u l ps (present_text u r.abstract))
]

-- One of the record's codes is within one of the query's: unknown for a record without codes.
abbrev pub listed_truth : Unicode → CpcScheme → List Text → List Text → Truth
listed_truth u s [] chosen = none
listed_truth u s (code ∷ cs) chosen = any3 (λ code. any3 (is_within u s code) chosen) (code ∷ cs)

abbrev pub codes_truth : Unicode → LocalMatcher → MatchRecord → Truth
codes_truth u m r = elim (or_no_texts m.query.cpc) [
  | [] ↦ some true
  | c ∷ cs ↦ listed_truth u m.scheme r.cpc (c ∷ cs)
]

-- The meaning of a query at a record.
abbrev pub query_truth : Unicode → Letters → LocalMatcher → MatchRecord → Truth
query_truth u l m r =
    and3 (some (is_office m.query r))
      (and3 (date_truth m r) (and3 (text_truth u l m r) (codes_truth u m r)))

-- The truth value that an outcome tells; none fits an outcome both matched and undecidable.
abbrev pub Tells : LocalOutcome → Truth → Type 0
Tells o truth = elim truth [
  | some b ↦ (o.matched ≡ b) × (o.undecidable ≡ none)
  | none ↦ (o.matched ≡ false) × (is_some o.undecidable ≡ true)
]

-- A verdict gives a reason exactly where it is unknown.
abbrev IsExplained : Verdict → Truth → Type 0
IsExplained v truth = (v.0 ≡ truth) × (is_some v.1 ≡ is_unknown truth)

verdicts_of-any3 :
    (u : Unicode) (s : CpcScheme) (cs chosen : List Text)
    → any3 (λ t. t) (verdicts_of u s cs chosen) ≡ any3 (λ code. any3 (is_within u s code) chosen) cs
verdicts_of-any3 u s [] chosen = refl
verdicts_of-any3 u s (c ∷ cs) chosen =
    any3-append (λ t. t) (map (is_within u s c) chosen) (verdicts_of u s cs chosen)
    ∙ ap2 (any3-map (is_within u s c) chosen) (verdicts_of-any3 u s cs chosen)
  where
    ap2 : {a b c d : Truth} → a ≡ b → c ≡ d → or3 a c ≡ or3 b d
    ap2 p q = cc

-- The tests of `_codes`, in order, on the verdicts.
tests-any3 :
    (ts : List Truth)
    → any3 (λ t. t) ts
      ≡ (if any is_true ts then some true else if any is_unknown ts then none else some false)
tests-any3 [] = refl
tests-any3 (t ∷ ts) = ground (arith, tests-any3 ts)

date-IsExplained :
    (m : LocalMatcher) (r : MatchRecord) → IsExplained (date_verdict m r) (date_truth m r)
unfolding date_verdict
date-IsExplained m r = ground arith

fields-IsExplained :
    (u : Unicode) (l : Letters) (ps : List Phrase) (a b : Option Text)
    → IsExplained (verdict_of_fields u l ps a b) (or3 (field_truth u l ps a) (field_truth u l ps b))
fields-IsExplained u l ps none none = (refl, refl)
fields-IsExplained u l ps none (some t) = ground arith
fields-IsExplained u l ps (some s) none = ground arith
fields-IsExplained u l ps (some s) (some t) = ground arith

text-IsExplained :
    (u : Unicode) (l : Letters) (m : LocalMatcher) (r : MatchRecord)
    → IsExplained (text_verdict u l m r) (text_truth u l m r)
unfolding text_verdict
text-IsExplained u l m r = go m.pattern
  where
    go :
        (o : Option (List Phrase))
        → IsExplained
            (elim o [
              | none ↦ (some true, none)
              | some ps ↦
                  verdict_of_fields u l ps (present_text u r.title) (present_text u r.abstract)
            ])
            (elim o [
              | none ↦ some true
              | some ps ↦
                  or3
                    (field_truth u l ps (present_text u r.title))
                    (field_truth u l ps (present_text u r.abstract))
            ])
    go none = (refl, refl)
    go (some ps) = fields-IsExplained u l ps (present_text u r.title) (present_text u r.abstract)

listed-IsExplained :
    (u : Unicode) (s : CpcScheme) (listed chosen : List Text)
    → IsExplained
        (codes_of_verdicts s.version listed (verdicts_of u s listed chosen))
        (listed_truth u s listed chosen)
listed-IsExplained u s [] chosen = (refl, refl)
listed-IsExplained u s (c ∷ cs) chosen =
    let same = verdicts_of-any3 u s (c ∷ cs) chosen in
    let tests = tests-any3 (verdicts_of u s (c ∷ cs) chosen) in
    let both = sym same ∙ tests in
    by_tests (any is_true (verdicts_of u s (c ∷ cs) chosen))
      (any is_unknown (verdicts_of u s (c ∷ cs) chosen)) both
  where
    by_tests :
        (a b : Bool)
        → listed_truth u s (c ∷ cs) chosen
          ≡ (if a then some true else if b then none else some false)
        → IsExplained
            (if a
              then (some true, none)
              else if b
              then (none, some (codes "CPC codes not in " ++ s.version))
              else (some false, none))
            (listed_truth u s (c ∷ cs) chosen)
    by_tests true b e = rw e (refl, refl)
    by_tests false true e = rw e (refl, refl)
    by_tests false false e = rw e (refl, refl)

codes-IsExplained :
    (u : Unicode) (m : LocalMatcher) (r : MatchRecord)
    → IsExplained (codes_verdict u m r) (codes_truth u m r)
unfolding codes_verdict
codes-IsExplained u m r = go (or_no_texts m.query.cpc)
  where
    go :
        (chosen : List Text)
        → IsExplained
            (elim chosen [
              | [] ↦ (some true, none)
              | c ∷ cs ↦
                  codes_of_verdicts m.scheme.version r.cpc (verdicts_of u m.scheme r.cpc (c ∷ cs))
            ])
            (elim chosen [ [] ↦ some true | c ∷ cs ↦ listed_truth u m.scheme r.cpc (c ∷ cs) ])
    go [] = (refl, refl)
    go (c ∷ cs) = listed-IsExplained u m.scheme r.cpc (c ∷ cs)

-- The verdicts that there are: decided without a reason, or unknown with one.
data Explained : Verdict → Truth → Type 0 where
  decided : (b : Bool) → Explained (some b, none) (some b)
  unknown : (reason : Text) → Explained (none, some reason) none

explained-cases : (v : Verdict) (t : Truth) → IsExplained v t → Explained v t
explained-cases (some b, none) t h = subst (Explained (some b, none)) h.0 (decided b)
explained-cases (none, some reason) t h = subst (Explained (none, some reason)) h.0 (unknown reason)
explained-cases (some b, some reason) none h = cc
explained-cases (some b, some reason) (some c) h = cc
explained-cases (none, none) none h = cc
explained-cases (none, none) (some c) h = cc

outcome-Tells :
    (d t c : Verdict) (p q r : Truth)
    → Explained d p
    → Explained t q
    → Explained c r
    → Tells (outcome_of (d ∷ t ∷ c ∷ [])) (and3 p (and3 q r))
outcome-Tells d t c p q r (decided x) (decided y) (decided z) = ground arith
outcome-Tells d t c p q r (decided x) (decided y) (unknown k) = ground arith
outcome-Tells d t c p q r (decided x) (unknown j) (decided z) = ground arith
outcome-Tells d t c p q r (decided x) (unknown j) (unknown k) = ground arith
outcome-Tells d t c p q r (unknown i) (decided y) (decided z) = ground arith
outcome-Tells d t c p q r (unknown i) (decided y) (unknown k) = ground arith
outcome-Tells d t c p q r (unknown i) (unknown j) (decided z) = ground arith
outcome-Tells d t c p q r (unknown i) (unknown j) (unknown k) = ground arith

-- `evaluate` tells what the query means at the record: matched where the conditions are all true,
-- a plain no where one is false, and undecidable, with a reason, where none is false and one is
-- unknown. The meaning is the three-valued conjunction of the office, the date, the text (either
-- field has a phrase, unknown where a field is missing) and the codes (one is within one of the
-- query's, unknown for a record without codes).
pub evaluate-Tells :
    (u : Unicode) (l : Letters) (m : LocalMatcher) (r : MatchRecord)
    → Tells (evaluate u l m r) (query_truth u l m r)
unfolding evaluate
evaluate-Tells u l m r =
    let d = date_verdict m r in
    let t = text_verdict u l m r in
    let c = codes_verdict u m r in
    by_office (is_office m.query r) (outcome_of (d ∷ t ∷ c ∷ []))
      (and3 (date_truth m r) (and3 (text_truth u l m r) (codes_truth u m r)))
      (outcome-Tells d t c (date_truth m r) (text_truth u l m r) (codes_truth u m r)
        (explained-cases _ _ (date-IsExplained m r))
        (explained-cases _ _ (text-IsExplained u l m r))
        (explained-cases _ _ (codes-IsExplained u m r)))
  where
    by_office :
        (b : Bool) (o : LocalOutcome) (t : Truth)
        → Tells o t
        → Tells (if not b then local_outcome false none else o) (and3 (some b) t)
    by_office true o t h = h
    by_office false o t h = (refl, refl)
