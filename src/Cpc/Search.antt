-- ===== src/Cpc/Search.antt =====
-- The title search of src/patsquire_plr/classification/cpc.py: `search`, `search_term_problems` and
-- their helpers. What the Unicode database says of letters is a parameter.
use patent_landscapes.Base.{
  ℕ, zero, suc, ◌+◌, Bool, true, false, not, ◌&&◌, ◌||◌, Option, none, some, List, [], ◌∷◌, ◌++◌,
  map, ltb, leb, ◌==◌, if◌then◌else◌, is_some, nat_eq, length, take, filter, any,
}
use patent_landscapes.Base.Text.{
  Text, Unicode, Letters, text_eq, text_le, text_beq, codes, is_space,
}
use patent_landscapes.Base.Dict.{distinct_from}
use patent_landscapes.Base.Sort.{sorted}
use patent_landscapes.Cpc.Scheme.{CpcEntry, CpcScheme, plain_title, path, titles}
use patent_landscapes.Cpc.Within.{starts_with}

pub record CpcMatch : Type 0 where
  pub symbol : Text
  pub title_path : Text
  pub matched_terms : List Text
  pub score : ℕ

-- The text after the parenthesis that closes here, if no other opens before it.
abbrev pub after_reference : Text → Option Text
after_reference [] = none
after_reference (c ∷ s) =
    if c == b')' then some s else if c == b'(' then none else after_reference s

-- `_REFERENCE.sub(" ", text)`; the fuel is the text's length.
unfoldable pub without_references : ℕ → Text → Text
without_references zero s = s
without_references (suc fuel) [] = []
without_references (suc fuel) (c ∷ s) =
    if c == b'('
    then elim (after_reference s) [
      | none ↦ c ∷ without_references fuel s
      | some rest ↦ b' ' ∷ without_references fuel rest
    ]
    else c ∷ without_references fuel s

-- The loop of `_words`, until nothing changes. A replacement shortens the text, so the text's length
-- is enough fuel.
unfoldable pub drop_references : ℕ → Text → Text
unfolding without_references
drop_references zero s = s
drop_references (suc fuel) s =
    let next = without_references (length s) s in
    if text_beq next s then s else drop_references fuel next

abbrev pub in_word : ℕ → List Text → List Text
in_word c [] = (c ∷ []) ∷ []
in_word c (w ∷ ws) = (c ∷ w) ∷ ws

-- `_WORD.findall`; a word goes on where the character after is of a word too.
unfoldable pub find_words : (ℕ → Bool) → Text → List Text
find_words p [] = []
find_words p (c ∷ []) = if p c then (c ∷ []) ∷ [] else []
find_words p (c ∷ d ∷ s) =
    let rest = find_words p (d ∷ s) in
    if p c then (if p d then in_word c rest else (c ∷ []) ∷ rest) else rest

-- `_words`.
unfoldable pub title_words : Letters → Text → List Text
unfolding drop_references find_words
title_words l s = find_words l.is_word (l.casefold (drop_references (length s) s))

-- `_same_word`, of the shorter word and the longer.
abbrev pub is_plural_of : Text → Text → Bool
is_plural_of long short =
    leb 4 (length short)
    && (text_beq long (short ++ codes "s") || text_beq long (short ++ codes "es"))

unfoldable pub same_word : Text → Text → Bool
same_word a b =
    text_beq a b || (if leb (length a) (length b) then is_plural_of b a else is_plural_of a b)

abbrev pub starts_phrase : List Text → List Text → Bool
starts_phrase [] ws = true
starts_phrase (p ∷ ps) [] = false
starts_phrase (p ∷ ps) (w ∷ ws) = same_word w p && starts_phrase ps ws

-- `_contains`.
unfoldable pub contains_phrase : List Text → List Text → Bool
unfolding same_word
contains_phrase [] phrase = starts_phrase phrase []
contains_phrase (w ∷ ws) phrase = starts_phrase phrase (w ∷ ws) || contains_phrase ws phrase

pub data TermProblem : Type 0 where
  no_letters_or_digits ignored_characters : TermProblem

-- `[^\w\s\-]|_` at a character.
abbrev pub is_ignored : Unicode → Letters → ℕ → Bool
is_ignored u l c = c == b'_' || not (l.is_word c || (is_space u c || c == b'-'))

-- The problem of a term in `search_term_problems`.
unfoldable pub search_term_problem : Unicode → Letters → Text → Option TermProblem
unfolding title_words is_space
search_term_problem u l term = elim (title_words l term) [
  | [] ↦ some no_letters_or_digits
  | w ∷ ws ↦ if any (is_ignored u l) term then some ignored_characters else none
]

abbrev pub with_problem :
    Text → Option TermProblem → List (Text × TermProblem) → List (Text × TermProblem)
with_problem t none ps = ps
with_problem t (some p) ps = (t, p) ∷ ps

abbrev pub problems_of : Unicode → Letters → List Text → List (Text × TermProblem)
problems_of u l [] = []
problems_of u l (t ∷ ts) = with_problem t (search_term_problem u l t) (problems_of u l ts)

-- `search_term_problems`, each term once.
unfoldable pub search_term_problems : Unicode → Letters → List Text → List (Text × TermProblem)
unfolding search_term_problem
search_term_problems u l terms = problems_of u l (distinct_from [] terms)

abbrev pub has_no_problem : Unicode → Letters → Text → Bool
has_no_problem u l t = not (is_some (search_term_problem u l t))

-- `phrases`: the terms without a problem, with their words.
unfoldable pub phrases_of : Unicode → Letters → List Text → List (Text × List Text)
unfolding search_term_problem title_words
phrases_of u l terms =
    map (λ (t : Text). (t, title_words l t)) (filter (has_no_problem u l) (distinct_from [] terms))

abbrev pub is_in_scope : List Text → Text → Bool
is_in_scope [] symbol = true
is_in_scope (w ∷ ws) symbol = any (starts_with symbol) (w ∷ ws)

-- A group whose own title contains a term.
unfoldable pub is_hit : Letters → List (Text × List Text) → List Text → Text → CpcEntry → Bool
unfolding title_words contains_phrase
is_hit l phrases within symbol e =
    is_some e.dot_level
    && (is_in_scope within symbol
        && any (λ (p : Text × List Text). contains_phrase (title_words l (plain_title e)) p.1)
            phrases)

abbrev pub words_of_groups : Letters → List CpcEntry → List Text
words_of_groups l [] = []
words_of_groups l (e ∷ es) =
    if is_some e.dot_level
    then title_words l (plain_title e) ++ words_of_groups l es
    else words_of_groups l es

abbrev pub sum_lengths : List (Text × List Text) → ℕ
sum_lengths [] = 0
sum_lengths ((t, w) ∷ ps) = length w + sum_lengths ps

abbrev pub terms_of : List (Text × List Text) → List Text
terms_of ps = map (λ (p : Text × List Text). p.0) ps

-- The match of an entry, from its path.
unfoldable pub match_of : Letters → List (Text × List Text) → Text → List CpcEntry → CpcMatch
unfolding contains_phrase title_words titles
match_of l phrases symbol chain =
    let found =
      filter (λ (p : Text × List Text). contains_phrase (words_of_groups l chain) p.1) phrases in
    record {
      symbol = symbol;
      title_path = titles chain;
      matched_terms = terms_of found;
      score = sum_lengths found;
    }

abbrev pub and_match : Option CpcMatch → Option (List CpcMatch) → Option (List CpcMatch)
and_match (some m) (some ms) = some (m ∷ ms)
and_match (some m) none = none
and_match none ms = none

abbrev pub match_path :
    Letters → List (Text × List Text) → Text → Option (List CpcEntry) → Option CpcMatch
match_path l phrases symbol none = none
match_path l phrases symbol (some chain) = some (match_of l phrases symbol chain)

-- The loop over the scope; none where a path does not end.
unfoldable pub matches_of :
    Letters → CpcScheme → List (Text × List Text) → List (Text × CpcEntry) → Option (List CpcMatch)
unfolding match_of path
matches_of l s phrases [] = some []
matches_of l s phrases ((symbol, e) ∷ es) =
    and_match (match_path l phrases symbol (path s symbol)) (matches_of l s phrases es)

-- The sort key `(-m.score, m.symbol)`.
abbrev pub match_le : CpcMatch → CpcMatch → Bool
match_le a b = ltb b.score a.score || (a.score == b.score && text_le a.symbol b.symbol)

abbrev pub best : ℕ → Option (List CpcMatch) → Option (List CpcMatch)
best limit none = none
best limit (some ms) = some (take limit (sorted match_le ms))

-- `CpcScheme.search`.
unfoldable pub search_titles :
    Unicode → Letters → CpcScheme → List Text → List Text → ℕ → Option (List CpcMatch)
unfolding phrases_of is_hit matches_of
search_titles u l s terms within limit =
    let phrases = phrases_of u l terms in
    best limit (
      matches_of l s phrases
        (filter (λ (p : Text × CpcEntry). is_hit l phrases within p.0 p.1) s.entries))
