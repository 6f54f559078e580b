-- ===== src/Query/Pattern.antt =====
-- `_phrase_regex` and the pattern of `LocalMatcher` in src/patsquire_plr/landscape/queries.py, as the
-- search that the regular expression makes. What the Unicode database says of letters is a
-- parameter.
use patent_landscapes.Base.{
  ℕ, Bool, true, false, not, ◌&&◌, ◌||◌, Option, none, some, List, [], ◌∷◌, ◌==◌, if◌then◌else◌,
  nat_eq, filter, any,
}
use patent_landscapes.Base.Text.{Letters, Text, Unicode, text_eq, is_space, strip, codes}
use patent_landscapes.Base.Result.{Result, ok, err, ◌>>=◌}

pub data QueryError : Type 0 where
  no_letters : Text → QueryError
  wrong_scheme : Text → Text → QueryError
  unknown_code : Text → QueryError
  unsafe_values : List Text → QueryError

-- `[\s\-]`.
unfoldable pub is_gap : Unicode → ℕ → Bool
is_gap u c = is_space u c || c == b'-'

abbrev pub in_first_word : ℕ → List Text → List Text
in_first_word c [] = (c ∷ []) ∷ []
in_first_word c (w ∷ ws) = (c ∷ w) ∷ ws

-- `re.split(r"[\s\-]+", s)`, an empty text at each end where a gap stands.
unfoldable pub pieces : Unicode → Text → List Text
unfolding is_gap
pieces u [] = [] ∷ []
pieces u (c ∷ s) = let rest = pieces u s in if is_gap u c then [] ∷ rest else in_first_word c rest

abbrev pub is_nonempty : Text → Bool
is_nonempty [] = false
is_nonempty (c ∷ s) = true

-- The words of a phrase. Pieces between two characters of one gap are empty, and dropped as the
-- source drops empty pieces.
unfoldable pub words : Unicode → Letters → Text → List Text
unfolding pieces strip
words u l phrase = filter is_nonempty (pieces u (strip u (l.lower phrase)))

-- A phrase's words, the last with its plurals if it ends in a letter.
pub record Phrase : Type 0 where
  pub parts : List Text
  pub plural : Bool

abbrev pub ends_in : (ℕ → Bool) → Text → Bool
ends_in p [] = false
ends_in p (c ∷ []) = p c
ends_in p (c ∷ d ∷ s) = ends_in p (d ∷ s)

abbrev pub last_ends_in : (ℕ → Bool) → List Text → Bool
last_ends_in p [] = false
last_ends_in p (w ∷ []) = ends_in p w
last_ends_in p (w ∷ x ∷ ws) = last_ends_in p (x ∷ ws)

-- `_phrase_regex`.
unfoldable pub phrase_pattern : Unicode → Letters → Text → Result QueryError Phrase
unfolding words
phrase_pattern u l phrase =
    if any (any l.is_word) (words u l phrase)
    then ok
        (record { parts = words u l phrase; plural = last_ends_in l.is_letter (words u l phrase) })
    else err (no_letters phrase)

unfoldable pub phrase_patterns : Unicode → Letters → List Text → Result QueryError (List Phrase)
unfolding phrase_pattern
phrase_patterns u l [] = ok []
phrase_patterns u l (p ∷ ps) =
    phrase_pattern u l p >>= λ q. phrase_patterns u l ps >>= λ qs. ok (q ∷ qs)

-- The text after a word that it starts with.
abbrev pub after_word : Text → Text → Option Text
after_word [] s = some s
after_word (p ∷ w) [] = none
after_word (p ∷ w) (c ∷ s) = if c == p then after_word w s else none

-- `(?![^\W_])`: no letter or digit follows.
abbrev pub is_end : Letters → Text → Bool
is_end l [] = true
is_end l (c ∷ s) = not (l.is_word c)

abbrev pub is_end_after : Letters → Text → Text → Bool
is_end_after l suffix s = elim (after_word suffix s) [ none ↦ false | some r ↦ is_end l r ]

-- `(?:s|es)?` where it stands, and the end.
abbrev pub ends_phrase : Letters → Bool → Text → Bool
ends_phrase l plural s =
    is_end l s || (plural && (is_end_after l (codes "s") s || is_end_after l (codes "es") s))

-- `[\s\-]+`, taken whole: no word starts with a character of a gap.
abbrev pub skip_gap : Unicode → Text → Text
skip_gap u [] = []
skip_gap u (c ∷ s) = if is_gap u c then skip_gap u s else c ∷ s

abbrev pub after_gap : Unicode → Text → Option Text
after_gap u [] = none
after_gap u (c ∷ s) = if is_gap u c then some (skip_gap u s) else none

-- The words that are left, the first of them at the start of the text.
unfoldable pub matches_parts : Unicode → Letters → Bool → List Text → Text → Bool
unfolding is_gap
matches_parts u l plural [] s = ends_phrase l plural s
matches_parts u l plural (w ∷ []) s = elim (after_word w s) [
  | none ↦ false
  | some r ↦ ends_phrase l plural r
]
matches_parts u l plural (w ∷ x ∷ ws) s = elim (after_word w s) [
  | none ↦ false
  | some r ↦ elim (after_gap u r) [ none ↦ false | some t ↦ matches_parts u l plural (x ∷ ws) t ]
]

abbrev pub matches_phrase : Unicode → Letters → Text → Phrase → Bool
matches_phrase u l s p = matches_parts u l p.plural p.parts s

-- `pattern.search(s)`, after a character that is a letter or digit, or is not.
unfoldable pub search_from : Unicode → Letters → List Phrase → Bool → Text → Bool
unfolding matches_parts
search_from u l ps inside [] = not inside && any (matches_phrase u l []) ps
search_from u l ps inside (c ∷ s) =
    (not inside && any (matches_phrase u l (c ∷ s)) ps) || search_from u l ps (l.is_word c) s

unfoldable pub search : Unicode → Letters → List Phrase → Text → Bool
unfolding search_from
search u l ps s = search_from u l ps false s
