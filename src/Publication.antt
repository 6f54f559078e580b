-- ===== src/Publication.antt =====
-- Publication numbers: `PublicationNumber` and `normalize_publication_number` of
-- src/patsquire_plr/domain/patent.py. The regular expression `_PUB_NUMBER` is written as the search
-- that it makes: the number part is lazy, so the shortest number whose rest is a whole kind code,
-- or nothing, is taken.
pub mod Match
pub mod Normal
pub mod Tests
use patent_landscapes.Base.{
  true, ℕ, Bool, false, not, ◌&&◌, ◌||◌, Option, none, some, List, [], ◌∷◌, ◌++◌, ◌==◌,
  if◌then◌else◌, is_some, filter, any, all,
}
use patent_landscapes.Base.Text.{
  text_eq, Text, codes, Unicode, is_space, is_capital, is_digit, is_alnum, upper_text, strip,
}
use patent_landscapes.Base.Dict.{contains}
use patent_landscapes.Base.Result.{Result, ok, err}
use mathlib.Core.Option

pub record PublicationNumber : Type 0 where
  pub country : Text
  pub number : Text
  pub kind : Option Text

-- The two messages of `NormalizationError`, with the raw text that they quote.
pub data NormalizationError : Type 0 where
  unrecognised : Text → NormalizationError
  ambiguous : Text → NormalizationError

abbrev pub or_empty : Option Text → Text
or_empty none = []
or_empty (some k) = k

-- `PublicationNumber.text`.
unfoldable pub text : PublicationNumber → Text
text p = p.country ++ (p.number ++ or_empty p.kind)

-- The patterns of the fields: `COUNTRY_CODE`, `^[0-9A-Z]+$` and `^[A-Z][0-9]?$`.
abbrev pub is_country : Text → Bool
is_country (a ∷ b ∷ []) = is_capital a && is_capital b
is_country _ = false

abbrev pub is_number : Text → Bool
is_number [] = false
is_number (c ∷ s) = all is_alnum (c ∷ s)

abbrev pub is_kind : Text → Bool
is_kind (l ∷ []) = is_capital l
is_kind (l ∷ d ∷ []) = is_capital l && is_digit d
is_kind _ = false

abbrev pub is_kind_or_none : Option Text → Bool
is_kind_or_none none = true
is_kind_or_none (some k) = is_kind k

unfoldable pub fields_match : PublicationNumber → Bool
fields_match p = is_country p.country && (is_number p.number && is_kind_or_none p.kind)

abbrev pub offices_with_check_letter : List Text
offices_with_check_letter = codes "SG" ∷ []

unfoldable pub is_separator : Unicode → ℕ → Bool
is_separator u c = is_space u c || c == b',' || c == b'-' || c == b'/' || c == b'.'

-- `re.sub(r"[\s,\-/.]", "", raw.strip().upper())`.
unfoldable pub compact : Unicode → Text → Text
compact u raw = filter (λ c. not (is_separator u c)) (upper_text u (strip u raw))

-- `(?P<kind>[A-Z][0-9]?)?$` at a rest of the text: the group, if all of the rest matches.
unfoldable pub kind_at : Text → Option (Option Text)
kind_at [] = some none
kind_at (l ∷ []) = if is_capital l then some (some (l ∷ [])) else none
kind_at (l ∷ d ∷ []) = if is_capital l && is_digit d then some (some (l ∷ d ∷ [])) else none
kind_at (l ∷ d ∷ x ∷ rest) = none

abbrev pub longer : ℕ → Option (Text × Option Text) → Option (Text × Option Text)
longer c none = none
longer c (some (n, k)) = some (c ∷ n, k)

abbrev pub number_ending_at :
    ℕ → Option (Option Text) → Option (Text × Option Text) → Option (Text × Option Text)
number_ending_at c none further = longer c further
number_ending_at c (some k) further = some (c ∷ [], k)

-- `(?P<number>[0-9A-Z]+?)(?P<kind>[A-Z][0-9]?)?$`.
unfoldable pub match_number : Text → Option (Text × Option Text)
unfolding kind_at
match_number [] = none
match_number (c ∷ rest) =
    if is_alnum c then number_ending_at c (kind_at rest) (match_number rest) else none

abbrev pub with_country : ℕ → ℕ → Option (Text × Option Text) → Option PublicationNumber
with_country a b none = none
with_country a b (some (n, k)) = some (record { country = a ∷ b ∷ []; number = n; kind = k })

-- `_PUB_NUMBER.fullmatch`.
unfoldable pub match_compact : Text → Option PublicationNumber
unfolding match_number
match_compact (a ∷ b ∷ rest) =
    if is_capital a && is_capital b then with_country a b (match_number rest) else none
match_compact (a ∷ []) = none
match_compact [] = none

-- `s[-1].isdigit()` and `s[:-1].isdigit()`, for the ASCII text that the pattern admits. A text
-- with no characters is no digit.
unfoldable pub last_is_digit : Text → Bool
last_is_digit [] = false
last_is_digit (c ∷ []) = is_digit c
last_is_digit (c ∷ d ∷ s) = last_is_digit (d ∷ s)

unfoldable pub init : Text → Text
init [] = []
init (c ∷ []) = []
init (c ∷ d ∷ s) = c ∷ init (d ∷ s)

abbrev pub all_digits : Text → Bool
all_digits [] = false
all_digits (c ∷ s) = all is_digit (c ∷ s)

unfoldable pub check_letter_ok : PublicationNumber → Bool
check_letter_ok p = contains p.country offices_with_check_letter && all_digits (init p.number)

-- What follows the match.
unfoldable pub accept : Text → PublicationNumber → Result NormalizationError PublicationNumber
accept raw p =
    if not (any is_digit p.number)
    then err (unrecognised raw)
    else if is_some p.kind && (not (last_is_digit p.number) && not (check_letter_ok p))
    then err (ambiguous raw)
    else ok p

abbrev pub accept_match :
    Text → Option PublicationNumber → Result NormalizationError PublicationNumber
accept_match raw none = err (unrecognised raw)
accept_match raw (some p) = accept raw p

unfoldable pub normalize_publication_number :
    Unicode → Text → Result NormalizationError PublicationNumber
normalize_publication_number u raw = accept_match raw (match_compact (compact u raw))
