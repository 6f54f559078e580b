-- ===== src/Publication/Tests.antt =====
-- Publication numbers at concrete spellings, and the theorems of Normal.antt at them.
use patent_landscapes.Base.{◌≡◌, refl, ◌⊎◌, true, false, ◌||◌, none, some, [], ◌∷◌, nat_eq, any}
use patent_landscapes.Base.Text.{
  text_eq, codes, Unicode, is_space, upper, upper_text, strip, text_beq, is_digit,
}
use patent_landscapes.Base.Result.{ok, err}
use patent_landscapes.Publication.{
  PublicationNumber, unrecognised, ambiguous, text, normalize_publication_number, compact,
  is_separator, match_compact, accept, check_letter_ok, last_is_digit, init, fields_match,
}
use patent_landscapes.Publication.Normal.{
  normalize-fields_match, normalize-text, text-injective, normalize-digits,
}

-- Nothing beyond ASCII is white space or has another upper case.
abbrev pub ascii : Unicode
ascii = record {
  wide_upper = λ c. c ∷ [];
  wide_space = λ c. false;
  wide_decimal = λ c. none;
  wide_digit = λ c. false;
}

abbrev us : PublicationNumber
us = record { country = codes "US"; number = codes "10123456"; kind = some (codes "B2") }

us_lem : normalize_publication_number ascii (codes " us 10,123,456 B2") ≡ ok us
unfolding normalize_publication_number compact is_separator match_compact accept check_letter_ok
    last_is_digit init strip is_space upper upper_text text_beq
us_lem = refl

us_dashes : normalize_publication_number ascii (codes "US-10123456-B2") ≡ ok us
unfolding normalize_publication_number compact is_separator match_compact accept check_letter_ok
    last_is_digit init strip is_space upper upper_text text_beq
us_dashes = refl

sg_check_letter :
    normalize_publication_number ascii (codes "SG10201707936TA")
    ≡ ok (record { country = codes "SG"; number = codes "10201707936T"; kind = some (codes "A") })
unfolding normalize_publication_number compact is_separator match_compact accept check_letter_ok
    last_is_digit init strip is_space upper upper_text text_beq
sg_check_letter = refl

no_check_letter :
    normalize_publication_number ascii (codes "US123TA") ≡ err (ambiguous (codes "US123TA"))
unfolding normalize_publication_number compact is_separator match_compact accept check_letter_ok
    last_is_digit init strip is_space upper upper_text text_beq
no_check_letter = refl

no_digit : normalize_publication_number ascii (codes "USABC") ≡ err (unrecognised (codes "USABC"))
unfolding normalize_publication_number compact is_separator match_compact accept check_letter_ok
    last_is_digit init strip is_space upper upper_text text_beq
no_digit = refl

normalize-fields_match_example :
    (fields_match us ≡ true)
    × (any is_digit us.number ≡ true)
    × ((us.kind ≡ none) ⊎ ((last_is_digit us.number || check_letter_ok us) ≡ true))
normalize-fields_match_example = normalize-fields_match ascii (codes " us 10,123,456 B2") us us_lem

normalize-text_example : normalize_publication_number ascii (text us) ≡ ok us
normalize-text_example = normalize-text ascii (codes " us 10,123,456 B2") us us_lem

text-injective_example : us ≡ us
text-injective_example =
    text-injective ascii (codes " us 10,123,456 B2") (codes "US-10123456-B2") us us us_lem us_dashes
      refl

normalize-digits_example : normalize_publication_number ascii (text us) ≡ ok us
unfolding fields_match
normalize-digits_example = normalize-digits ascii us refl refl
