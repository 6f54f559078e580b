-- ===== src/Base/Number.antt =====
-- Decimal digits in texts: `\d` of `re`, `isdigit`, `int` and `str`. The digits of other scripts are
-- in the `Unicode` parameter. Texts are shorter than the 4,300 digits at which `int` gives up.
use Prim.Native.Nat.{ℕ, zero, suc, ◌+◌, ◌-◌, ◌*◌, ◌/◌, ◌%◌, ◌≤◌, ◌<◌}
use mathlib.Core.Path.{◌≡◌, refl, sym, ◌∙◌, ap}
use mathlib.Core.Bool.{Bool, false, ◌&&◌, ◌||◌}
use mathlib.Core.List.{[], ◌∷◌, ◌++◌}
use mathlib.Core.Option.{Option, none, some}
use mathlib.Core.Logic.{inl, inr}
use native.Mathlib.Omega.{arith}
use patent_landscapes.Base.Tests.{ltb, leb, ◌==◌, if◌then◌else◌, is_some, Bool-cases}
use patent_landscapes.Base.Lists.{all}
use patent_landscapes.Base.Int.{ℤ, pos, negsuc}
use patent_landscapes.Base.Text.{Text, Unicode, strip, is_digit}

-- The value of a decimal digit.
unfoldable pub decimal : Unicode → ℕ → Option ℕ
decimal u c = if ltb c 128 then (if is_digit c then some (c - b'0') else none) else u.wide_decimal c

-- `\d`.
unfoldable pub is_decimal : Unicode → ℕ → Bool
unfolding decimal
is_decimal u c = is_some (decimal u c)

-- `c.isdigit()`, which also admits digits that are no decimals, such as superscripts.
unfoldable pub is_digit_char : Unicode → ℕ → Bool
unfolding is_decimal
is_digit_char u c = is_decimal u c || (leb 128 c && u.wide_digit c)

-- `s.isdigit()`.
unfoldable pub is_digits : Unicode → Text → Bool
unfolding is_digit_char
is_digits u [] = false
is_digits u (c ∷ s) = all (is_digit_char u) (c ∷ s)

-- The digits of `int`, after the first: single underscores may stand between them.
unfoldable pub more_digits : Unicode → ℕ → Text → Option ℕ
unfolding decimal
more_digits u acc [] = some acc
more_digits u acc (c ∷ []) = elim (decimal u c) [ none ↦ none | some d ↦ some (acc * 10 + d) ]
more_digits u acc (c ∷ d ∷ s) =
    if c == b'_'
    then elim (decimal u d) [ none ↦ none | some v ↦ more_digits u (acc * 10 + v) s ]
    else elim (decimal u c) [ none ↦ none | some v ↦ more_digits u (acc * 10 + v) (d ∷ s) ]

unfoldable pub unsigned : Unicode → Text → Option ℕ
unfolding decimal more_digits
unsigned u [] = none
unsigned u (c ∷ s) = elim (decimal u c) [ none ↦ none | some v ↦ more_digits u v s ]

abbrev pub as_pos : Option ℕ → Option ℤ
as_pos none = none
as_pos (some n) = some (pos n)

abbrev pub as_neg : Option ℕ → Option ℤ
as_neg none = none
as_neg (some zero) = some (pos 0)
as_neg (some (suc n)) = some (negsuc n)

unfoldable pub signed : Unicode → Text → Option ℤ
unfolding unsigned
signed u [] = none
signed u (c ∷ s) =
    if c == b'-'
    then as_neg (unsigned u s)
    else if c == b'+'
    then as_pos (unsigned u s)
    else as_pos (unsigned u (c ∷ s))

-- `int(s)`, or none for its `ValueError`.
unfoldable pub int_of : Unicode → Text → Option ℤ
unfolding signed strip
int_of u s = signed u (strip u s)

-- `int` of a text of decimals.
abbrev pub value_from : Unicode → ℕ → Text → ℕ
value_from u acc [] = acc
value_from u acc (c ∷ s) =
    value_from u (acc * 10 + (elim (decimal u c) [ none ↦ 0 | some d ↦ d ])) s

-- `str(n)`, where the fuel `suc n` is enough: each digit divides the number by ten.
unfoldable pub digits_of : ℕ → ℕ → Text
digits_of zero n = []
digits_of (suc fuel) n =
    let rest = digits_of fuel (n / 10) in
    if ltb n 10 then (b'0' + n) ∷ [] else rest ++ (b'0' + n % 10) ∷ []

unfoldable pub str : ℕ → Text
unfolding digits_of
str n = digits_of (suc n) n

-- The value of a text of ASCII digits.
ascii_value : ℕ → Text → ℕ
ascii_value acc [] = acc
ascii_value acc (c ∷ s) = ascii_value (acc * 10 + (c - b'0')) s

ascii_value-last :
    (acc c : ℕ) (s : Text) → ascii_value acc (s ++ (c ∷ [])) ≡ ascii_value acc s * 10 + (c - b'0')
unfolding ascii_value
ascii_value-last acc c [] = refl
ascii_value-last acc c (d ∷ s) = ascii_value-last (acc * 10 + (d - b'0')) c s

ascii_value-digits_of : (fuel n : ℕ) → n < fuel → ascii_value 0 (digits_of fuel n) ≡ n
unfolding digits_of ascii_value
ascii_value-digits_of zero n h = absurd (omega arith)
ascii_value-digits_of (suc fuel) n h = elim (Bool-cases (ltb n 10)) [
  | inl e ↦ rw e (omega arith)
  | inr e ↦
      let smaller : 10 ≤ n = ground arith in
      let rest = ascii_value-digits_of fuel (n / 10) (omega arith) in
      rw (e, ascii_value-last 0 (b'0' + n % 10) (digits_of fuel (n / 10)), rest) (omega arith)
]

-- Different numbers have different digits.
pub str-injective : (m n : ℕ) → str m ≡ str n → m ≡ n
unfolding str
str-injective m n h =
    sym (ascii_value-digits_of (suc m) m (omega arith))
    ∙ (ap (ascii_value 0) h ∙ ascii_value-digits_of (suc n) n (omega arith))
