-- ===== src/Base/Text.antt =====
-- Python `str` values as lists of code points. Case mapping, white space and digits are written
-- out for ASCII; what the Unicode database says of every other code point is a parameter.
use Prim.Native.Nat.{ℕ, ◌-◌}
use Prim.Native.Char.{code}
use Prim.Native.String.{String}
use mathlib.Core.Path.{◌≡◌, refl}
use mathlib.Core.Logic.{◌↔◌, ◌⊎◌, inl, inr}
use mathlib.Core.Bool.{Bool, true, false, ◌&&◌, ◌||◌}
use mathlib.Core.Option.{Option}
use mathlib.Core.List.{List, [], ◌∷◌, ◌++◌}
use native.Mathlib.Omega.{arith}
use patent_landscapes.Base.Tests.{ltb, leb, ◌==◌, if◌then◌else◌, Eq}

abbrev pub Text : Type 0
Text = List ℕ

abbrev pub codes : String → Text
codes String.[] = []
codes (String.◌∷◌ c s) = code c ∷ codes s

unfoldable pub text_beq : Text → Text → Bool
text_beq [] [] = true
text_beq (c ∷ s) (d ∷ t) = (c == d) && text_beq s t
text_beq _ _ = false

pub text_beq_iff : (s t : Text) → (text_beq s t ≡ true) ↔ (s ≡ t)
unfolding text_beq
text_beq_iff [] [] = (λ h. refl, λ h. refl)
text_beq_iff [] (d ∷ t) = (λ h. cc, λ h. cc)
text_beq_iff (c ∷ s) [] = (λ h. cc, λ h. cc)
text_beq_iff (c ∷ s) (d ∷ t) = ground (arith, text_beq_iff s t)

instance abbrev pub text_eq : Eq Text
text_eq = record { beq = text_beq; beq_iff = text_beq_iff }

-- Python orders texts by their code points, a prefix first.
unfoldable pub text_le : Text → Text → Bool
text_le [] t = true
text_le (c ∷ s) [] = false
text_le (c ∷ s) (d ∷ t) = ltb c d || ((c == d) && text_le s t)

pub text_le_total : (s t : Text) → (text_le s t ≡ true) ⊎ (text_le t s ≡ true)
unfolding text_le
text_le_total [] t = inl refl
text_le_total (c ∷ s) [] = inr refl
text_le_total (c ∷ s) (d ∷ t) = ground (arith, text_le_total s t)

pub text_le_trans : (s t r : Text) → text_le s t ≡ true → text_le t r ≡ true → text_le s r ≡ true
unfolding text_le
text_le_trans [] t r h k = refl
text_le_trans (c ∷ s) [] r h k = cc
text_le_trans (c ∷ s) (d ∷ t) [] h k = cc
text_le_trans (c ∷ s) (d ∷ t) (e ∷ r) h k = ground (arith, text_le_trans s t r)

pub text_le_antisymm : (s t : Text) → text_le s t ≡ true → text_le t s ≡ true → s ≡ t
unfolding text_le
text_le_antisymm [] [] h k = refl
text_le_antisymm [] (d ∷ t) h k = cc
text_le_antisymm (c ∷ s) [] h k = cc
text_le_antisymm (c ∷ s) (d ∷ t) h k = ground (arith, text_le_antisymm s t)

-- What Python's Unicode database says of the code points from 128 on.
pub record Unicode : Type 0 where
  pub wide_upper : ℕ → Text
  pub wide_space : ℕ → Bool
  pub wide_decimal : ℕ → Option ℕ
  pub wide_digit : ℕ → Bool

-- `[^\W_]` and `[^\W\d_]` of `re`, for every code point, and `lower()` and `casefold()`.
pub record Letters : Type 0 where
  pub is_word : ℕ → Bool
  pub is_letter : ℕ → Bool
  pub lower : Text → Text
  pub casefold : Text → Text

-- `c.isspace()`, and `\s` of `re`.
unfoldable pub is_space : Unicode → ℕ → Bool
is_space u c = if ltb c 128 then (leb 9 c && leb c 13) || (leb 28 c && leb c 32) else u.wide_space c

-- `c.upper()`.
unfoldable pub upper : Unicode → ℕ → Text
upper u c =
    if ltb c 128
    then (if leb b'a' c && leb c b'z' then (c - 32) ∷ [] else c ∷ [])
    else u.wide_upper c

-- `[A-Z]`, `[0-9]` and `[0-9A-Z]` of `re`.
abbrev pub is_capital : ℕ → Bool
is_capital c = leb b'A' c && leb c b'Z'

abbrev pub is_digit : ℕ → Bool
is_digit c = leb b'0' c && leb c b'9'

abbrev pub is_alnum : ℕ → Bool
is_alnum c = is_digit c || is_capital c

-- `s.upper()`.
unfoldable pub upper_text : Unicode → Text → Text
upper_text u [] = []
upper_text u (c ∷ s) = upper u c ++ upper_text u s

-- `s.lstrip()`, `s.rstrip()` and `s.strip()`.
unfoldable pub lstrip : Unicode → Text → Text
lstrip u [] = []
lstrip u (c ∷ s) = elim (is_space u c) [ true ↦ lstrip u s | false ↦ c ∷ s ]

abbrev keep_right : Bool → ℕ → Text → Text
keep_right true c [] = []
keep_right true c (d ∷ s) = c ∷ d ∷ s
keep_right false c s = c ∷ s

unfoldable pub rstrip : Unicode → Text → Text
rstrip u [] = []
rstrip u (c ∷ s) = keep_right (is_space u c) c (rstrip u s)

unfoldable pub strip : Unicode → Text → Text
unfolding lstrip rstrip is_space
strip u s = rstrip u (lstrip u s)

-- `sep.join(parts)`.
abbrev pub join : Text → List Text → Text
join sep [] = []
join sep (t ∷ []) = t
join sep (t ∷ u ∷ ts) = t ++ (sep ++ join sep (u ∷ ts))
