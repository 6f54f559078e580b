-- ===== src/Query/Kleene.antt =====
-- Three-valued truth, by which Meaning says what a query means. It models no code.
use patent_landscapes.Base.{
  ◌≡◌, refl, ap, ◌∙◌, Bool, true, false, Option, none, some, List, [], ◌∷◌, ◌++◌, map, arith,
  nat_eq,
}
use patent_landscapes.Base.Text.{text_eq}

-- Truth values that may be unknown.
abbrev pub Truth : Type 0
Truth = Option Bool

abbrev pub and3 : Truth → Truth → Truth
and3 (some false) b = some false
and3 (some true) b = b
and3 none (some false) = some false
and3 none (some true) = none
and3 none none = none

abbrev pub or3 : Truth → Truth → Truth
or3 (some true) b = some true
or3 (some false) b = b
or3 none (some true) = some true
or3 none (some false) = none
or3 none none = none

abbrev pub any3 {ℓ} : {A : Type ℓ} → (A → Truth) → List A → Truth
any3 p [] = some false
any3 p (x ∷ xs) = or3 (p x) (any3 p xs)

pub any3-append :
    {A : Type 0} (p : A → Truth) (xs ys : List A) → any3 p (xs ++ ys) ≡ or3 (any3 p xs) (any3 p ys)
any3-append p [] ys = refl
any3-append p (x ∷ xs) ys =
    ap (or3 (p x)) (any3-append p xs ys) ∙ or3_assoc (p x) (any3 p xs) (any3 p ys)
  where
    or3_assoc : (a b c : Truth) → or3 a (or3 b c) ≡ or3 (or3 a b) c
    or3_assoc a b c = ground arith

pub any3-map : {A : Type 0} (p : A → Truth) (xs : List A) → any3 (λ t. t) (map p xs) ≡ any3 p xs
any3-map p [] = refl
any3-map p (x ∷ xs) = ap (or3 (p x)) (any3-map p xs)
