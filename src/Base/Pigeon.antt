-- ===== src/Base/Pigeon.antt =====
-- The pigeonhole principle: a list that holds k different values has at least k elements.
use Prim.Native.Nat.{ℕ, zero, suc, ◌≤◌, ◌<◌}
use mathlib.Core.Path.{◌≡◌, sym, subst}
use mathlib.Core.Logic.{◌↔◌, inl, inr}
use mathlib.Core.Bool.{true, false}
use mathlib.Core.List.{List, [], ◌∷◌}
use native.Mathlib.Omega.{arith}
use patent_landscapes.Base.Tests.{Eq, if◌then◌else◌, Bool-cases}
use patent_landscapes.Base.Lists.{length, All, IsIn, All-IsIn, All-of-IsIn}
use patent_landscapes.Base.Dict.{contains}

-- No element twice.
abbrev pub AllApart : {A : Type 0} → List A → Type 0
AllApart [] = Unit
AllApart (x ∷ xs) = (¬ IsIn x xs) × AllApart xs

module _ {A : Type 0} ⦃e : Eq A⦄ where
  unfoldable remove_first : A → List A → List A
  remove_first a [] = []
  remove_first a (x ∷ xs) = if e.beq x a then xs else x ∷ remove_first a xs

  length-remove_first :
      (a : A) (xs : List A) → contains a xs ≡ true → length xs ≡ suc (length (remove_first a xs))
  unfolding remove_first
  length-remove_first a [] h = cc
  length-remove_first a (x ∷ xs) h = ground (arith, length-remove_first a xs)

  contains-remove_first :
      (a b : A) (xs : List A)
      → e.beq a b ≡ false
      → contains b xs ≡ true
      → contains b (remove_first a xs) ≡ true
  unfolding remove_first
  contains-remove_first a b [] d h = cc
  contains-remove_first a b (x ∷ xs) d h =
      ground (arith, contains-remove_first a b xs, e.beq_iff x a, e.beq_iff a b, e.beq_iff x b)

  pub length-values :
      (g : ℕ → A) (k : ℕ) (xs : List A)
      → ((i j : ℕ) → g i ≡ g j → i ≡ j)
      → ((i : ℕ) → i < k → contains (g i) xs ≡ true)
      → k ≤ length xs
  length-values g zero xs inj h = omega arith
  length-values g (suc k) xs inj h =
      let removed = length-remove_first (g k) xs (h k (omega arith)) in
      let rest =
        length-values g k (remove_first (g k) xs) inj
          (λ i l. contains-remove_first (g k) (g i) xs (apart i l) (h i (omega arith))) in
      omega arith
    where
      apart : (i : ℕ) → i < k → e.beq (g k) (g i) ≡ false
      apart i l = elim (Bool-cases (e.beq (g k) (g i))) [
        | inr f ↦ f
        | inl t ↦ let same : k ≡ i = inj k i ((e.beq_iff (g k) (g i)).0 t) in absurd (omega arith)
      ]

contains_iff : {A : Type 0} ⦃e : Eq A⦄ (a : A) (xs : List A) → (contains a xs ≡ true) ↔ IsIn a xs
contains_iff a [] = (λ h. cc, λ i. absurd i)
contains_iff ⦃e⦄ a (x ∷ xs) = (
  λ h. elim (Bool-cases (e.beq x a)) [
    | inl t ↦ inl (sym ((e.beq_iff x a).0 t))
    | inr f ↦ inr ((contains_iff a xs).0 (ground arith))
  ],
  elim [
    | inl q ↦ let t = (e.beq_iff x a).1 (sym q) in ground arith
    | inr i ↦ let t = (contains_iff a xs).1 i in ground arith
  ],
)

-- A list without repetitions is no longer than one that has its elements.
pub length-distinct :
    {A : Type 0} ⦃e : Eq A⦄ (xs ys : List A)
    → AllApart xs
    → All (λ x. IsIn x ys) xs
    → length xs ≤ length ys
length-distinct [] ys d h = omega arith
length-distinct {A} ⦃e⦄ (x ∷ xs) ys d h =
    let removed = length-remove_first x ys ((contains_iff x ys).1 h.0) in
    let rest = length-distinct xs (remove_first x ys) d.1 (
      All-of-IsIn (λ y. IsIn y (remove_first x ys)) xs
        (λ y i. (contains_iff y (remove_first x ys)).0 (
          contains-remove_first x y ys (apart y i)
            ((contains_iff y ys).1 (All-IsIn (λ z. IsIn z ys) y xs h.1 i))))) in
    omega arith
  where
    apart : (y : A) → IsIn y xs → e.beq x y ≡ false
    apart y i = elim (Bool-cases (e.beq x y)) [
      | inr f ↦ f
      | inl t ↦ absurd (d.0 (subst (λ z. IsIn z xs) (sym ((e.beq_iff x y).0 t)) i))
    ]
