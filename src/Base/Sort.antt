-- ===== src/Base/Sort.antt =====
-- Python's `sorted` with a key order, as a stable insertion sort, and what it promises.
use mathlib.Core.Path.{◌≡◌, refl}
use Prim.Native.Nat.{suc}
use native.Mathlib.Omega.{arith}
use mathlib.Core.Logic.{◌⊎◌, inl, inr, ◌↔◌}
use mathlib.Core.Bool.{false, Bool, true}
use mathlib.Core.List.{◌++◌, List, [], ◌∷◌, Perm}
use mathlib.Core.List.Perm
use patent_landscapes.Base.Tests.{if◌then◌else◌, Bool-cases}
use patent_landscapes.Base.Lists.{length, All-right, All-left, IsIn, All-map, All}

module _ {ℓ} {A : Type ℓ} (le : A → A → Bool) where
  unfoldable pub insert_sorted : A → List A → List A
  insert_sorted x [] = x ∷ []
  insert_sorted x (y ∷ ys) = if le x y then x ∷ y ∷ ys else y ∷ insert_sorted x ys

  unfoldable pub sorted : List A → List A
  unfolding insert_sorted
  sorted [] = []
  sorted (x ∷ xs) = insert_sorted x (sorted xs)

  abbrev pub IsSorted : List A → Type ℓ
  IsSorted [] = Unit
  IsSorted (x ∷ xs) = All (λ y. le x y ≡ true) xs × IsSorted xs

  insert_sorted-perm : (x : A) (xs : List A) → Perm (insert_sorted x xs) (x ∷ xs)
  unfolding insert_sorted
  insert_sorted-perm x [] = Perm.refl (x ∷ [])
  insert_sorted-perm x (y ∷ ys) = elim (Bool-cases (le x y)) [
    | inl e ↦ rw e (Perm.refl (x ∷ y ∷ ys))
    | inr e ↦ rw e (Perm.trans (Perm.cons y (insert_sorted-perm x ys)) (Perm.swap x y ys))
  ]

  pub sorted-perm : (xs : List A) → Perm (sorted xs) xs
  unfolding sorted
  sorted-perm [] = Perm.refl []
  sorted-perm (x ∷ xs) =
      Perm.trans (insert_sorted-perm x (sorted xs)) (Perm.cons x (sorted-perm xs))

  length-insert_sorted : (x : A) (xs : List A) → length (insert_sorted x xs) ≡ suc (length xs)
  unfolding insert_sorted
  length-insert_sorted x [] = refl
  length-insert_sorted x (y ∷ ys) = ground (arith, length-insert_sorted x ys)

  pub length-sorted : (xs : List A) → length (sorted xs) ≡ length xs
  unfolding sorted
  length-sorted [] = refl
  length-sorted (x ∷ xs) = omega (arith, length-insert_sorted x (sorted xs), length-sorted xs)

  -- In a sorted list no element of a first part is after one of the second.
  pub IsSorted-append :
      (xs ys : List A)
      → IsSorted (xs ++ ys)
      → IsSorted xs × All (λ y. All (λ x. le x y ≡ true) xs) ys
  IsSorted-append [] ys h = (tt, All-trivial ys)
    where
      All-trivial : (zs : List A) → All (λ y. All (λ x. le x y ≡ true) []) zs
      All-trivial [] = tt
      All-trivial (z ∷ zs) = (tt, All-trivial zs)
  IsSorted-append (x ∷ xs) ys h =
      let rest = IsSorted-append xs ys h.1 in
      (
        (All-left (λ y. le x y ≡ true) xs ys h.0, rest.0),
        All-both ys (All-right (λ y. le x y ≡ true) xs ys h.0) rest.1,
      )
    where
      All-both :
          (zs : List A)
          → All (λ y. le x y ≡ true) zs
          → All (λ y. All (λ x. le x y ≡ true) xs) zs
          → All (λ y. All (λ x. le x y ≡ true) (x ∷ xs)) zs
      All-both [] h k = tt
      All-both (z ∷ zs) h k = ((h.0, k.0), All-both zs h.1 k.1)

  pub All-insert_sorted {κ} :
      (P : A → Type κ) (x : A) (xs : List A) → P x → All P xs → All P (insert_sorted x xs)
  unfolding insert_sorted
  All-insert_sorted P x [] p h = (p, tt)
  All-insert_sorted P x (y ∷ ys) p h = elim (Bool-cases (le x y)) [
    | inl e ↦ rw e (p, h)
    | inr e ↦ rw e (h.0, All-insert_sorted P x ys p h.1)
  ]

  pub All-sorted {κ} : (P : A → Type κ) (xs : List A) → All P xs → All P (sorted xs)
  unfolding sorted
  All-sorted P [] h = h
  All-sorted P (x ∷ xs) h = All-insert_sorted P x (sorted xs) h.0 (All-sorted P xs h.1)

module _ {A : Type 0} (le : A → A → Bool) where
  insert_sorted-IsIn : (a x : A) (xs : List A) → IsIn a (insert_sorted le x xs) ↔ IsIn a (x ∷ xs)
  unfolding insert_sorted
  insert_sorted-IsIn a x [] = (λ h. h, λ h. h)
  insert_sorted-IsIn a x (y ∷ ys) = elim (Bool-cases (le x y)) [
    | inl e ↦ rw e (λ h. h, λ h. h)
    | inr e ↦ rw e (exchange (insert_sorted-IsIn a x ys))
  ]
    where
      exchange : {T : Type 0} → T ↔ IsIn a (x ∷ ys) → ((a ≡ y) ⊎ T) ↔ IsIn a (x ∷ y ∷ ys)
      exchange t = (
        elim [ inl q ↦ inr (inl q) | inr i ↦ elim (t.0 i) [ inl q ↦ inl q | inr j ↦ inr (inr j) ] ],
        elim [
          | inl q ↦ inr (t.1 (inl q))
          | inr i ↦ elim i [ inl q ↦ inl q | inr j ↦ inr (t.1 (inr j)) ]
        ],
      )

  pub sorted-IsIn : (a : A) (xs : List A) → IsIn a (sorted le xs) ↔ IsIn a xs
  unfolding sorted
  sorted-IsIn a [] = (λ h. h, λ h. h)
  sorted-IsIn a (x ∷ xs) =
      let here = insert_sorted-IsIn a x (sorted le xs) in
      let rest = sorted-IsIn a xs in
      (
        λ h. elim (here.0 h) [ inl q ↦ inl q | inr i ↦ inr (rest.0 i) ],
        elim [ inl q ↦ here.1 (inl q) | inr i ↦ here.1 (inr (rest.1 i)) ],
      )

module _ {ℓ} {A : Type ℓ} (le : A → A → Bool)
    (total : (x y : A) → (le x y ≡ true) ⊎ (le y x ≡ true))
    (transitive : (x y z : A) → le x y ≡ true → le y z ≡ true → le x z ≡ true) where
  flipped : (x y : A) → le x y ≡ false → le y x ≡ true
  flipped x y e = elim (total x y) [ inl t ↦ cc | inr t ↦ t ]

  insert_sorted-IsSorted :
      (x : A) (xs : List A) → IsSorted le xs → IsSorted le (insert_sorted le x xs)
  unfolding insert_sorted
  insert_sorted-IsSorted x [] h = (tt, tt)
  insert_sorted-IsSorted x (y ∷ ys) h = elim (Bool-cases (le x y)) [
    | inl e ↦ rw e ((e, All-map (λ z k. transitive x y z e k) ys h.0), h)
    | inr e ↦ rw e (
      All-insert_sorted le (λ z. le y z ≡ true) x ys (flipped x y e) h.0,
      insert_sorted-IsSorted x ys h.1,
    )
  ]

  pub sorted-IsSorted : (xs : List A) → IsSorted le (sorted le xs)
  unfolding sorted
  sorted-IsSorted [] = tt
  sorted-IsSorted (x ∷ xs) = insert_sorted-IsSorted x (sorted le xs) (sorted-IsSorted xs)
