-- ===== src/Base/Dict.antt =====
-- A Python `dict` in insertion order, as a list of pairs with comparable keys.
use mathlib.Core.Path.{◌≡◌, refl}
use mathlib.Core.Bool.{Bool, true, false}
use mathlib.Core.List.{List, [], ◌∷◌, ◌++◌}
use mathlib.Core.Option.{Option, none, some}
use native.Mathlib.Omega.{arith}
use patent_landscapes.Base.Tests.{Eq, if◌then◌else◌, is_some}
use patent_landscapes.Base.Lists.{any}

-- `a in xs`.
abbrev pub contains {ℓ} : {A : Type ℓ} ⦃e : Eq A⦄ → A → List A → Bool
contains ⦃e⦄ a xs = any (λ x. e.beq x a) xs

-- `list(dict.fromkeys(xs))`: each value once, at its first place.
abbrev pub distinct_from {ℓ} : {A : Type ℓ} ⦃e : Eq A⦄ → List A → List A → List A
distinct_from seen [] = []
distinct_from seen (x ∷ xs) = elim (contains x seen) [
  | true ↦ distinct_from seen xs
  | false ↦ x ∷ distinct_from (x ∷ seen) xs
]

module _ {ℓ} {A : Type ℓ} ⦃e : Eq A⦄ where
  pub distinct_from-old :
      (x : A) (seen xs : List A)
      → contains x seen ≡ true
      → distinct_from seen (x ∷ xs) ≡ distinct_from seen xs
  distinct_from-old x seen xs h = ground arith

  pub distinct_from-new :
      (x : A) (seen xs : List A)
      → contains x seen ≡ false
      → distinct_from seen (x ∷ xs) ≡ x ∷ distinct_from (x ∷ seen) xs
  distinct_from-new x seen xs h = ground arith

module _ {ℓ κ} {K : Type ℓ} {V : Type κ} ⦃e : Eq K⦄ where
  -- `d.get(k)`.
  unfoldable pub get : K → List (K × V) → Option V
  get k [] = none
  get k ((j, v) ∷ d) = if e.beq j k then some v else get k d

  -- `d[k] = v`.
  unfoldable pub put : K → V → List (K × V) → List (K × V)
  put k v [] = (k, v) ∷ []
  put k v ((j, w) ∷ d) = if e.beq j k then (j, v) ∷ d else (j, w) ∷ put k v d

  -- `d.setdefault(k, v)`, as a statement.
  unfoldable pub set_default : K → V → List (K × V) → List (K × V)
  unfolding get
  set_default k v d = if is_some (get k d) then d else d ++ (k, v) ∷ []

  pub get-put :
      (k j : K) (v : V) (d : List (K × V))
      → get j (put k v d) ≡ (if e.beq k j then some v else get j d)
  unfolding get put
  get-put k j v [] = refl
  get-put k j v ((i, w) ∷ d) =
      ground (arith, e.beq_iff k j, e.beq_iff i k, e.beq_iff i j, get-put k j v d)

  pub get-append :
      (k : K) (c d : List (K × V))
      → get k (c ++ d) ≡ (if is_some (get k c) then get k c else get k d)
  unfolding get
  get-append k [] d = refl
  get-append k ((j, w) ∷ c) d = ground (arith, get-append k c d)

  pub get-set_default :
      (k j : K) (v : V) (d : List (K × V))
      → get j (set_default k v d)
        ≡ (if is_some (get j d) then get j d else if e.beq k j then some v else none)
  unfolding set_default get
  get-set_default k j v d = ground (arith, get-append j d ((k, v) ∷ []), e.beq_iff k j)
