-- ===== src/Clean/Union/Forest.antt =====
-- The parents of `_UnionFind` in src/patsquire_plr/clean/dataset.py as a forest, and that its loops end.
use patent_landscapes.Base.{
  ℕ, zero, suc, ◌+◌, ◌≤◌, ◌<◌, ◌≡◌, refl, sym, ◌∙◌, subst, ◌≢◌, inl, inr, Bool, true, false, not,
  some, [], ◌∷◌, arith, Bool-cases, nat_eq, length,
}
use mathlib.Core.Option.{some-injective}
use patent_landscapes.Base.Text.{
  Text, text_eq, text_le, text_le_total, text_le_trans, text_le_antisymm,
}
use patent_landscapes.Base.Dict.{get, put, get-put}
use patent_landscapes.Clean.Union.{Parents, find_root}

-- Parents come before in the order of texts, and are nodes.
pub record IsForest (p : Parents) : Type 0 where
  pub falls : (x y : Text) → get x p ≡ some y → text_le y x ≡ true
  pub is_closed : (x y : Text) → get x p ≡ some y → (z : Text) × (get y p ≡ some z)

-- The node at the end of the chain of parents.
pub data IsRoot (p : Parents) : Text → Text → Type 0 where
  here : (x r : Text) → x ≡ r → get x p ≡ some r → IsRoot p x r
  up : (x y r : Text) → get x p ≡ some y → y ≢ x → IsRoot p y r → IsRoot p x r

-- How many nodes come before a node.
abbrev one_if : Bool → ℕ
one_if true = 1
one_if false = 0

pub rank : Parents → Text → ℕ
rank [] x = 0
rank ((k, v) ∷ p) x = one_if (not (text_le x k)) + rank p x

rank-le : (p : Parents) (x y : Text) → text_le y x ≡ true → rank p y ≤ rank p x
unfolding rank
rank-le [] x y h = omega arith
rank-le ((k, v) ∷ p) x y h = ground (arith, rank-le p x y h, text_le_trans y x k h)

pub rank-lt :
    (p : Parents) (x y z : Text)
    → text_le y x ≡ true
    → y ≢ x
    → get y p ≡ some z
    → rank p y < rank p x
unfolding rank get
rank-lt [] x y z h n g = cc
rank-lt ((k, v) ∷ p) x y z h n g = elim (Bool-cases (text_eq.beq k y)) [
  | inl e ↦
      let same : k ≡ y = (text_eq.beq_iff k y).0 e in
      let first = rank-le p x y h in
      let below : text_le x y ≡ false = elim (Bool-cases (text_le x y)) [
        | inl t ↦ absurd (n (text_le_antisymm y x h t))
        | inr f ↦ f
      ] in
      let itself : text_le y y ≡ true = elim (text_le_total y y) [ inl t ↦ t | inr t ↦ t ] in
      rw same (ground arith)
  | inr e ↦ let rest = rank-lt p x y z h n (ground arith) in ground (arith, text_le_trans y x k h)
]

pub rank-length : (p : Parents) (x z : Text) → get x p ≡ some z → rank p x < length p
unfolding rank get
rank-length [] x z g = cc
rank-length ((k, v) ∷ p) x z g = elim (Bool-cases (text_eq.beq k x)) [
  | inl e ↦
      let same : k ≡ x = (text_eq.beq_iff k x).0 e in
      let itself : text_le x x ≡ true = elim (text_le_total x x) [ inl t ↦ t | inr t ↦ t ] in
      let most = rank-most p x in rw same (ground arith)
  | inr e ↦ let rest = rank-length p x z (ground arith) in ground arith
]
  where
    rank-most : (q : Parents) (x : Text) → rank q x ≤ length q
    rank-most [] x = omega arith
    rank-most ((k, v) ∷ q) x = ground (arith, rank-most q x)

pub rank-put : (p : Parents) (k v w x : Text) → get k p ≡ some w → rank (put k v p) x ≡ rank p x
unfolding rank get put
rank-put [] k v w x g = cc
rank-put ((j, u) ∷ p) k v w x g = ground (arith, rank-put p k v w x)

pub length-put-old : (p : Parents) (k v w : Text) → get k p ≡ some w → length (put k v p) ≡ length p
unfolding get put
length-put-old [] k v w g = cc
length-put-old ((j, u) ∷ p) k v w g = ground (arith, length-put-old p k v w)

pub get-put-same : (p : Parents) (k v : Text) → get k (put k v p) ≡ some v
get-put-same p k v = ground (arith, get-put k k v p, text_eq.beq_iff k k)

pub get-put-other : (p : Parents) (k v j : Text) → j ≢ k → get j (put k v p) ≡ get j p
get-put-other p k v j n = elim (Bool-cases (text_eq.beq k j)) [
  | inl e ↦ absurd (n (sym ((text_eq.beq_iff k j).0 e)))
  | inr e ↦ ground (arith, get-put k j v p)
]

pub root-get : (p : Parents) (x r : Text) → IsRoot p x r → get r p ≡ some r
root-get p x r (here _ _ e g) = subst (λ t. get t p ≡ some r) e g
root-get p x r (up _ y _ g n h) = root-get p y r h

pub IsRoot-unique : (p : Parents) (x r s : Text) → IsRoot p x r → IsRoot p x s → r ≡ s
IsRoot-unique p x r s (here _ _ e g) (here _ _ f k) = sym e ∙ f
IsRoot-unique p x r s (here _ _ e g) (up _ y _ k n h) =
    let same : r ≡ y = some-injective _ _ (sym g ∙ k) in absurd (n (sym same ∙ sym e))
IsRoot-unique p x r s (up _ y _ k n h) (here _ _ e g) =
    let same : s ≡ y = some-injective _ _ (sym g ∙ k) in absurd (n (sym same ∙ sym e))
IsRoot-unique p x r s (up _ y _ k n h) (up _ z _ l m i) =
    let same : z ≡ y = some-injective _ _ (sym l ∙ k) in
    IsRoot-unique p y r s h (subst (λ t. IsRoot p t s) same i)

-- The first loop ends at the root.
pub find_root-IsRoot :
    (p : Parents) (rounds : ℕ) (x y : Text)
    → IsForest p
    → get x p ≡ some y
    → rank p x < rounds
    → (r : Text) × (find_root p rounds x ≡ some r) × IsRoot p x r
unfolding find_root
find_root-IsRoot p zero x y f g l = absurd (omega arith)
find_root-IsRoot p (suc rounds) x y f g l = elim (Bool-cases (text_eq.beq y x)) [
  | inl e ↦
      let same : y ≡ x = (text_eq.beq_iff y x).0 e in
      (x, rw g (rw e refl), here x x refl (subst (λ t. get x p ≡ some t) same g))
  | inr e ↦
      let apart : y ≢ x = λ q. let t = (text_eq.beq_iff y x).1 q in ground arith in
      let (z, k) = f.is_closed x y g in
      let less = rank-lt p x y z (f.falls x y g) apart k in
      let (r, w, i) = find_root-IsRoot p rounds y z f k (omega arith) in
      (r, rw g (rw e w), up x y r g apart i)
]
