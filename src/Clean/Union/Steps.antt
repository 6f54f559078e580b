-- ===== src/Clean/Union/Steps.antt =====
-- What `find` and `union` of `_UnionFind` in src/patsquire_plr/clean/dataset.py do to the roots. A
-- relation that holds between each node and its parent is carried along.
use patent_landscapes.Base.{
  ℕ, zero, suc, ◌<◌, ◌≡◌, refl, sym, ◌∙◌, subst, ◌≢◌, ◌⊎◌, inl, inr, true, false, some, arith,
  Bool-cases, nat_eq,
}
use mathlib.Core.Option.{some-injective}
use patent_landscapes.Base.Text.{Text, text_eq, text_le, text_le_trans}
use patent_landscapes.Base.Dict.{get, put}
use patent_landscapes.Clean.Union.{Parents, compress}
use patent_landscapes.Clean.Union.Forest.{
  IsForest, IsRoot, here, up, rank, rank-lt, rank-put, get-put-same, get-put-other, root-get,
  IsRoot-unique,
}

pub text-cases : (x y : Text) → (x ≡ y) ⊎ (x ≢ y)
text-cases x y = elim (Bool-cases (text_eq.beq x y)) [
  | inl e ↦ inl ((text_eq.beq_iff x y).0 e)
  | inr e ↦ inr (λ q. let t = (text_eq.beq_iff x y).1 q in ground arith)
]

pub node-get : (p : Parents) (x r : Text) → IsRoot p x r → (w : Text) × (get x p ≡ some w)
node-get p x r (here _ _ e g) = (r, g)
node-get p x r (up _ y _ g n h) = (y, g)

pub root-le : (p : Parents) (x r : Text) → IsForest p → IsRoot p x r → text_le r x ≡ true
root-le p x r f (here _ _ e g) = f.falls x r g
root-le p x r f (up _ y _ g n h) = text_le_trans r y x (root-le p y r f h) (f.falls x y g)

pub put-IsForest :
    (p : Parents) (node root w v : Text)
    → IsForest p
    → get node p ≡ some w
    → text_le root node ≡ true
    → get root p ≡ some v
    → IsForest (put node root p)
put-IsForest p node root w v f g l k = record {
  falls = λ x y h. elim (text-cases x node) [
    | inl e ↦
        let same : root ≡ y =
          some-injective _ _
            (sym (get-put-same p node root) ∙ subst (λ t. get t (put node root p) ≡ some y) e h) in
        subst (λ t. text_le y t ≡ true) (sym e) (subst (λ t. text_le t node ≡ true) same l)
    | inr n ↦ f.falls x y (sym (get-put-other p node root x n) ∙ h)
  ];
  is_closed = λ x y h. elim (text-cases y node) [
    | inl e ↦
        (root, subst (λ t. get t (put node root p) ≡ some root) (sym e) (get-put-same p node root))
    | inr n ↦ let (z, i) = held x y h in (z, get-put-other p node root y n ∙ i)
  ];
}
  where
    held : (x y : Text) → get x (put node root p) ≡ some y → (z : Text) × (get y p ≡ some z)
    held x y h = elim (text-cases x node) [
      | inl e ↦
          let same : root ≡ y =
            some-injective _ _ (
              sym (get-put-same p node root) ∙ subst (λ t. get t (put node root p) ≡ some y) e h) in
          (v, subst (λ t. get t p ≡ some v) same k)
      | inr n ↦ f.is_closed x y (sym (get-put-other p node root x n) ∙ h)
    ]

-- Setting a node's parent to its root keeps every root.
short-IsRoot :
    (p : Parents) (node root : Text) → IsRoot p node root → IsRoot (put node root p) node root
short-IsRoot p node root h = elim (text-cases root node) [
  | inl e ↦ here node root (sym e) (get-put-same p node root)
  | inr n ↦
      up node root root (get-put-same p node root) n
        (here root root refl (get-put-other p node root root n ∙ root-get p node root h))
]

put-IsRoot :
    (p : Parents) (node root z s : Text)
    → IsRoot p node root
    → IsRoot p z s
    → IsRoot (put node root p) z s
put-IsRoot p node root z s h i = elim (text-cases z node) [
  | inl e ↦
      let same = IsRoot-unique p node root s h (subst (λ t. IsRoot p t s) e i) in
      subst (λ t. IsRoot (put node root p) t s) (sym e)
        (subst (IsRoot (put node root p) node) same (short-IsRoot p node root h))
  | inr n ↦ go z s n i
]
  where
    go : (z s : Text) → z ≢ node → IsRoot p z s → IsRoot (put node root p) z s
    go z s n (here _ _ e g) = here z s e (get-put-other p node root z n ∙ g)
    go z s n (up _ y _ g m j) =
        up z y s (get-put-other p node root z n ∙ g) m (elim (text-cases y node) [
          | inl e ↦
              let same = IsRoot-unique p node root s h (subst (λ t. IsRoot p t s) e j) in
              subst (λ t. IsRoot (put node root p) t s) (sym e)
                (subst (IsRoot (put node root p) node) same (short-IsRoot p node root h))
          | inr k ↦ go y s k j
        ])

-- Roots of one dictionary that are roots of another.
abbrev pub KeepsRoots : Parents → Parents → Type 0
KeepsRoots p q = (z s : Text) → IsRoot p z s → IsRoot q z s

module _ (R : Text → Text → Type 0) (transitive : (x y z : Text) → R x y → R y z → R x z)
    (symmetric : (x y : Text) → R x y → R y x) where
  -- Each node is related to its parent.
  abbrev pub IsBacked : Parents → Type 0
  IsBacked p = (x y : Text) → get x p ≡ some y → R x y

  pub root-IsBacked : (p : Parents) (x r : Text) → IsBacked p → IsRoot p x r → R x r
  root-IsBacked p x r b (here _ _ e g) = b x r g
  root-IsBacked p x r b (up _ y _ g n h) = transitive x y r (b x y g) (root-IsBacked p y r b h)

  pub put-IsBacked :
      (p : Parents) (node root : Text) → IsBacked p → R node root → IsBacked (put node root p)
  put-IsBacked p node root b h x y g = elim (text-cases x node) [
    | inl e ↦
        let same : root ≡ y =
          some-injective _ _
            (sym (get-put-same p node root) ∙ subst (λ t. get t (put node root p) ≡ some y) e g) in
        subst (λ t. R t y) (sym e) (subst (R node) same h)
    | inr n ↦ b x y (sym (get-put-other p node root x n) ∙ g)
  ]

  pub compress_lem :
      (p : Parents) (rounds : ℕ) (node root : Text)
      → IsForest p
      → IsBacked p
      → IsRoot p node root
      → rank p node < rounds
      → (q : Parents) × (compress p rounds node root ≡ some q)
        × IsForest q
        × KeepsRoots p q
        × IsBacked q
  unfolding compress
  compress_lem p zero node root f b h l = absurd (omega arith)
  compress_lem p (suc rounds) node root f b h l =
      let (y, g) = node-get p node root h in
      elim (Bool-cases (text_eq.beq y root)) [
        | inl e ↦ (p, rw g (rw e refl), f, λ z s i. i, b)
        | inr e ↦
            let (apart, above) = above_lem h y g e in
            let q = put node root p in
            let (w, k) = f.is_closed node y g in
            let less = rank-lt p node y w (f.falls node y g) apart k in
            let same = rank-put p node root y y g in
            let forest =
              put-IsForest p node root y root f g (root-le p node root f h)
                (root-get p node root h) in
            let (r, c, fr, keeps, backed) =
              compress_lem q rounds y root forest
                (put-IsBacked p node root b (root-IsBacked p node root b h))
                (put-IsRoot p node root y root h above) (omega arith) in
            (r, rw g (rw e c), fr, λ z s i. keeps z s (put-IsRoot p node root z s h i), backed)
      ]
    where
      above_lem :
          IsRoot p node root
          → (y : Text) → get node p ≡ some y
          → text_eq.beq y root ≡ false
          → (y ≢ node) × IsRoot p y root
      above_lem (here _ _ q k) y g e =
          let same : y ≡ root = some-injective _ _ (sym g ∙ k) in
          let t = (text_eq.beq_iff y root).1 same in absurd (ground arith)
      above_lem (up _ x _ k n i) y g e =
          let same : x ≡ y = some-injective _ _ (sym k ∙ g) in
          (subst (λ t. t ≢ node) same n, subst (λ t. IsRoot p t root) same i)
