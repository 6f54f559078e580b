-- ===== src/Clean/Union/Roots.antt =====
-- `find` and `union` of `_UnionFind` in src/patsquire_plr/clean/dataset.py return, and keep a forest.
use patent_landscapes.Base.{
  ◌≡◌, refl, sym, ◌∙◌, subst, ◌≢◌, ◌⊎◌, inl, inr, true, false, some, arith, if◌then◌else◌,
  Bool-cases, Option-cases, nat_eq, length,
}
use mathlib.Core.Option.{some-injective}
use patent_landscapes.Base.Text.{Text, text_eq, text_le, text_le_total}
use patent_landscapes.Base.Dict.{get, put, set_default, get-set_default}
use patent_landscapes.Clean.Union.{union, join_roots, Parents, find}
use patent_landscapes.Clean.Union.Forest.{
  root-get, IsForest, IsRoot, here, up, rank-length, get-put-same, get-put-other, find_root-IsRoot,
}
use patent_landscapes.Clean.Union.Steps.{
  root-IsBacked, text-cases, put-IsForest, KeepsRoots, IsBacked, put-IsBacked, compress_lem,
}

get-old : (p : Parents) (k j w : Text) → get j p ≡ some w → get j (set_default k k p) ≡ some w
get-old p k j w g = ground (arith, get-set_default k j k p)

get-new :
    (p : Parents) (k j w : Text)
    → get j (set_default k k p) ≡ some w
    → (get j p ≡ some w) ⊎ ((j ≡ k) × (w ≡ k))
get-new p k j w g = elim (Option-cases (get j p)) [
  | inr (v, e) ↦ inl (ground (arith, get-set_default k j k p))
  | inl e ↦ elim (text-cases k j) [
    | inl s ↦
        let t = (text_eq.beq_iff k j).1 s in inr (sym s, ground (arith, get-set_default k j k p))
    | inr n ↦
        let f : text_eq.beq k j ≡ false = elim (Bool-cases (text_eq.beq k j)) [
          | inl t ↦ absurd (n ((text_eq.beq_iff k j).0 t))
          | inr f ↦ f
        ] in
        ground (arith, get-set_default k j k p)
  ]
]

get-key : (p : Parents) (k : Text) → (w : Text) × (get k (set_default k k p) ≡ some w)
get-key p k = elim (Option-cases (get k p)) [
  | inr (v, e) ↦ (v, get-old p k k v e)
  | inl e ↦ let t = (text_eq.beq_iff k k).1 refl in (k, ground (arith, get-set_default k k k p))
]

set_default-IsForest : (p : Parents) (k : Text) → IsForest p → IsForest (set_default k k p)
set_default-IsForest p k f = record {
  falls = λ x y g. elim (get-new p k x y g) [
    | inl h ↦ f.falls x y h
    | inr (a, b) ↦
        let itself : text_le k k ≡ true = elim (text_le_total k k) [ inl t ↦ t | inr t ↦ t ] in
        subst (λ t. text_le y t ≡ true) (sym a) (subst (λ t. text_le t k ≡ true) (sym b) itself)
  ];
  is_closed = λ x y g. elim (get-new p k x y g) [
    | inl h ↦ let (z, i) = f.is_closed x y h in (z, get-old p k y z i)
    | inr (a, b) ↦
        let (w, i) = get-key p k in (w, subst (λ t. get t (set_default k k p) ≡ some w) (sym b) i)
  ];
}

set_default-IsRoot : (p : Parents) (k : Text) → KeepsRoots p (set_default k k p)
set_default-IsRoot p k z s (here _ _ e g) = here z s e (get-old p k z s g)
set_default-IsRoot p k z s (up _ y _ g n h) =
    up z y s (get-old p k z y g) n (set_default-IsRoot p k y s h)

-- The root that the smaller root replaces, where it is the larger.
abbrev joined : Text → Text → Text → Text
joined big small s = if text_eq.beq s big then small else s

joined-other : (big small s : Text) → s ≢ big → joined big small s ≡ s
joined-other big small s n = elim (Bool-cases (text_eq.beq s big)) [
  | inl t ↦ absurd (n ((text_eq.beq_iff s big).0 t))
  | inr f ↦ rw f refl
]

joined-same : (big small : Text) → joined big small big ≡ small
joined-same big small = rw ((text_eq.beq_iff big big).1 refl) refl

join-IsRoot :
    (p : Parents) (big small z s : Text)
    → get big p ≡ some big
    → get small p ≡ some small
    → small ≢ big
    → IsRoot p z s
    → IsRoot (put big small p) z (joined big small s)
join-IsRoot p big small z s gb gs n (here _ _ e g) = elim (text-cases s big) [
  | inl q ↦
      subst (λ t. IsRoot (put big small p) t (joined big small s)) (sym (e ∙ q))
        (subst (λ t. IsRoot (put big small p) big (joined big small t)) (sym q)
          (subst (IsRoot (put big small p) big) (sym (joined-same big small)) (
            up big small small (get-put-same p big small) n
              (here small small refl (get-put-other p big small small n ∙ gs)))))
  | inr m ↦
      subst (IsRoot (put big small p) z) (sym (joined-other big small s m))
        (here z s e (get-put-other p big small z (λ q. m (sym e ∙ q)) ∙ g))
]
join-IsRoot p big small z s gb gs n (up _ y _ g m h) =
    let apart : z ≢ big =
      λ q. m (some-injective _ _ (sym g ∙ (subst (λ t. get t p ≡ some big) (sym q) gb)) ∙ sym q) in
    up z y (joined big small s) (get-put-other p big small z apart ∙ g) m
      (join-IsRoot p big small y s gb gs n h)

-- Two nodes have one root.
abbrev pub IsSame : Parents → Text → Text → Type 0
IsSame p x y = (r : Text) × IsRoot p x r × IsRoot p y r

abbrev pub KeepsSame : Parents → Parents → Type 0
KeepsSame p q = (x y : Text) → IsSame p x y → IsSame q x y

module _ (R : Text → Text → Type 0) (transitive : (x y z : Text) → R x y → R y z → R x z)
    (symmetric : (x y : Text) → R x y → R y x) where
  -- A forest whose parents are related.
  abbrev pub IsGood : Parents → Type 0
  IsGood p = IsForest p × IsBacked R transitive symmetric p

  pub find_lem :
      (p : Parents) (node : Text)
      → IsGood p
      → R node node
      → (r : Text) × (q : Parents) × (find p node ≡ some (r, q))
        × IsRoot q node r
        × IsGood q
        × KeepsRoots p q
  unfolding find
  find_lem p node (f, b) n =
      let d = set_default node node p in
      let forest = set_default-IsForest p node f in
      let (w, g) = get-key p node in
      let backed : IsBacked R transitive symmetric d = λ x y h. elim (get-new p node x y h) [
        | inl i ↦ b x y i
        | inr (s, t) ↦ subst (λ a. R a y) (sym s) (subst (R node) (sym t) n)
      ] in
      let within = rank-length d node w g in
      let (r, e, i) = find_root-IsRoot d (length d) node w forest g within in
      let (q, c, fq, keeps, bq) =
        compress_lem R transitive symmetric d (length d) node r forest backed i within in
      (
        r,
        q,
        rw e (rw c refl),
        keeps node r i,
        (fq, bq),
        λ z s h. keeps z s (set_default-IsRoot p node z s h),
      )

  join_lem :
      (p : Parents) (a b big small : Text)
      → IsGood p
      → get big p ≡ some big
      → get small p ≡ some small
      → text_le small big ≡ true
      → small ≢ big
      → R big small
      → IsGood (put big small p) × KeepsSame p (put big small p)
  join_lem p a b big small (f, k) gb gs l n h = (
    (
      put-IsForest p big small big small f gb l gs,
      put-IsBacked R transitive symmetric p big small k h,
    ),
    λ x y (r, i, j). (
      joined big small r,
      join-IsRoot p big small x r gb gs n i,
      join-IsRoot p big small y r gb gs n j,
    ),
  )

  -- Joining two roots gives their nodes one root.
  same_lem :
      (p : Parents) (big small x y : Text)
      → get big p ≡ some big
      → get small p ≡ some small
      → small ≢ big
      → IsRoot p x big
      → IsRoot p y small
      → IsSame (put big small p) x y
  same_lem p big small x y gb gs n i j = (
    small,
    subst (IsRoot (put big small p) x) (joined-same big small)
        (join-IsRoot p big small x big gb gs n i),
    subst (IsRoot (put big small p) y) (joined-other big small small n)
        (join-IsRoot p big small y small gb gs n j),
  )

  IsSame-sym : (p : Parents) (x y : Text) → IsSame p x y → IsSame p y x
  IsSame-sym p x y (r, i, j) = (r, j, i)

  -- The two roots of `union`, joined.
  roots_lem :
      (p : Parents) (a b ra rb : Text)
      → IsGood p
      → IsRoot p a ra
      → IsRoot p b rb
      → R a b
      → IsGood (join_roots ra rb p)
        × KeepsSame p (join_roots ra rb p)
        × IsSame (join_roots ra rb p) a b
  roots_lem p a b ra rb good ia ib h =
      let ga = root-get p a ra ia in
      let gb = root-get p b rb ib in
      let ha = root-IsBacked R transitive symmetric p a ra good.1 ia in
      let hb = root-IsBacked R transitive symmetric p b rb good.1 ib in
      let ab = transitive ra b rb (transitive ra a b (symmetric a ra ha) h) hb in
      elim (Bool-cases (text_eq.beq ra rb)) [
        | inl e ↦
            let same = (text_eq.beq_iff ra rb).0 e in
            rw e (good, λ x y i. i, (rb, subst (IsRoot p a) same ia, ib))
        | inr e ↦
            let apart : ra ≢ rb = λ q. let t = (text_eq.beq_iff ra rb).1 q in ground arith in
            elim (Bool-cases (text_le ra rb)) [
              | inl l ↦
                  let (good', keeps) =
                    join_lem p a b rb ra good gb ga l apart (symmetric ra rb ab) in
                  rw e
                    (rw l (good', keeps, IsSame-sym _ b a (same_lem p rb ra b a gb ga apart ib ia)))
              | inr l ↦
                  let less : text_le rb ra ≡ true = elim (text_le_total ra rb) [
                    | inl t ↦ ground arith
                    | inr t ↦ t
                  ] in
                  let (good', keeps) =
                    join_lem p a b ra rb good ga gb less (λ q. apart (sym q)) ab in
                  rw e (rw l (good', keeps, same_lem p ra rb a b ga gb (λ q. apart (sym q)) ia ib))
            ]
      ]

  pub union_lem :
      (p : Parents) (a b : Text)
      → IsGood p
      → R a a
      → R b b
      → R a b
      → (q : Parents) × (union p a b ≡ some q) × IsGood q × KeepsSame p q × IsSame q a b
  unfolding union
  union_lem p a b good ra_a rb_b h =
      let (ra, pa, ea, ia, ga, ka) = find_lem p a good ra_a in
      let (rb, pb, eb, ib, gb, kb) = find_lem pa b ga rb_b in
      let (good', keeps, same) = roots_lem pb a b ra rb gb (kb a ra ia) ib h in
      (
        join_roots ra rb pb,
        rw ea (rw eb refl),
        good',
        λ x y (r, i, j). keeps x y (r, kb x r (ka x r i), kb y r (ka y r j)),
        same,
      )
