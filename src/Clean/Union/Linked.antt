-- ===== src/Clean/Union/Linked.antt =====
-- What `_UnionFind` of src/patsquire_plr/clean/dataset.py computes over a sequence of calls: two nodes
-- have one root exactly if the calls link them.
use patent_landscapes.Base.Dict.{get}
use patent_landscapes.Clean.Union.Forest.{IsRoot-unique, IsRoot}
use patent_landscapes.Clean.Union.Steps.{root-IsBacked}
use patent_landscapes.Base.{
  ap, All-of-IsIn, All-IsIn, ◌↔◌, subst, ◌≡◌, refl, ◌∙◌, some, List, [], ◌∷◌, nat_eq, All, IsIn,
}
use patent_landscapes.Base.Text.{Text, text_eq}
use patent_landscapes.Clean.Union.{get, run_step, and_then, Parents, Step, visit, join, run_steps}
use patent_landscapes.Clean.Union.Roots.{IsSame, KeepsSame, IsGood, find_lem, union_lem}

-- The least equivalence on the nodes of the calls that holds of each two that are joined.
pub data IsLinked (steps : List Step) : Text → Text → Type 0 where
  visited : (a b : Text) → a ≡ b → IsIn (visit a) steps → IsLinked steps a b
  first : (a b c : Text) → a ≡ b → IsIn (join a c) steps → IsLinked steps a b
  second : (a b c : Text) → a ≡ b → IsIn (join c a) steps → IsLinked steps a b
  joined : (a b : Text) → IsIn (join a b) steps → IsLinked steps a b
  back : (a b : Text) → IsLinked steps b a → IsLinked steps a b
  chained : (a b c : Text) → IsLinked steps a c → IsLinked steps c b → IsLinked steps a b

-- What a call leaves true.
abbrev pub IsDone : Parents → Step → Type 0
IsDone q (visit a) = IsSame q a a
IsDone q (join a b) = IsSame q a b

keep-IsDone : (p q : Parents) (s : Step) → KeepsSame p q → IsDone p s → IsDone q s
keep-IsDone p q (visit a) k h = k a a h
keep-IsDone p q (join a b) k h = k a b h

module _ (all_steps : List Step) where
  pub transitive :
      (x y z : Text) → IsLinked all_steps x y → IsLinked all_steps y z → IsLinked all_steps x z
  transitive x y z h k = chained x z y h k

  pub symmetric : (x y : Text) → IsLinked all_steps x y → IsLinked all_steps y x
  symmetric x y h = back y x h

  abbrev pub IsFine : Parents → Type 0
  IsFine p = IsGood (IsLinked all_steps) transitive symmetric p

  step_lem :
      (p : Parents) (s : Step)
      → IsFine p
      → IsIn s all_steps
      → (q : Parents) × (run_step p s ≡ some q) × IsFine q × KeepsSame p q × IsDone q s
  step_lem p (visit a) f i =
      let (r, q, e, root, good, keeps) =
        find_lem (IsLinked all_steps) transitive symmetric p a f (visited a a refl i) in
      (q, rw e refl, good, λ x y (s, j, k). (s, keeps x s j, keeps y s k), (r, root, root))
  step_lem p (join a b) f i =
      let (q, e, good, keeps, same) =
        union_lem (IsLinked all_steps) transitive symmetric p a b f (first a a b refl i)
          (second b b a refl i) (joined a b i) in
      (q, rw e refl, good, keeps, same)

  pub steps_lem :
      (p : Parents) (steps : List Step)
      → IsFine p
      → All (λ s. IsIn s all_steps) steps
      → (q : Parents) × (run_steps p steps ≡ some q)
        × IsFine q
        × KeepsSame p q
        × All (IsDone q) steps
  unfolding run_steps
  steps_lem p [] f i = (p, refl, f, λ x y h. h, tt)
  steps_lem p (s ∷ rest) f i =
      let (p', e, f', k, d) = step_lem p s f i.0 in
      let (q, e', f'', k', ds) = steps_lem p' rest f' i.1 in
      (
        q,
        ap (λ o. and_then o (λ r. run_steps r rest)) e ∙ e',
        f'',
        λ x y h. k' x y (k x y h),
        (keep-IsDone p' q s k' d, ds),
      )

  pub empty-IsFine : IsFine []
  unfolding get
  empty-IsFine = (record { falls = λ x y g. cc; is_closed = λ x y g. cc }, λ x y g. cc)

  pub IsSame-linked : (q : Parents) (x y : Text) → IsFine q → IsSame q x y → IsLinked all_steps x y
  IsSame-linked q x y f (r, i, j) =
      chained x y r (root-IsBacked (IsLinked all_steps) transitive symmetric q x r f.1 i)
        (back r y (root-IsBacked (IsLinked all_steps) transitive symmetric q y r f.1 j))

pub linked-IsSame :
    (steps : List Step) (q : Parents) (x y : Text)
    → All (IsDone q) steps
    → IsLinked steps x y
    → IsSame q x y
linked-IsSame steps q x y d (visited _ _ e i) =
    subst (IsSame q x) e (All-IsIn (IsDone q) (visit x) steps d i)
linked-IsSame steps q x y d (first _ _ c e i) =
    let (r, j, k) = All-IsIn (IsDone q) (join x c) steps d i in subst (IsSame q x) e (r, j, j)
linked-IsSame steps q x y d (second _ _ c e i) =
    let (r, j, k) = All-IsIn (IsDone q) (join c x) steps d i in subst (IsSame q x) e (r, k, k)
linked-IsSame steps q x y d (joined _ _ i) = All-IsIn (IsDone q) (join x y) steps d i
linked-IsSame steps q x y d (back _ _ h) =
    let (r, j, k) = linked-IsSame steps q y x d h in (r, k, j)
linked-IsSame steps q x y d (chained _ _ c h k) =
    let (r, i, j) = linked-IsSame steps q x c d h in
    let (s, l, m) = linked-IsSame steps q c y d k in
    (r, i, subst (IsRoot q y) (IsRoot-unique q c s r l j) m)

-- Whatever calls are made of an empty union-find, they return, and then two nodes have the same root
-- exactly if the calls link them: the roots are the classes of the least equivalence on the nodes of
-- the calls that holds of each two that are joined.
pub run_steps-IsLinked :
    (steps : List Step)
    → (q : Parents) × (run_steps [] steps ≡ some q)
      × ((x y : Text) → IsSame q x y ↔ IsLinked steps x y)
run_steps-IsLinked steps =
    let (q, e, f, k, d) =
      steps_lem steps [] steps (empty-IsFine steps)
        (All-of-IsIn (λ s. IsIn s steps) steps (λ s i. i)) in
    (q, e, λ x y. (IsSame-linked steps q x y f, linked-IsSame steps q x y d))
