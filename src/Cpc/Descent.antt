-- ===== src/Cpc/Descent.antt =====
-- The loop of `CpcScheme.descendants` of src/patsquire_plr/classification/cpc.py: what is popped and
-- what is on the stack, round by round.
use patent_landscapes.Base.{
  ℕ, zero, suc, ◌+◌, ◌≤◌, ◌≡◌, ◌⊎◌, ◌↔◌, refl, sym, ap, subst, inl, inr, some, List, [], ◌∷◌, ◌++◌,
  arith, nat_eq, length, All-of-IsIn, IsIn, IsIn-left, IsIn-right, IsIn-append, Bool-cases,
}
use patent_landscapes.Base.Text.{Text, text_eq, Unicode}
use patent_landscapes.Base.Dict.{get}
use patent_landscapes.Base.Result.{ok}
use patent_landscapes.Base.Pigeon.{AllApart, length-distinct}
use patent_landscapes.Cpc.Scheme.{CpcEntry, CpcScheme, collect, descendants}
use patent_landscapes.Cpc.Paths.{IsWithin}
use patent_landscapes.Cpc.Children.{IsTree, kids, made-IsTree}
use patent_landscapes.Cpc.Listed.{title_list-AllPlaced}
use patent_landscapes.Cpc.Titles.{Archive, parse_title_list}
use patent_landscapes.Cpc.Below.{
  IsUnder, child, deeper, one_parent, under-deep, not-IsUnder_itself, under-IsWithin,
  within-IsUnder,
}

AllApart-append :
    {A : Type 0} (xs ys : List A)
    → AllApart xs
    → AllApart ys
    → ((x : A) → IsIn x xs → ¬ IsIn x ys)
    → AllApart (xs ++ ys)
AllApart-append [] ys h k d = k
AllApart-append (x ∷ xs) ys h k d = (
  λ i. elim (IsIn-append x xs ys i) [ inl j ↦ h.0 j | inr j ↦ d x (inl refl) j ],
  AllApart-append xs ys h.1 k (λ y j. d y (inr j)),
)

abbrev keys : List (Text × CpcEntry) → List Text
keys [] = []
keys ((k, e) ∷ d) = k ∷ keys d

length-keys : (d : List (Text × CpcEntry)) → length (keys d) ≡ length d
length-keys [] = refl
length-keys ((k, e) ∷ d) = ap suc (length-keys d)

get-keys :
    (k : Text) (e : CpcEntry) (d : List (Text × CpcEntry)) → get k d ≡ some e → IsIn k (keys d)
unfolding get
get-keys k e [] h = cc
get-keys k e ((j, f) ∷ d) h = elim (Bool-cases (text_eq.beq j k)) [
  | inl t ↦ inl (sym ((text_eq.beq_iff j k).0 t))
  | inr f ↦ inr (get-keys k e d (ground arith))
]

-- The symbols popped and the stack, in a round of the loop for the descendants of the symbol.
record IsRound (s : CpcScheme) (symbol : Text) (popped stack : List Text) : Type 0 where
  popped_once : AllApart popped
  stacked_once : AllApart stack
  apart : (x : Text) → IsIn x popped → ¬ IsIn x stack
  under : (x : Text) → IsIn x popped ⊎ IsIn x stack → IsUnder s symbol x
  above :
      (x c : Text) → IsIn x popped ⊎ IsIn x stack → IsIn x (kids s c) → (c ≡ symbol) ⊎ IsIn c popped
  below :
      (x c : Text) → (c ≡ symbol) ⊎ IsIn c popped → IsIn x (kids s c) → IsIn x popped ⊎ IsIn x stack

module _ (s : CpcScheme) (tree : IsTree s) (symbol : Text) where
  first-IsRound : IsRound s symbol [] (kids s symbol)
  first-IsRound = record {
    popped_once = tt;
    stacked_once = tree.kids_distinct symbol;
    apart = λ x i j. i;
    under = λ x. elim [ inl i ↦ absurd i | inr i ↦ child x i ];
    above = λ x c i k. elim i [
      | inl j ↦ absurd j
      | inr j ↦ inl (one_parent s tree symbol x c symbol k j)
    ];
    below =
        λ x c i k. elim i [ inl q ↦ inr (subst (λ d. IsIn x (kids s d)) q k) | inr j ↦ absurd j ];
  }

  pushed :
      (x c : Text) (popped stack : List Text)
      → IsIn x popped ⊎ IsIn x (c ∷ stack)
      → IsIn x (c ∷ popped) ⊎ IsIn x (kids s c ++ stack)
  pushed x c popped stack (inl i) = inl (inr i)
  pushed x c popped stack (inr (inl q)) = inl (inl q)
  pushed x c popped stack (inr (inr i)) = inr (IsIn-right x (kids s c) stack i)

  came :
      (x c : Text) (popped stack : List Text)
      → IsIn x (c ∷ popped) ⊎ IsIn x (kids s c ++ stack)
      → (IsIn x popped ⊎ IsIn x (c ∷ stack)) ⊎ IsIn x (kids s c)
  came x c popped stack (inl (inl q)) = inl (inr (inl q))
  came x c popped stack (inl (inr i)) = inl (inl i)
  came x c popped stack (inr i) = elim (IsIn-append x (kids s c) stack i) [
    | inl k ↦ inr k
    | inr j ↦ inl (inr (inr j))
  ]

  next-IsRound :
      (c : Text) (popped stack : List Text)
      → IsRound s symbol popped (c ∷ stack)
      → IsRound s symbol (c ∷ popped) (kids s c ++ stack)
  next-IsRound c popped stack r = record {
    popped_once = (λ i. r.apart c i (inl refl), r.popped_once);
    stacked_once =
        AllApart-append (kids s c) stack (tree.kids_distinct c) r.stacked_once.1
          (λ x k j. unmet x k (inr (inr j)));
    apart = λ x i j. elim (IsIn-append x (kids s c) stack j) [
      | inl k ↦ elim i [ inl q ↦ unmet x k (inr (inl q)) | inr p ↦ unmet x k (inl p) ]
      | inr l ↦ elim i [
        | inl q ↦ r.stacked_once.0 (subst (λ y. IsIn y stack) q l)
        | inr p ↦ r.apart x p (inr l)
      ]
    ];
    under = λ x i. elim (came x c popped stack i) [
      | inl j ↦ r.under x j
      | inr k ↦ deeper c x (r.under c (inr (inl refl))) k
    ];
    above = λ x d i k. elim (came x c popped stack i) [
      | inl j ↦ elim (r.above x d j k) [ inl q ↦ inl q | inr p ↦ inr (inr p) ]
      | inr l ↦ inr (inl (one_parent s tree symbol x d c k l))
    ];
    below = λ x d i k. elim i [
      | inl q ↦ pushed x c popped stack (r.below x d (inl q) k)
      | inr (inl q) ↦ inr (IsIn-left x (kids s c) stack (subst (λ y. IsIn x (kids s y)) q k))
      | inr (inr p) ↦ pushed x c popped stack (r.below x d (inr p) k)
    ];
  }
    where
      unmet : (x : Text) → IsIn x (kids s c) → ¬ (IsIn x popped ⊎ IsIn x (c ∷ stack))
      unmet x k i = elim (r.above x c i k) [
        | inl q ↦
            not-IsUnder_itself s tree symbol
              (subst (IsUnder s symbol) q (r.under c (inr (inl refl))))
        | inr p ↦ r.apart c p (inl refl)
      ]

  -- After the last round, all that is under the symbol was popped.
  last_round :
      (popped : List Text) (x : Text)
      → IsRound s symbol popped []
      → IsUnder s symbol x
      → IsIn x popped
  last_round popped x r (child _ i) = elim (r.below x symbol (inl refl) i) [
    | inl p ↦ p
    | inr j ↦ absurd j
  ]
  last_round popped x r (deeper y _ u i) = elim (r.below x y (inr (last_round popped y r u)) i) [
    | inl p ↦ p
    | inr j ↦ absurd j
  ]

  few :
      (popped stack : List Text) → IsRound s symbol popped stack → length popped ≤ length s.entries
  few popped stack r =
      let most = length-distinct popped (keys s.entries) r.popped_once (
        All-of-IsIn (λ x. IsIn x (keys s.entries)) popped
          (λ x i.
            let (e, a, g, at, less) = under-deep s tree symbol x (r.under x (inl i)) in
            get-keys x e s.entries g)) in
      let count = length-keys s.entries in omega arith

  collect_next :
      (fuel : ℕ) (c : Text) (stack found : List Text)
      → collect s fuel (kids s c ++ stack) ≡ some found
      → collect s (suc fuel) (c ∷ stack) ≡ some (c ∷ found)
  unfolding collect
  collect_next fuel c stack found q = rw (collect, q) refl

  collect-IsUnder :
      (fuel : ℕ) (popped stack : List Text)
      → IsRound s symbol popped stack
      → length popped + fuel ≡ length s.entries
      → (found : List Text) × (collect s fuel stack ≡ some found)
        × AllApart found
        × ((x : Text) → IsIn x found → ¬ IsIn x popped)
        × ((x : Text) → IsIn x popped ⊎ IsIn x found ↔ IsUnder s symbol x)
  unfolding collect
  collect-IsUnder fuel popped [] r n = (
    [],
    refl,
    tt,
    λ x i p. i,
    λ x.
        (elim [ inl p ↦ r.under x (inl p) | inr i ↦ absurd i ], λ u. inl (last_round popped x r u)),
  )
  collect-IsUnder zero popped (c ∷ stack) r n =
      let most = few (c ∷ popped) (kids s c ++ stack) (next-IsRound c popped stack r) in
      absurd (omega arith)
  collect-IsUnder (suc fuel) popped (c ∷ stack) r n =
      let (found, q, once, fresh, all) =
        collect-IsUnder fuel (c ∷ popped) (kids s c ++ stack) (next-IsRound c popped stack r)
          (omega arith) in
      (
        c ∷ found,
        collect_next fuel c stack found q,
        (λ i. fresh c i (inl refl), once),
        λ x i p. elim i [ inl same ↦ r.apart x p (inl same) | inr j ↦ fresh x j (inr p) ],
        λ x. (
          elim [
            | inl p ↦ (all x).0 (inl (inr p))
            | inr (inl same) ↦ (all x).0 (inl (inl same))
            | inr (inr j) ↦ (all x).0 (inr j)
          ],
          λ u. elim ((all x).1 u) [
            | inl (inl same) ↦ inr (inl same)
            | inl (inr p) ↦ inl p
            | inr j ↦ inr (inr j)
          ],
        ),
      )

-- In a scheme that was read from a title list, `descendants` returns for every symbol, in no more
-- rounds than the scheme has entries, the listed codes that are within the symbol without being the
-- symbol itself, each once.
pub descendants-returns :
    (u : Unicode) (archive : Archive) (s : CpcScheme) (symbol : Text)
    → parse_title_list u (some archive) ≡ ok s
    → (found : List Text) × (descendants s (length s.entries) symbol ≡ some found)
      × AllApart found
      × ((x : Text)
          → IsIn x found
            ↔ ((e : CpcEntry) × (get x s.entries ≡ some e) × IsWithin s symbol e × ¬ (x ≡ symbol)))
unfolding descendants
descendants-returns u archive s symbol h =
    let (version, es, placed, made) = title_list-AllPlaced u archive s h in
    let tree = made-IsTree version es s placed made in
    let (found, q, once, fresh, all) =
      collect-IsUnder s tree symbol (length s.entries) [] (kids s symbol)
        (first-IsRound s tree symbol) (omega arith) in
    (
      found,
      q,
      once,
      λ x. (
        λ i.
            let below = (all x).0 (inr i) in
            let (e, a, g, at, less) = under-deep s tree symbol x below in
            (
              e,
              g,
              under-IsWithin s tree symbol x e g below,
              λ same. not-IsUnder_itself s tree symbol (subst (IsUnder s symbol) same below),
            ),
        λ (e, g, w, n). elim ((all x).1 (within-IsUnder s tree symbol x e g w n)) [
          | inl p ↦ absurd p
          | inr i ↦ i
        ],
      ),
    )
