-- ===== src/Cpc/Entries.antt =====
-- The entries of a scheme as a dictionary by symbol, of src/patsquire_plr/classification/cpc.py: what
-- a count equal to the list's says of it.
use patent_landscapes.Base.{
  suc, ◌+◌, ◌≤◌, ◌≡◌, refl, sym, ap, ◌∙◌, ◌⊎◌, inl, inr, some, List, [], ◌∷◌, arith, if◌then◌else◌,
  Bool-cases, is_some, nat_eq, length, IsIn,
}
use patent_landscapes.Base.Text.{Text, text_eq}
use patent_landscapes.Base.Dict.{get, put, get-put}
use patent_landscapes.Cpc.Scheme.{CpcEntry, by_symbol}

pub length-put :
    (k : Text) (v : CpcEntry) (d : List (Text × CpcEntry))
    → length (put k v d) ≡ (if is_some (get k d) then length d else suc (length d))
unfolding put get
length-put k v [] = refl
length-put k v ((j, w) ∷ d) = ground (arith, length-put k v d)

pub length-by_symbol :
    (d : List (Text × CpcEntry)) (es : List CpcEntry)
    → length (by_symbol d es) ≤ length d + length es
unfolding by_symbol
length-by_symbol d [] = omega arith
length-by_symbol d (e ∷ es) =
    ground (arith, length-by_symbol (put e.symbol e d) es, length-put e.symbol e d)

-- Where no entry was lost, an entry held before is held after.
get-kept :
    (k : Text) (v : CpcEntry) (d : List (Text × CpcEntry)) (es : List CpcEntry)
    → length (by_symbol d es) ≡ length d + length es
    → get k d ≡ some v
    → get k (by_symbol d es) ≡ some v
unfolding by_symbol
get-kept k v d [] h g = g
get-kept k v d (e ∷ es) h g =
    let count = length-put e.symbol e d in
    let most = length-by_symbol (put e.symbol e d) es in
    elim (Bool-cases (is_some (get e.symbol d))) [
      | inl old ↦ ground arith
      | inr new ↦
          get-kept k v (put e.symbol e d) es (ground arith)
            (ground (arith, get-put e.symbol k e d, text_eq.beq_iff e.symbol k))
    ]

-- Where no entry was lost, each of the list is found by its symbol.
pub get-IsIn :
    (e : CpcEntry) (d : List (Text × CpcEntry)) (es : List CpcEntry)
    → length (by_symbol d es) ≡ length d + length es
    → IsIn e es
    → get e.symbol (by_symbol d es) ≡ some e
unfolding by_symbol
get-IsIn e d [] h i = absurd i
get-IsIn e d (x ∷ es) h i =
    let count = length-put x.symbol x d in
    let most = length-by_symbol (put x.symbol x d) es in
    elim (Bool-cases (is_some (get x.symbol d))) [
      | inl old ↦ ground arith
      | inr new ↦
          let same : length (by_symbol (put x.symbol x d) es)
              ≡ length (put x.symbol x d) + length es =
            ground arith in
          elim i [
            | inl q ↦ rw q (
                get-kept x.symbol x (put x.symbol x d) es same (
                  ground (arith, get-put x.symbol x.symbol x d, text_eq.beq_iff x.symbol x.symbol)))
            | inr j ↦ get-IsIn e (put x.symbol x d) es same j
          ]
    ]

-- What is found was held before, or is in the list under its own symbol.
pub get-by_symbol :
    (k : Text) (e : CpcEntry) (d : List (Text × CpcEntry)) (es : List CpcEntry)
    → get k (by_symbol d es) ≡ some e
    → (get k d ≡ some e) ⊎ (IsIn e es × (e.symbol ≡ k))
unfolding by_symbol
get-by_symbol k e d [] g = inl g
get-by_symbol k e d (x ∷ es) g = elim (get-by_symbol k e (put x.symbol x d) es g) [
  | inl before ↦ elim (Bool-cases (text_eq.beq x.symbol k)) [
    | inl s ↦
        let same : x ≡ e = ground (arith, get-put x.symbol k x d) in
        inr (
          inl (sym same),
          sym (ap (λ (y : CpcEntry). y.symbol) same) ∙ (text_eq.beq_iff x.symbol k).0 s,
        )
    | inr s ↦ inl (ground (arith, get-put x.symbol k x d))
  ]
  | inr (i, s) ↦ inr (inr i, s)
]
