-- ===== src/Cpc/Apart.antt =====
-- The symbols of a scheme whose entries have different symbols, in src/patsquire_plr/classification/cpc.py:
-- none is repeated among the entries, nor among those that a filter keeps.
use patent_landscapes.Base.{
  ◌+◌, ◌≡◌, refl, sym, subst, inl, inr, Bool, some, List, [], ◌∷◌, map, arith, Bool-cases, is_some,
  nat_eq, length, filter, IsIn, filter-IsIn, IsIn-map,
}
use patent_landscapes.Base.Text.{Text, text_eq}
use patent_landscapes.Base.Dict.{get, put, get-put}
use patent_landscapes.Base.Pigeon.{AllApart}
use patent_landscapes.Cpc.Scheme.{CpcEntry, by_symbol, symbols_of}
use patent_landscapes.Cpc.Entries.{length-put, length-by_symbol}

pub unmap :
    {A B : Type 0} (f : A → B) (y : B) (xs : List A)
    → IsIn y (map f xs)
    → (a : A) × IsIn a xs × (y ≡ f a)
unmap f y [] i = absurd i
unmap f y (x ∷ xs) (inl q) = (x, inl refl, q)
unmap f y (x ∷ xs) (inr i) = let (a, j, q) = unmap f y xs i in (a, inr j, q)

symbols-new :
    (k : Text) (v : CpcEntry) (d : List (Text × CpcEntry)) (es : List CpcEntry)
    → length (by_symbol d es) ≡ length d + length es
    → get k d ≡ some v
    → ¬ IsIn k (symbols_of es)
unfolding by_symbol
symbols-new k v d [] h g i = i
symbols-new k v d (e ∷ es) h g i =
    let count = length-put e.symbol e d in
    let most = length-by_symbol (put e.symbol e d) es in
    elim (Bool-cases (is_some (get e.symbol d))) [
      | inl old ↦ absurd (ground arith)
      | inr new ↦ elim i [
        | inl q ↦
            let held : get e.symbol d ≡ some v = subst (λ t. get t d ≡ some v) q g in ground arith
        | inr j ↦ elim (Bool-cases (text_eq.beq e.symbol k)) [
          | inl s ↦
              symbols-new k e (put e.symbol e d) es (ground arith)
                (ground (arith, get-put e.symbol k e d)) j
          | inr s ↦
              symbols-new k v (put e.symbol e d) es (ground arith)
                (ground (arith, get-put e.symbol k e d)) j
        ]
      ]
    ]

pub symbols-AllApart :
    (d : List (Text × CpcEntry)) (es : List CpcEntry)
    → length (by_symbol d es) ≡ length d + length es
    → AllApart (symbols_of es)
unfolding by_symbol
symbols-AllApart d [] h = tt
symbols-AllApart d (e ∷ es) h =
    let count = length-put e.symbol e d in
    let most = length-by_symbol (put e.symbol e d) es in
    elim (Bool-cases (is_some (get e.symbol d))) [
      | inl old ↦ absurd (ground arith)
      | inr new ↦
          let same : length (by_symbol (put e.symbol e d) es)
              ≡ length (put e.symbol e d) + length es =
            ground arith in
          (
            symbols-new e.symbol e (put e.symbol e d) es same
                (ground (arith, get-put e.symbol e.symbol e d, text_eq.beq_iff e.symbol e.symbol)),
            symbols-AllApart (put e.symbol e d) es same,
          )
    ]

pub AllApart-filter :
    (p : CpcEntry → Bool) (es : List CpcEntry)
    → AllApart (symbols_of es)
    → AllApart (symbols_of (filter p es))
AllApart-filter p [] h = tt
AllApart-filter p (e ∷ es) h = elim (Bool-cases (p e)) [
  | inl t ↦ rw t (
    λ i.
        let (a, j, q) = unmap (λ (x : CpcEntry). x.symbol) e.symbol (filter p es) i in
        let (l, passes) = filter-IsIn p a es j in
        h.0 (
          subst (λ y. IsIn y (symbols_of es)) (sym q)
            (IsIn-map (λ (x : CpcEntry). x.symbol) a es l)),
    AllApart-filter p es h.1,
  )
  | inr f ↦ rw f (AllApart-filter p es h.1)
]
