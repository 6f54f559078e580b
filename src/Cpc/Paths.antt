-- ===== src/Cpc/Paths.antt =====
-- `path` of src/patsquire_plr/classification/cpc.py returns on every scheme that the reader of title
-- lists builds, and `is_within` decides what the parents say.
use patent_landscapes.Cpc.Titles.{parse_title_list, Archive}
use patent_landscapes.Cpc.Entries.{get-IsIn, get-by_symbol}
use patent_landscapes.Base.{
  is_some, if◌then◌else◌, Bool, All-IsIn, any, ◌||◌, false, true, ◌⊎◌, ◌↔◌, ◌∙◌, ◌+◌, ℕ, zero, suc,
  ◌<◌, ◌≡◌, refl, sym, ap, subst, inl, inr, Option, none, some, List, [], ◌∷◌, ◌++◌, arith, ◌==◌,
  ==_iff, Bool-cases, Option-cases, nat_eq, length, filter, IsIn,
}
use patent_landscapes.Base.Text.{Unicode, Text, text_eq}
use patent_landscapes.Base.Dict.{get}
use patent_landscapes.Base.Result.{ok}
use mathlib.Core.Option.{some-injective}
use patent_landscapes.Cpc.Scheme.{
  path_fuel, path, CpcEntry, CpcScheme, make_scheme, without_orphans, by_symbol, is_orphan, depth,
  or_zero, parent_entry, walk,
}
use patent_landscapes.Cpc.Within.{is_within_unlisted, is_on, is_within}
use patent_landscapes.Cpc.Placed.{IsShaped, high, low, IsBelow, top, prefix, under}
use patent_landscapes.Cpc.Listed.{title_list-AllPlaced, AllPlaced}

-- A chain from an entry without a parent down to the entry, each the parent of the next.
pub data IsChain (s : CpcScheme) : CpcEntry → List CpcEntry → Type 0 where
  root :
      (e : CpcEntry) (chain : List CpcEntry)
      → parent_entry s e.parent ≡ none
      → chain ≡ e ∷ []
      → IsChain s e chain
  below :
      (e : CpcEntry) (chain : List CpcEntry) (a : CpcEntry) (above : List CpcEntry)
      → parent_entry s e.parent ≡ some a
      → IsChain s a above
      → chain ≡ above ++ (e ∷ [])
      → IsChain s e chain

-- An entry is within a symbol that is its own, or that its parent is within.
pub data IsWithin (s : CpcScheme) (symbol : Text) : CpcEntry → Type 0 where
  itself : (e : CpcEntry) → e.symbol ≡ symbol → IsWithin s symbol e
  inside :
      (e a : CpcEntry)
      → parent_entry s e.parent ≡ some a
      → IsWithin s symbol a
      → IsWithin s symbol e

-- Parents stand less deep.
pub record IsRising (s : CpcScheme) : Type 0 where
  pub rises :
      (k : Text) (e a : CpcEntry)
      → get k s.entries ≡ some e
      → parent_entry s e.parent ≡ some a
      → depth a < depth e
  pub is_listed :
      (e a : CpcEntry) → parent_entry s e.parent ≡ some a → get a.symbol s.entries ≡ some a

pub made_lem :
    (version : Text) (es : List CpcEntry) (s : CpcScheme)
    → make_scheme version es ≡ ok s
    → (s.entries ≡ by_symbol [] es) × (length (by_symbol [] es) ≡ length es)
unfolding make_scheme
made_lem version es s h = elim (Bool-cases (length (by_symbol [] es) == length es)) [
  | inr e ↦ ground arith
  | inl e ↦
      let count = (==_iff (length (by_symbol [] es)) (length es)).0 e in
      (from_list (filter (is_orphan (by_symbol [] es)) es) (ground arith), count)
]
  where
    from_list :
        (os : List CpcEntry) → without_orphans version es os ≡ ok s → s.entries ≡ by_symbol [] es
    from_list [] q = ground arith
    from_list (o ∷ os) q = cc

pub parent_entry_lem :
    (s : CpcScheme) (e a : CpcEntry)
    → parent_entry s e.parent ≡ some a
    → (p : Text) × (e.parent ≡ some p) × (get p s.entries ≡ some a)
unfolding parent_entry
parent_entry_lem s e a h = go e.parent h
  where
    go :
        (o : Option Text)
        → parent_entry s o ≡ some a
        → (p : Text) × (o ≡ some p) × (get p s.entries ≡ some a)
    go none h = cc
    go (some []) h = cc
    go (some (c ∷ p)) h = (c ∷ p, refl, h)

placed-depth :
    (es : List CpcEntry) (e a : CpcEntry)
    → IsShaped e
    → IsShaped a
    → IsBelow es e
    → e.parent ≡ some a.symbol
    → ((b : CpcEntry) → IsIn b es → a.symbol ≡ b.symbol → a ≡ b)
    → depth a < depth e
unfolding depth
placed-depth es e a shaped over (top q) p unique = cc
placed-depth es e a shaped (low long) (prefix t q long_ small short) p unique =
    let same : t ≡ a.symbol = ground arith in
    let count : length t ≡ length a.symbol = ap length same in absurd (omega arith)
placed-depth es e a shaped (high level) (prefix t q long_ small short) p unique =
    let same : t ≡ a.symbol = ground arith in
    let count : length t ≡ length a.symbol = ap length same in
    let flat : or_zero a.dot_level ≡ 0 = ap or_zero level in omega arith
placed-depth es e a shaped over (under b i long_ q less) p unique =
    let same : a ≡ b = unique b i (ground arith) in
    subst (λ (x : CpcEntry). depth x < depth e) (sym same) less

pub get-listed :
    (es : List CpcEntry) (k : Text) (e : CpcEntry)
    → get k (by_symbol [] es) ≡ some e
    → IsIn e es × (e.symbol ≡ k)
unfolding get
get-listed es k e h = elim (get-by_symbol k e [] es h) [ inl q ↦ cc | inr q ↦ q ]

pub made-IsRising :
    (version : Text) (es : List CpcEntry) (s : CpcScheme)
    → AllPlaced es
    → make_scheme version es ≡ ok s
    → IsRising s
made-IsRising version es s placed h =
    let (held, exact) = made_lem version es s h in
    let count : length (by_symbol [] es) ≡ 0 + length es = omega arith in
    let listed : (k : Text) (e : CpcEntry) → get k s.entries ≡ some e → IsIn e es × (e.symbol ≡ k) =
      λ k e g. get-listed es k e (subst (λ d. get k d ≡ some e) held g) in
    let parent : (e a : CpcEntry)
        → parent_entry s e.parent ≡ some a
        → IsIn a es × (e.parent ≡ some a.symbol) =
      λ e a q.
        let (p, named, g) = parent_entry_lem s e a q in
        let (i, same) = listed p a g in (i, named ∙ ap some (sym same)) in
    record {
      rises = λ k e a g q.
          let i = listed k e g in
          let (j, named) = parent e a q in
          let (shaped, over) = All-IsIn (λ x. IsShaped x × IsBelow es x) e es placed i.0 in
          let above = All-IsIn (λ x. IsShaped x × IsBelow es x) a es placed j in
          placed-depth es e a shaped above.0 over named (λ b l same. some-injective _ _ (
            sym (get-IsIn a [] es count j)
            ∙ (ap (λ t. get t (by_symbol [] es)) same ∙ get-IsIn b [] es count l)));
      is_listed = λ e a q.
          let (j, named) = parent e a q in
          subst (λ d. get a.symbol d ≡ some a) (sym held) (get-IsIn a [] es count j);
    }

-- Whatever fuel is more than the depth is enough for the loop.
walk-IsChain :
    (s : CpcScheme) (fuel : ℕ) (e : CpcEntry)
    → IsRising s
    → get e.symbol s.entries ≡ some e
    → depth e < fuel
    → (chain : List CpcEntry) × (walk s fuel (some e) ≡ some chain) × IsChain s e chain
unfolding walk
walk-IsChain s zero e r g d = absurd (omega arith)
walk-IsChain s (suc fuel) e r g d = elim (Option-cases (parent_entry s e.parent)) [
  | inl q ↦ (e ∷ [], rw q refl, root e (e ∷ []) q refl)
  | inr (a, q) ↦
      let less = r.rises e.symbol e a g q in
      let (above, w, c) = walk-IsChain s fuel a r (r.is_listed e a q) (omega arith) in
      (above ++ (e ∷ []), rw q (rw w refl), below e (above ++ (e ∷ [])) a above q c refl)
]

any-append :
    {A : Type 0} (p : A → Bool) (xs ys : List A) → any p (xs ++ ys) ≡ (any p xs || any p ys)
any-append p [] ys = refl
any-append p (x ∷ xs) ys = ground (arith, any-append p xs ys)

chain-IsWithin :
    (s : CpcScheme) (symbol : Text) (e : CpcEntry) (chain : List CpcEntry)
    → IsChain s e chain
    → (any (λ (x : CpcEntry). text_eq.beq x.symbol symbol) chain ≡ true) ↔ IsWithin s symbol e
chain-IsWithin s symbol e chain (root _ _ q same) = (
  λ h. itself e ((text_eq.beq_iff e.symbol symbol).0 (ground arith)),
  elim [
    | itself _ t ↦ rw same (ground (arith, text_eq.beq_iff e.symbol symbol))
    | inside _ a p w ↦ cc
  ],
)
chain-IsWithin s symbol e chain (below _ _ a above q c same) =
    let on = λ (x : CpcEntry). text_eq.beq x.symbol symbol in
    let upper = chain-IsWithin s symbol a above c in
    let both = any-append on above (e ∷ []) in
    (
      λ h. elim (Bool-cases (any on above)) [
        | inl t ↦ inside e a q (upper.0 t)
        | inr f ↦ itself e ((text_eq.beq_iff e.symbol symbol).0 (ground arith))
      ],
      elim [
        | itself _ t ↦ rw same (ground (arith, text_eq.beq_iff e.symbol symbol))
        | inside _ b p w ↦
            let found = upper.1 (subst (IsWithin s symbol) (some-injective _ _ (sym p ∙ q)) w) in
            rw same (ground arith)
      ],
    )

listed-IsChain :
    (u : Unicode) (archive : Archive) (s : CpcScheme) (symbol : Text) (e : CpcEntry)
    → parse_title_list u (some archive) ≡ ok s
    → get symbol s.entries ≡ some e
    → (chain : List CpcEntry) × (path s symbol ≡ some chain) × IsChain s e chain
unfolding path path_fuel
listed-IsChain u archive s symbol e h g =
    let (version, es, placed, made) = title_list-AllPlaced u archive s h in
    let (held, count) = made_lem version es s made in
    let named = (get-listed es symbol e (subst (λ d. get symbol d ≡ some e) held g)).1 in
    let (chain, w, c) =
      walk-IsChain s (suc (length s.entries + depth e)) e (made-IsRising version es s placed made)
        (subst (λ t. get t s.entries ≡ some e) (sym named) g) (omega arith) in
    (chain, rw g w, c)

-- In a scheme that was read from a title list, `path` returns for every symbol: nothing for one
-- that is not listed, and for a listed one the chain of parents from an entry without a parent down
-- to the entry itself.
pub path-returns :
    (u : Unicode) (archive : Archive) (s : CpcScheme) (symbol : Text)
    → parse_title_list u (some archive) ≡ ok s
    → ((get symbol s.entries ≡ none) × (path s symbol ≡ some []))
      ⊎ ((e : CpcEntry) × (chain : List CpcEntry) × (get symbol s.entries ≡ some e)
          × (path s symbol ≡ some chain)
          × IsChain s e chain)
unfolding path walk
path-returns u archive s symbol h = elim (Option-cases (get symbol s.entries)) [
  | inl q ↦ inl (q, rw q refl)
  | inr (e, q) ↦
      let (chain, w, c) = listed-IsChain u archive s symbol e h q in inr (e, chain, q, w, c)
]

-- In a scheme that was read from a title list, `is_within` answers true for a listed code exactly
-- when the code has the symbol or its parent is within it, and false otherwise.
pub is_within-listed :
    (u : Unicode) (archive : Archive) (s : CpcScheme) (code symbol : Text) (e : CpcEntry)
    → parse_title_list u (some archive) ≡ ok s
    → get code s.entries ≡ some e
    → ((is_within u s code symbol ≡ some true) × IsWithin s symbol e)
      ⊎ ((is_within u s code symbol ≡ some false) × ¬ IsWithin s symbol e)
unfolding is_within
is_within-listed u archive s code symbol e h g =
    let (chain, w, c) = listed-IsChain u archive s code e h g in
    let on = λ (x : CpcEntry). text_eq.beq x.symbol symbol in
    let decides = chain-IsWithin s symbol e chain c in
    let answer : is_within u s code symbol ≡ some (any on chain) =
      ap (λ o. if is_some o then is_on symbol (path s code) else is_within_unlisted u s code symbol)
        g
      ∙ ap (is_on symbol) w in
    elim (Bool-cases (any on chain)) [
      | inl t ↦ inl (answer ∙ ap some t, decides.0 t)
      | inr f ↦ inr (answer ∙ ap some f, λ i. let t = decides.1 i in ground arith)
    ]
