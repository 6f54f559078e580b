-- ===== src/Taxonomy/Offers.antt =====
-- The candidates that picks name, in `_accept_picks` of src/patsquire_plr/landscape/taxonomy.py.
use patent_landscapes.Base.{
  ◌≡◌, sym, ap, ◌∙◌, ◌⊎◌, inl, inr, true, false, Option, none, some, List, [], ◌∷◌, ◌++◌, arith,
  Bool-cases, nat_eq, any, IsIn, if◌then◌else◌,
}
use patent_landscapes.Base.Text.{Text, Unicode, text_eq, text_beq_iff, strip}
use patent_landscapes.Base.Dict.{get, put, get-put}
use patent_landscapes.Taxonomy.Spec.{ResolvedCpc, resolved_beq}
use patent_landscapes.Taxonomy.Pick.{resolved_by_symbol}

-- The candidate that a pick names.
abbrev pub offer : Unicode → List ResolvedCpc → Text → Option ResolvedCpc
offer u candidates pick = get (strip u pick) (resolved_by_symbol [] candidates)

abbrev pub with_offer : Option ResolvedCpc → List ResolvedCpc → List ResolvedCpc
with_offer none cs = cs
with_offer (some c) cs = c ∷ cs

-- The candidates that picks name, in the order of the picks.
abbrev pub offers : Unicode → List ResolvedCpc → List Text → List ResolvedCpc
offers u candidates [] = []
offers u candidates (pick ∷ picks) =
    with_offer (offer u candidates pick) (offers u candidates picks)

-- Those that were not seen, at their first place.
abbrev pub once : List ResolvedCpc → List ResolvedCpc → List ResolvedCpc
once seen [] = []
once seen (c ∷ cs) =
    if any (resolved_beq c) seen then once seen cs else c ∷ once (seen ++ (c ∷ [])) cs

-- A candidate that the pick names.
abbrev pub IsNamedBy : Unicode → List ResolvedCpc → Text → ResolvedCpc → Type 0
IsNamedBy u candidates pick c = IsIn c candidates × (c.symbol ≡ strip u pick)

get-offered :
    (k : Text) (c : ResolvedCpc) (d : List (Text × ResolvedCpc)) (cs : List ResolvedCpc)
    → get k (resolved_by_symbol d cs) ≡ some c
    → (get k d ≡ some c) ⊎ IsIn c cs
unfolding resolved_by_symbol
get-offered k c d [] g = inl g
get-offered k c d (x ∷ cs) g = elim (get-offered k c (put x.symbol x d) cs g) [
  | inl before ↦ elim (Bool-cases (text_eq.beq x.symbol k)) [
    | inl s ↦ let same : x ≡ c = ground (arith, get-put x.symbol k x d) in inr (inl (sym same))
    | inr s ↦ inl (ground (arith, get-put x.symbol k x d))
  ]
  | inr i ↦ inr (inr i)
]

-- A dictionary of candidates by their symbols.
abbrev IsKeyed : List (Text × ResolvedCpc) → Type 0
IsKeyed d = (k : Text) (c : ResolvedCpc) → get k d ≡ some c → c.symbol ≡ k

put-IsKeyed :
    (x : ResolvedCpc) (d : List (Text × ResolvedCpc)) → IsKeyed d → IsKeyed (put x.symbol x d)
put-IsKeyed x d h k c g = elim (Bool-cases (text_eq.beq x.symbol k)) [
  | inl s ↦
      let same : x ≡ c = ground (arith, get-put x.symbol k x d) in
      sym (ap (λ (y : ResolvedCpc). y.symbol) same) ∙ (text_eq.beq_iff x.symbol k).0 s
  | inr s ↦ h k c (ground (arith, get-put x.symbol k x d))
]

get-symbol :
    (d : List (Text × ResolvedCpc)) (cs : List ResolvedCpc)
    → IsKeyed d
    → IsKeyed (resolved_by_symbol d cs)
unfolding resolved_by_symbol
get-symbol d [] h = h
get-symbol d (x ∷ cs) h = get-symbol (put x.symbol x d) cs (put-IsKeyed x d h)

-- A symbol that is not found is of no candidate.
pub get-absent :
    (k : Text) (d : List (Text × ResolvedCpc)) (cs : List ResolvedCpc)
    → get k (resolved_by_symbol d cs) ≡ none
    → (get k d ≡ none) × ((c : ResolvedCpc) → IsIn c cs → ¬ (c.symbol ≡ k))
unfolding resolved_by_symbol
get-absent k d [] g = (g, λ c i. absurd i)
get-absent k d (x ∷ cs) g =
    let (before, others) = get-absent k (put x.symbol x d) cs g in
    elim (Bool-cases (text_eq.beq x.symbol k)) [
      | inl s ↦ absurd (ground (arith, get-put x.symbol k x d))
      | inr s ↦ (
        ground (arith, get-put x.symbol k x d),
        λ c i same. elim i [
          | inl q ↦
              let t =
                (text_eq.beq_iff x.symbol k).1
                  (ap (λ (y : ResolvedCpc). y.symbol) (sym q) ∙ same) in
              ground arith
          | inr j ↦ others c j same
        ],
      )
    ]

pub named-offer :
    (u : Unicode) (candidates : List ResolvedCpc) (pick : Text) (c : ResolvedCpc)
    → offer u candidates pick ≡ some c
    → IsNamedBy u candidates pick c
unfolding get
named-offer u candidates pick c g = (
  elim (get-offered (strip u pick) c [] candidates g) [ inl q ↦ cc | inr i ↦ i ],
  get-symbol [] candidates (λ k d e. cc) (strip u pick) c g,
)

pub any-resolved :
    (c : ResolvedCpc) (cs : List ResolvedCpc) → any (resolved_beq c) cs ≡ false → ¬ IsIn c cs
any-resolved c [] h = λ i. i
any-resolved c (x ∷ cs) h = elim [
  | inl same ↦
      let refl_symbol =
        (text_beq_iff c.symbol x.symbol).1 (ap (λ (y : ResolvedCpc). y.symbol) same) in
      let refl_title =
        (text_beq_iff c.title_path x.title_path).1 (ap (λ (y : ResolvedCpc). y.title_path) same) in
      ground arith
  | inr i ↦ any-resolved c cs (ground arith) i
]

resolved_same : (a b : ResolvedCpc) → resolved_beq a b ≡ true → a ≡ b
resolved_same a b h =
    let symbols : a.symbol ≡ b.symbol = (text_beq_iff a.symbol b.symbol).0 (ground arith) in
    let titles : a.title_path ≡ b.title_path =
      (text_beq_iff a.title_path b.title_path).0 (ground arith) in
    cc

pub resolved-any :
    (c : ResolvedCpc) (cs : List ResolvedCpc) → any (resolved_beq c) cs ≡ true → IsIn c cs
resolved-any c [] h = cc
resolved-any c (x ∷ cs) h = elim (Bool-cases (resolved_beq c x)) [
  | inl t ↦ inl (resolved_same c x t)
  | inr f ↦ inr (resolved-any c cs (ground arith))
]
