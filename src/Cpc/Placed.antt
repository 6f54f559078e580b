-- ===== src/Cpc/Placed.antt =====
-- Where `_entry` of src/patsquire_plr/classification/cpc.py places an entry: its parent is a prefix
-- above group level, or a group that the file lists before it, one dot level up.
use patent_landscapes.Base.Int.{pos, negsuc, ℤ}
use patent_landscapes.Base.{
  ap, Option, length-take, take, Bool-cases, true, refl, ℕ, zero, suc, ◌+◌, ◌≤◌, ◌<◌, ◌≡◌, subst,
  ◌⊎◌, inl, inr, none, some, List, [], ◌∷◌, ◌++◌, arith, Option-cases, nat_eq, length, get_elem?,
  IsIn, length-append,
}
use patent_landscapes.Base.Text.{Text, Unicode, text_eq}
use patent_landscapes.Base.Number.{int_of, is_digits, str, value_from}
use patent_landscapes.Base.Result.{Result-cases, ok}
use patent_landscapes.Cpc.Code.{
  is_section, is_subclass, is_class, normalize_classification_code, match_code, without_space,
}
use patent_landscapes.Cpc.Scheme.{
  or_zero, section, class, subclass, main_group, subgroup, CpcEntry, depth,
}
use patent_landscapes.Cpc.Titles.{
  make_entry, entry, group_entry, subgroup_under, entry_above_groups,
}

-- Only groups have a dot level.
pub data IsShaped (e : CpcEntry) : Type 0 where
  high : e.dot_level ≡ none → IsShaped e
  low : 5 ≤ length e.symbol → IsShaped e

pub data IsBelow (es : List CpcEntry) (e : CpcEntry) : Type 0 where
  top : e.parent ≡ none → IsBelow es e
  prefix :
      (p : Text)
      → e.parent ≡ some p
      → 1 ≤ length p
      → length p < 5
      → length p < length e.symbol
      → IsBelow es e
  under :
      (a : CpcEntry)
      → IsIn a es
      → 1 ≤ length a.symbol
      → e.parent ≡ some a.symbol
      → depth a < depth e
      → IsBelow es e

-- The open groups from dot level n on, each listed.
abbrev pub IsStack : ℕ → List CpcEntry → List CpcEntry → Type 0
IsStack n es [] = Unit
IsStack n es (g ∷ gs) =
    ((g.dot_level ≡ some n) × (5 ≤ length g.symbol) × IsIn g es) × IsStack (suc n) es gs

-- What `_entry` returns on a stack.
abbrev pub IsPlaced : List CpcEntry → List CpcEntry → CpcEntry → Type 0
IsPlaced es stack e =
    IsShaped e
    × IsBelow es e
    × ((e.dot_level ≡ none)
        ⊎ ((level : ℕ) × (e.dot_level ≡ some level)
            × (5 ≤ length e.symbol)
            × (level ≤ length stack)))

length-head :
    (u : Unicode) (s head group digits : Text)
    → match_code u s ≡ some (head, group, digits)
    → length head ≡ 4
unfolding match_code
length-head u [] head group digits h = cc
length-head u (s ∷ []) head group digits h = cc
length-head u (s ∷ a ∷ []) head group digits h = cc
length-head u (s ∷ a ∷ b ∷ []) head group digits h = cc
length-head u (s ∷ a ∷ b ∷ l ∷ rest) head group digits h = ground arith

length-normalize :
    (u : Unicode) (raw c : Text) → normalize_classification_code u raw ≡ ok c → 5 ≤ length c
unfolding normalize_classification_code
length-normalize u raw c h = elim (Option-cases (match_code u (without_space u raw))) [
  | inl e ↦ ground arith
  | inr ((head, group, digits), e) ↦
      let four = length-head u (without_space u raw) head group digits e in
      let tail = b'/' ∷ digits in
      ground (
        arith,
        length-append {0} head (str (value_from u 0 group) ++ tail),
        length-append {0} (str (value_from u 0 group)) tail,
      )
]

get-IsStack :
    (n i m : ℕ) (es stack : List CpcEntry) (g : CpcEntry)
    → IsStack n es stack
    → i + n ≡ m
    → get_elem? stack i ≡ some g
    → (g.dot_level ≡ some m) × (5 ≤ length g.symbol) × IsIn g es × (suc i ≤ length stack)
get-IsStack n i m es [] g h s e = cc
get-IsStack n zero m es (x ∷ stack) g h s e =
    let same : x ≡ g = ground arith in
    let level : x.dot_level ≡ some m = ground arith in
    subst
      (λ (y : CpcEntry).
        (y.dot_level ≡ some m) × (5 ≤ length y.symbol) × IsIn y es × (1 ≤ suc (length stack)))
      same (level, h.0.1, h.0.2, omega arith)
get-IsStack n (suc i) m es (x ∷ stack) g h s e =
    let (level, long, listed, within) = get-IsStack (suc n) i m es stack g h.1 (omega arith) e in
    (level, long, listed, omega arith)

length-class : (u : Unicode) (s : Text) → is_class u s ≡ true → length s ≡ 3
length-class u [] h = cc
length-class u (a ∷ []) h = cc
length-class u (a ∷ b ∷ []) h = cc
length-class u (a ∷ b ∷ c ∷ []) h = refl
length-class u (a ∷ b ∷ c ∷ d ∷ s) h = cc

length-subclass : (u : Unicode) (s : Text) → is_subclass u s ≡ true → length s ≡ 4
length-subclass u [] h = cc
length-subclass u (a ∷ []) h = cc
length-subclass u (a ∷ b ∷ []) h = cc
length-subclass u (a ∷ b ∷ c ∷ []) h = cc
length-subclass u (a ∷ b ∷ c ∷ d ∷ []) h = refl
length-subclass u (a ∷ b ∷ c ∷ d ∷ e ∷ s) h = cc

prefix-IsPlaced :
    (es stack : List CpcEntry) (e : CpcEntry) (n : ℕ)
    → e.dot_level ≡ none
    → e.parent ≡ some (take n e.symbol)
    → 1 ≤ n
    → n < 5
    → n < length e.symbol
    → IsPlaced es stack e
prefix-IsPlaced es stack e n level parent some_ small short =
    let count = length-take n e.symbol in
    (
      high level,
      prefix (take n e.symbol) parent (omega arith) (omega arith) (omega arith),
      inl level,
    )

above_groups-IsPlaced :
    (u : Unicode) (n : ℕ) (symbol title : Text) (es stack : List CpcEntry) (e : CpcEntry)
    → entry_above_groups u n symbol title ≡ ok e
    → IsPlaced es stack e
unfolding entry_above_groups
above_groups-IsPlaced u n symbol title es stack e h = elim (Bool-cases (is_section symbol)) [
  | inl s ↦
      let same : make_entry symbol section none title none ≡ e = ground arith in
      subst (IsPlaced es stack) same (high refl, top refl, inl refl)
  | inr s ↦ elim (Bool-cases (is_class u symbol)) [
    | inl c ↦
        let same : make_entry symbol class none title (some (take 1 symbol)) ≡ e = ground arith in
        subst (IsPlaced es stack) same (
          prefix-IsPlaced es stack _ 1 refl refl (omega arith) (omega arith)
            (omega (arith, length-class u symbol c)))
    | inr c ↦ elim (Bool-cases (is_subclass u symbol)) [
      | inl b ↦
          let same : make_entry symbol subclass none title (some (take 3 symbol)) ≡ e =
            ground arith in
          subst (IsPlaced es stack) same (
            prefix-IsPlaced es stack _ 3 refl refl (omega arith) (omega arith)
              (omega (arith, length-subclass u symbol b)))
      | inr b ↦ ground arith
    ]
  ]
]

subgroup-IsPlaced :
    (u : Unicode) (n above : ℕ) (symbol title : Text) (es stack : List CpcEntry) (e : CpcEntry)
    → 5 ≤ length symbol
    → IsStack 0 es stack
    → subgroup_under u n above symbol title (get_elem? stack above) ≡ ok e
    → IsPlaced es stack e
unfolding depth
subgroup-IsPlaced u n above symbol title es stack e long open_groups h =
    elim (Option-cases (get_elem? stack above)) [
      | inl q ↦ ground arith
      | inr (p, q) ↦
          let (level, p_long, listed, within) =
            get-IsStack 0 above above es stack p open_groups (omega arith) q in
          let same : make_entry symbol subgroup (some (suc above)) title (some p.symbol) ≡ e =
            ground arith in
          let zero_level : or_zero p.dot_level ≡ above = ap or_zero level in
          subst (IsPlaced es stack) same (
            low long,
            under p listed (omega arith) refl (omega arith),
            inr (suc above, refl, long, within),
          )
    ]

group-IsPlaced :
    (u : Unicode) (n : ℕ) (symbol title : Text) (es stack : List CpcEntry) (e : CpcEntry)
    (level : Option ℤ)
    → 5 ≤ length symbol
    → IsStack 0 es stack
    → group_entry u n symbol title stack level ≡ ok e
    → IsPlaced es stack e
unfolding group_entry
group-IsPlaced u n symbol title es stack e none long open_groups h = cc
group-IsPlaced u n symbol title es stack e (some (negsuc k)) long open_groups h = cc
group-IsPlaced u n symbol title es stack e (some (pos zero)) long open_groups h =
    let same : make_entry symbol main_group (some 0) title (some (take 4 symbol)) ≡ e =
      ground arith in
    subst (IsPlaced es stack) same (
      low long,
      prefix (take 4 symbol) refl (omega (arith, length-take 4 symbol))
          (omega (arith, length-take 4 symbol)) (omega (arith, length-take 4 symbol)),
      inr (0, refl, long, omega arith),
    )
group-IsPlaced u n symbol title es stack e (some (pos (suc above))) long open_groups h =
    subgroup-IsPlaced u n above symbol title es stack e long open_groups h

pub entry-IsPlaced :
    (u : Unicode) (n : ℕ) (symbol level title : Text) (es stack : List CpcEntry) (e : CpcEntry)
    → IsStack 0 es stack
    → entry u n symbol level title stack ≡ ok e
    → IsPlaced es stack e
unfolding entry
entry-IsPlaced u n symbol [] title es stack e open_groups h =
    above_groups-IsPlaced u n symbol title es stack e h
entry-IsPlaced u n symbol (c ∷ level) title es stack e open_groups h =
    elim (Bool-cases (is_digits u (c ∷ level))) [
      | inr d ↦ ground arith
      | inl d ↦ elim (Result-cases (normalize_classification_code u symbol)) [
        | inr (x, r) ↦ ground arith
        | inl (normal, r) ↦ elim (Bool-cases (text_eq.beq normal symbol)) [
          | inr b ↦ ground arith
          | inl b ↦
              let same : normal ≡ symbol = (text_eq.beq_iff normal symbol).0 b in
              group-IsPlaced u n symbol title es stack e (int_of u (c ∷ level))
                (subst (λ (t : Text). 5 ≤ length t) same (length-normalize u symbol normal r))
                open_groups (ground arith)
        ]
      ]
    ]
