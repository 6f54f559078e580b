-- ===== src/Cpc/Listed.antt =====
-- What the loops of `parse_title_list` in src/patsquire_plr/classification/cpc.py keep true: the open
-- groups are listed, each one dot level below the one before, and every entry listed is placed.
use patent_landscapes.Base.{
  IsIn-left, Option, sym, ℕ, zero, suc, ◌+◌, ◌≤◌, ◌≡◌, refl, subst, ◌⊎◌, inl, inr, some, List, [],
  ◌∷◌, ◌++◌, arith, nat_eq, length, take, All, IsIn, All-append, All-map,
}
use patent_landscapes.Base.Text.{Text, Unicode, strip}
use patent_landscapes.Base.Result.{ok, ◌>>=◌, Result-cases}
use patent_landscapes.Cpc.Scheme.{CpcEntry, CpcScheme, make_scheme}
use patent_landscapes.Cpc.Placed.{
  IsShaped, IsBelow, top, prefix, under, IsStack, IsPlaced, entry-IsPlaced,
}
use patent_landscapes.Cpc.Titles.{
  entry, Reading, add_entry, open_group, open_at, read_columns, read_line, read_lines,
  parse_section, parse_files, parse_title_list, splitlines, split_tabs, Archive, one_date,
  file_dates, version_of,
}
use patent_landscapes.Base.Sort.{sorted}
use patent_landscapes.Base.Text.{text_le}

-- Every entry is shaped and has its parent above it.
abbrev pub AllPlaced : List CpcEntry → Type 0
AllPlaced es = All (λ e. IsShaped e × IsBelow es e) es

abbrev IsRead : Reading → Type 0
IsRead r = IsStack 0 r.entries r.stack × AllPlaced r.entries

IsIn-last : (a : CpcEntry) (xs : List CpcEntry) → IsIn a (xs ++ (a ∷ []))
IsIn-last a [] = inl refl
IsIn-last a (x ∷ xs) = inr (IsIn-last a xs)

IsBelow-left : (es more : List CpcEntry) (e : CpcEntry) → IsBelow es e → IsBelow (es ++ more) e
IsBelow-left es more e (top p) = top p
IsBelow-left es more e (prefix p q n s l) = prefix p q n s l
IsBelow-left es more e (under a i n q d) = under a (IsIn-left a es more i) n q d

IsStack-left :
    (n : ℕ) (es more stack : List CpcEntry) → IsStack n es stack → IsStack n (es ++ more) stack
IsStack-left n es more [] h = h
IsStack-left n es more (g ∷ gs) h =
    ((h.0.0, h.0.1, IsIn-left g es more h.0.2), IsStack-left (suc n) es more gs h.1)

-- Closing the groups from a level on and opening one at that level.
IsStack-take :
    (n level m : ℕ) (es stack : List CpcEntry) (e : CpcEntry)
    → IsStack n es stack
    → level ≤ length stack
    → level + n ≡ m
    → e.dot_level ≡ some m
    → 5 ≤ length e.symbol
    → IsIn e es
    → IsStack n es (take level stack ++ (e ∷ []))
IsStack-take n zero m es stack e h l s d long i =
    ((subst (λ (k : ℕ). e.dot_level ≡ some k) (omega arith) d, long, i), tt)
IsStack-take n (suc level) m es [] e h l s d long i = absurd (omega arith)
IsStack-take n (suc level) m es (g ∷ gs) e h l s d long i =
    (h.0, IsStack-take (suc n) level m es gs e h.1 (omega arith) (omega arith) d long i)

add_entry-IsRead :
    (r : Reading) (e : CpcEntry) → IsRead r → IsPlaced r.entries r.stack e → IsRead (add_entry r e)
unfolding add_entry open_group
add_entry-IsRead r e h (shaped, below, level) =
    let more : List CpcEntry = e ∷ [] in
    let listed : AllPlaced (r.entries ++ more) =
      All-append (λ x. IsShaped x × IsBelow (r.entries ++ more) x) r.entries more
        (All-map (λ x p. (p.0, IsBelow-left r.entries more x p.1)) r.entries h.1)
        ((shaped, IsBelow-left r.entries more e below), tt) in
    let opened = λ (o : Option ℕ). IsStack 0 (r.entries ++ more) (open_at o e r.stack) in
    elim level [
      | inl q ↦ (subst opened (sym q) tt, listed)
      | inr (n, q, long, within) ↦ (
        subst opened (sym q) (
            IsStack-take 0 n n (r.entries ++ more) r.stack e
              (IsStack-left 0 r.entries more r.stack h.0) within (omega arith) q long
              (IsIn-last e r.entries)),
        listed,
      )
    ]

add_new-IsRead :
    (u : Unicode) (n : ℕ) (r s : Reading) (symbol level title : Text)
    → IsRead r
    → (entry u n symbol level title r.stack >>= λ e. ok (add_entry r e)) ≡ ok s
    → IsRead s
add_new-IsRead u n r s symbol level title h k =
    elim (Result-cases (entry u n symbol level title r.stack)) [
      | inr (x, q) ↦ ground arith
      | inl (e, q) ↦
          let same : add_entry r e ≡ s = ground arith in
          subst IsRead same (
            add_entry-IsRead r e h
              (entry-IsPlaced u n symbol level title r.entries r.stack e h.0 q))
    ]

columns-IsRead :
    (u : Unicode) (n : ℕ) (r s : Reading) (columns : List Text)
    → IsRead r
    → read_columns u n r columns ≡ ok s
    → IsRead s
unfolding read_columns
columns-IsRead u n r s [] h k = cc
columns-IsRead u n r s ([] ∷ ts) h k = cc
columns-IsRead u n r s ((c ∷ symbol) ∷ []) h k = cc
columns-IsRead u n r s ((c ∷ symbol) ∷ level ∷ []) h k = cc
columns-IsRead u n r s ((c ∷ symbol) ∷ level ∷ [] ∷ ts) h k = cc
columns-IsRead u n r s ((c ∷ symbol) ∷ level ∷ (t ∷ title) ∷ x ∷ ts) h k = cc
columns-IsRead u n r s ((c ∷ symbol) ∷ level ∷ (t ∷ title) ∷ []) h k =
    add_new-IsRead u n r s (c ∷ symbol) level (t ∷ title) h k

line-IsRead :
    (u : Unicode) (n : ℕ) (r s : Reading) (line : Text)
    → IsRead r
    → read_line u n r line ≡ ok s
    → IsRead s
unfolding read_line
line-IsRead u n r s line h k = elim (List-cases (strip u line)) [
  | inl e ↦ let same : r ≡ s = ground arith in subst IsRead same h
  | inr (c, t, e) ↦ columns-IsRead u n r s (split_tabs line) h (ground arith)
]
  where
    List-cases : (t : Text) → (t ≡ []) ⊎ ((c : ℕ) × (s : Text) × (t ≡ c ∷ s))
    List-cases [] = inl refl
    List-cases (c ∷ s) = inr (c, s, refl)

lines-IsRead :
    (u : Unicode) (n : ℕ) (r s : Reading) (lines : List Text)
    → IsRead r
    → read_lines u n r lines ≡ ok s
    → IsRead s
unfolding read_lines
lines-IsRead u n r s [] h k = let same : r ≡ s = ground arith in subst IsRead same h
lines-IsRead u n r s (line ∷ lines) h k = elim (Result-cases (read_line u n r line)) [
  | inr (x, q) ↦ ground arith
  | inl (t, q) ↦ lines-IsRead u (suc n) t s lines (line-IsRead u n r t line h q) (ground arith)
]

section-AllPlaced :
    (u : Unicode) (es more : List CpcEntry) (content : Text)
    → AllPlaced es
    → parse_section u es content ≡ ok more
    → AllPlaced more
unfolding parse_section
section-AllPlaced u es more content h k =
    let start : Reading = record { stack = []; entries = es } in
    elim (Result-cases (read_lines u 1 start (splitlines content))) [
      | inr (x, q) ↦ ground arith
      | inl (t, q) ↦
          let same : t.entries ≡ more = ground arith in
          subst AllPlaced same (lines-IsRead u 1 start t (splitlines content) (tt, h) q).1
    ]

files-AllPlaced :
    (u : Unicode) (archive : Archive) (es more : List CpcEntry) (names : List Text)
    → AllPlaced es
    → parse_files u archive es names ≡ ok more
    → AllPlaced more
unfolding parse_files
files-AllPlaced u archive es more [] h k =
    let same : es ≡ more = ground arith in subst AllPlaced same h
files-AllPlaced u archive es more (name ∷ names) h k =
    elim (Result-cases (parse_section u es (archive.read name))) [
      | inr (x, q) ↦ ground arith
      | inl (t, q) ↦
          files-AllPlaced u archive t more names (section-AllPlaced u es t (archive.read name) h q)
            (ground arith)
    ]

-- A title list that is read gives its scheme a list of placed entries.
pub title_list-AllPlaced :
    (u : Unicode) (archive : Archive) (s : CpcScheme)
    → parse_title_list u (some archive) ≡ ok s
    → (version : Text) × (es : List CpcEntry) × AllPlaced es × (make_scheme version es ≡ ok s)
unfolding parse_title_list
title_list-AllPlaced u archive s h =
    let names = sorted text_le archive.namelist in
    elim (Result-cases (one_date (file_dates u names))) [
      | inr (x, q) ↦ ground arith
      | inl (stamp, q) ↦ elim (Result-cases (parse_files u archive [] names)) [
        | inr (x, p) ↦ ground arith
        | inl (es, p) ↦
            (version_of stamp, es, files-AllPlaced u archive [] es names tt p, ground arith)
      ]
    ]
