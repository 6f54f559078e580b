-- ===== src/Cpc/Children.antt =====
-- The symbols below each of a scheme that was read, in src/patsquire_plr/classification/cpc.py: the
-- children that the constructor lists are those whose entries name the parent, each once.
use patent_landscapes.Base.{
  ◌+◌, ◌≤◌, ◌<◌, ◌≡◌, refl, sym, ap, ◌∙◌, subst, ◌↔◌, inl, inr, Bool, true, false, Option, none,
  some, List, [], ◌∷◌, ◌++◌, append-nil, append_assoc, arith, ◌==◌, Bool-cases, Option-cases,
  nat_eq, length, filter, IsIn, All-IsIn, IsIn-filter, filter-IsIn, keep_if, IsIn-map,
}
use mathlib.Core.Option.{some-injective}
use patent_landscapes.Base.Text.{Text, Unicode, text_eq}
use patent_landscapes.Base.Dict.{get, get-put}
use patent_landscapes.Base.Pigeon.{AllApart}
use patent_landscapes.Base.Result.{ok}
use patent_landscapes.Cpc.Scheme.{
  CpcEntry, CpcScheme, make_scheme, without_orphans, by_symbol, is_orphan, or_no_symbols, add_child,
  children_of, symbols_of, parent_entry, depth,
}
use patent_landscapes.Cpc.Placed.{IsShaped, IsBelow, top, prefix, under}
use patent_landscapes.Cpc.Listed.{AllPlaced, title_list-AllPlaced}
use patent_landscapes.Cpc.Entries.{get-IsIn}
use patent_landscapes.Cpc.Paths.{made_lem, made-IsRising, get-listed}
use patent_landscapes.Cpc.Titles.{Archive, parse_title_list}
use patent_landscapes.Cpc.Apart.{unmap, symbols-AllApart, AllApart-filter}

abbrev parent_is : Text → Option Text → Bool
parent_is c none = false
parent_is c (some p) = text_eq.beq p c

abbrev has_parent : Text → CpcEntry → Bool
has_parent c e = parent_is c e.parent

parent_is_lem : (c : Text) (o : Option Text) → parent_is c o ≡ true → o ≡ some c
parent_is_lem c none h = cc
parent_is_lem c (some p) h = ap some ((text_eq.beq_iff p c).0 h)

-- The symbols below a symbol.
abbrev pub kids : CpcScheme → Text → List Text
kids s c = or_no_symbols (get c s.children)

add_child-get :
    (c : Text) (symbol : Text) (o : Option Text) (e : CpcEntry) (d : List (Text × List Text))
    → e.parent ≡ o
    → or_no_symbols (get c (add_child e d))
      ≡ or_no_symbols (get c d) ++ symbols_of (keep_if (parent_is c o) e [])
unfolding add_child
add_child-get c symbol none e d q = rw q (sym (append-nil (or_no_symbols (get c d))))
add_child-get c symbol (some p) e d q = elim (Bool-cases (text_eq.beq p c)) [
  | inl t ↦
      let same : p ≡ c = (text_eq.beq_iff p c).0 t in
      ground (arith, get-put p c (or_no_symbols (get p d) ++ (e.symbol ∷ [])) d)
  | inr f ↦ ground (
    arith,
    get-put p c (or_no_symbols (get p d) ++ (e.symbol ∷ [])) d,
    append-nil (or_no_symbols (get c d)),
  )
]

children_lem :
    (c : Text) (d : List (Text × List Text)) (es : List CpcEntry)
    → or_no_symbols (get c (children_of d es))
      ≡ or_no_symbols (get c d) ++ symbols_of (filter (has_parent c) es)
unfolding children_of
children_lem c d [] = sym (append-nil (or_no_symbols (get c d)))
children_lem c d (e ∷ es) =
    let rest = symbols_of (filter (has_parent c) es) in
    children_lem c (add_child e d) es
    ∙ (ap (λ t. t ++ rest) (add_child-get c e.symbol e.parent e d refl)
        ∙ (append_assoc (or_no_symbols (get c d)) (symbols_of (keep_if (has_parent c e) e [])) rest
            ∙ ap (λ t. or_no_symbols (get c d) ++ t) (one (has_parent c e))))
  where
    one :
        (b : Bool)
        → symbols_of (keep_if b e []) ++ symbols_of (filter (has_parent c) es)
          ≡ symbols_of (keep_if b e (filter (has_parent c) es))
    one true = refl
    one false = refl

made_children_lem :
    (version : Text) (es : List CpcEntry) (s : CpcScheme)
    → make_scheme version es ≡ ok s
    → (s.children ≡ children_of [] es) × (filter (is_orphan (by_symbol [] es)) es ≡ [])
unfolding make_scheme
made_children_lem version es s h = elim (Bool-cases (length (by_symbol [] es) == length es)) [
  | inr e ↦ ground arith
  | inl e ↦ from_orphans (filter (is_orphan (by_symbol [] es)) es) (ground arith)
]
  where
    from_orphans :
        (os : List CpcEntry)
        → without_orphans version es os ≡ ok s
        → (s.children ≡ children_of [] es) × (os ≡ [])
    from_orphans [] q = (ground arith, refl)
    from_orphans (o ∷ os) q = cc

-- What the children and the parents of a scheme have to do with each other.
pub record IsTree (s : CpcScheme) : Type 0 where
  pub named : (k : Text) (e : CpcEntry) → get k s.entries ≡ some e → e.symbol ≡ k
  pub child :
      (c x : Text)
      → IsIn x (kids s c) ↔ ((e : CpcEntry) × (get x s.entries ≡ some e) × (e.parent ≡ some c))
  pub kids_distinct : (c : Text) → AllApart (kids s c)
  pub parent_above :
      (x c : Text) (e : CpcEntry)
      → get x s.entries ≡ some e
      → e.parent ≡ some c
      → (a : CpcEntry) × (parent_entry s (some c) ≡ some a)
        × (get c s.entries ≡ some a)
        × (depth a < depth e)

orphan_lem :
    (d : List (Text × CpcEntry)) (e : CpcEntry) (o : Option Text) (c : Text)
    → e.parent ≡ o
    → o ≡ some c
    → is_orphan d e ≡ false
    → (a : CpcEntry) × (get c d ≡ some a)
orphan_lem d e o c q r h = elim (Option-cases (get c d)) [
  | inr found ↦ found
  | inl n ↦ absurd (ground arith)
]

parent_entry-nonempty :
    (s : CpcScheme) (c : Text) → 1 ≤ length c → parent_entry s (some c) ≡ get c s.entries
unfolding parent_entry
parent_entry-nonempty s [] h = absurd (omega arith)
parent_entry-nonempty s (x ∷ c) h = refl

below-nonempty :
    (es : List CpcEntry) (e : CpcEntry) (c : Text) → IsBelow es e → e.parent ≡ some c → 1 ≤ length c
below-nonempty es e c (top q) p = cc
below-nonempty es e c (prefix t q n s l) p =
    subst (λ (y : Text). 1 ≤ length y) (some-injective _ _ (sym q ∙ p)) n
below-nonempty es e c (under a i n q d) p =
    subst (λ (y : Text). 1 ≤ length y) (some-injective _ _ (sym q ∙ p)) n

pub made-IsTree :
    (version : Text) (es : List CpcEntry) (s : CpcScheme)
    → AllPlaced es
    → make_scheme version es ≡ ok s
    → IsTree s
unfolding get
made-IsTree version es s placed h =
    let (held, exact) = made_lem version es s h in
    let (below, orphans) = made_children_lem version es s h in
    let rising = made-IsRising version es s placed h in
    let count : length (by_symbol [] es) ≡ 0 + length es = omega arith in
    let listed : (k : Text) (e : CpcEntry) → get k s.entries ≡ some e → IsIn e es × (e.symbol ≡ k) =
      λ k e g. get-listed es k e (subst (λ d. get k d ≡ some e) held g) in
    let all_kids : (c : Text) → kids s c ≡ symbols_of (filter (has_parent c) es) =
      λ c. ap (λ d. or_no_symbols (get c d)) below ∙ children_lem c [] es in
    record {
      named = λ k e g. (listed k e g).1;
      child = λ c x. (
        λ i.
            let (e, j, q) =
              unmap (λ (y : CpcEntry). y.symbol) x (filter (has_parent c) es)
                (subst (IsIn x) (all_kids c) i) in
            let (l, t) = filter-IsIn (has_parent c) e es j in
            (
              e,
              subst (λ d. get x d ≡ some e) (sym held)
                  (subst (λ y. get y (by_symbol [] es) ≡ some e) (sym q)
                    (get-IsIn e [] es count l)),
              parent_is_lem c e.parent t,
            ),
        λ (e, g, p).
            let (l, q) = listed x e g in
            let t : has_parent c e ≡ true =
              subst (λ o. parent_is c o ≡ true) (sym p) ((text_eq.beq_iff c c).1 refl) in
            subst (IsIn x) (sym (all_kids c)) (
              subst (λ y. IsIn y (symbols_of (filter (has_parent c) es))) q
                (IsIn-map (λ (y : CpcEntry). y.symbol) e (filter (has_parent c) es)
                  (IsIn-filter (has_parent c) e es l t))),
      );
      kids_distinct = λ c.
          subst AllApart (sym (all_kids c))
            (AllApart-filter (has_parent c) es (symbols-AllApart [] es count));
      parent_above = λ x c e g p.
          let (l, q) = listed x e g in
          let (a, found) =
            orphan_lem (by_symbol [] es) e e.parent c refl p (no_orphan es e l orphans) in
          let at : get c s.entries ≡ some a = subst (λ d. get c d ≡ some a) (sym held) found in
          let placed_e = All-IsIn (λ y. IsShaped y × IsBelow es y) e es placed l in
          let up = parent_entry-nonempty s c (below-nonempty es e c placed_e.1 p) ∙ at in
          (a, up, at, rising.rises x e a g (subst (λ o. parent_entry s o ≡ some a) (sym p) up));
    }
  where
    no_orphan :
        (es : List CpcEntry) (e : CpcEntry)
        → IsIn e es
        → filter (is_orphan (by_symbol [] es)) es ≡ []
        → is_orphan (by_symbol [] es) e ≡ false
    no_orphan es e l h = elim (Bool-cases (is_orphan (by_symbol [] es) e)) [
      | inr f ↦ f
      | inl t ↦ absurd (subst (IsIn e) h (IsIn-filter (is_orphan (by_symbol [] es)) e es l t))
    ]

-- In a scheme that was read from a title list, the children that are kept for a symbol are the listed
-- codes whose entry has the symbol for its parent, each once, and then the symbol is listed itself,
-- less deep than the child.
pub children_of-listed :
    (u : Unicode) (archive : Archive) (s : CpcScheme) (c x : Text)
    → parse_title_list u (some archive) ≡ ok s
    → (IsIn x (or_no_symbols (get c s.children)) ↔ (
        (e : CpcEntry) × (a : CpcEntry) × (get x s.entries ≡ some e)
        × (e.parent ≡ some c)
        × (get c s.entries ≡ some a)
        × (depth a < depth e)))
      × AllApart (or_no_symbols (get c s.children))
children_of-listed u archive s c x h =
    let (version, es, placed, made) = title_list-AllPlaced u archive s h in
    let tree = made-IsTree version es s placed made in
    (
      (
        λ i.
            let (e, g, p) = (tree.child c x).0 i in
            let (a, up, at, less) = tree.parent_above x c e g p in (e, a, g, p, at, less),
        λ (e, a, g, p, at, less). (tree.child c x).1 (e, g, p),
      ),
      tree.kids_distinct c,
    )
