-- ===== src/Cpc/Below.antt =====
-- What stands below a symbol in a scheme that was read, in src/patsquire_plr/classification/cpc.py:
-- the children of the symbol, and theirs.
use patent_landscapes.Base.{
  ◌<◌, ◌≡◌, sym, ap, ◌∙◌, subst, inl, inr, some, arith, Bool-cases, nat_eq, IsIn,
}
use mathlib.Core.Option.{some-injective}
use patent_landscapes.Base.Text.{Text, text_eq}
use patent_landscapes.Base.Dict.{get}
use patent_landscapes.Cpc.Scheme.{CpcEntry, CpcScheme, parent_entry, depth}
use patent_landscapes.Cpc.Paths.{IsWithin, itself, inside, parent_entry_lem}
use patent_landscapes.Cpc.Children.{IsTree, kids}

pub data IsUnder (s : CpcScheme) (symbol : Text) : Text → Type 0 where
  child : (x : Text) → IsIn x (kids s symbol) → IsUnder s symbol x
  deeper : (y x : Text) → IsUnder s symbol y → IsIn x (kids s y) → IsUnder s symbol x

module _ (s : CpcScheme) (tree : IsTree s) (symbol : Text) where
  pub one_parent : (x c d : Text) → IsIn x (kids s c) → IsIn x (kids s d) → c ≡ d
  one_parent x c d i j =
      let (e, g, p) = (tree.child c x).0 i in
      let (f, k, q) = (tree.child d x).0 j in
      some-injective _ _
        (sym p ∙ (ap (λ (y : CpcEntry). y.parent) (some-injective _ _ (sym g ∙ k)) ∙ q))

  -- What is under the symbol is listed, deeper than the symbol.
  pub under-deep :
      (x : Text)
      → IsUnder s symbol x
      → (e : CpcEntry) × (a : CpcEntry) × (get x s.entries ≡ some e)
        × (get symbol s.entries ≡ some a)
        × (depth a < depth e)
  under-deep x (child _ i) =
      let (e, g, p) = (tree.child symbol x).0 i in
      let (a, up, at, less) = tree.parent_above x symbol e g p in (e, a, g, at, less)
  under-deep x (deeper y _ u i) =
      let (e, g, p) = (tree.child y x).0 i in
      let (b, up, at, less) = tree.parent_above x y e g p in
      let (f, a, k, top, more) = under-deep y u in
      let same : depth b ≡ depth f = ap depth (some-injective _ _ (sym at ∙ k)) in
      (e, a, g, top, omega arith)

  pub not-IsUnder_itself : ¬ IsUnder s symbol symbol
  not-IsUnder_itself u =
      let (e, a, g, at, less) = under-deep symbol u in
      let same : depth a ≡ depth e = ap depth (some-injective _ _ (sym at ∙ g)) in
      absurd (omega arith)

  pub under-IsWithin :
      (x : Text) (e : CpcEntry)
      → get x s.entries ≡ some e
      → IsUnder s symbol x
      → IsWithin s symbol e
  under-IsWithin x e g (child _ i) =
      let (f, k, p) = (tree.child symbol x).0 i in
      let (a, up, at, less) = tree.parent_above x symbol f k p in
      let same : f ≡ e = some-injective _ _ (sym k ∙ g) in
      subst (IsWithin s symbol) same (
        inside f a (subst (λ o. parent_entry s o ≡ some a) (sym p) up)
          (itself a (tree.named symbol a at)))
  under-IsWithin x e g (deeper y _ u i) =
      let (f, k, p) = (tree.child y x).0 i in
      let (a, up, at, less) = tree.parent_above x y f k p in
      let same : f ≡ e = some-injective _ _ (sym k ∙ g) in
      let above = under-IsWithin y a at u in
      subst (IsWithin s symbol) same
        (inside f a (subst (λ o. parent_entry s o ≡ some a) (sym p) up) above)

  pub within-IsUnder :
      (x : Text) (e : CpcEntry)
      → get x s.entries ≡ some e
      → IsWithin s symbol e
      → ¬ (x ≡ symbol)
      → IsUnder s symbol x
  within-IsUnder x e g (itself _ q) n = absurd (n (sym (tree.named x e g) ∙ q))
  within-IsUnder x e g (inside _ a p w) n =
      let (c, q, at) = parent_entry_lem s e a p in
      let i = (tree.child c x).1 (e, g, q) in
      let above = within-IsUnder c a at w in
      elim (Bool-cases (text_eq.beq c symbol)) [
        | inl t ↦ child x (subst (λ d. IsIn x (kids s d)) ((text_eq.beq_iff c symbol).0 t) i)
        | inr f ↦
            deeper c x (above (λ same. let t = (text_eq.beq_iff c symbol).1 same in ground arith)) i
      ]
