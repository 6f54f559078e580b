-- ===== src/Clean/Grouping/Components.antt =====
-- What `_group_families` of src/patsquire_plr/clean/dataset.py groups: the components that it makes
-- families of are the classes that the stated evidence links.
use patent_landscapes.Base.{
  length, All-of-IsIn, ◌∙◌, ◌≡◌, refl, sym, ap, subst, ◌↔◌, ◌⊎◌, inl, inr, false, some, List, [],
  ◌∷◌, ◌++◌, arith, Bool-cases, nat_eq, All, IsIn, All-IsIn, All-map, IsIn-left, IsIn-right,
  IsIn-append,
}
use patent_landscapes.Base.Text.{Text, Unicode, text_eq}
use patent_landscapes.Base.Dict.{get, put, get-put}
use patent_landscapes.Clean.Union.{Parents, Step, and_then}
use patent_landscapes.Clean.Union.Forest.{find_root-IsRoot, rank-length, IsRoot, IsRoot-unique}
use patent_landscapes.Clean.Union.Steps.{KeepsRoots, node-get, text-cases}
use patent_landscapes.Clean.Union.Roots.{find_lem}
use patent_landscapes.Clean.Union.Linked.{
  IsLinked, IsFine, transitive, symmetric, steps_lem, empty-IsFine, IsSame-linked, linked-IsSame,
}
use patent_landscapes.Clean.Grouping.Nodes.{evidence-IsNode}
use patent_landscapes.Clean.Copies.{InputDocument}
use patent_landscapes.Clean.Grouping.{
  Components, Evidence, Kinds, with_kind, kinds_or_none, or_none_yet, is_evidence, add_node,
  collect_nodes, node_keys, add_evidence, all_steps, statement_evidence, node_evidence, attachments,
  families_in, in_order, group_families,
}

-- A publication is in the component of a root.
abbrev pub IsMember : Components → Text → Text → Type 0
IsMember c root n = IsIn n (or_none_yet (get root c))

add_node_lem :
    (c : Components) (root m s n : Text)
    → IsMember (add_node root m c) s n ↔ (IsMember c s n ⊎ ((n ≡ m) × (s ≡ root)))
unfolding add_node
add_node_lem c root m s n = elim (text-cases root s) [
  | inl e ↦
      let here : get s (put root (or_none_yet (get root c) ++ (m ∷ [])) c)
          ≡ some (or_none_yet (get s c) ++ (m ∷ [])) =
        subst
          (λ t.
            get t (put root (or_none_yet (get root c) ++ (m ∷ [])) c)
            ≡ some (or_none_yet (get t c) ++ (m ∷ [])))
          e
          (ground (
            arith,
            get-put root root (or_none_yet (get root c) ++ (m ∷ [])) c,
            text_eq.beq_iff root root,
          )) in
      (
        λ i.
            elim (IsIn-append n (or_none_yet (get s c)) (m ∷ [])
              (subst (λ o. IsIn n (or_none_yet o)) here i)) [
                | inl j ↦ inl j
                | inr (inl q) ↦ inr (q, sym e)
                | inr (inr j) ↦ absurd j
              ],
        λ h.
            subst (λ o. IsIn n (or_none_yet o)) (sym here)
              (elim h [
                | inl j ↦ IsIn-left n (or_none_yet (get s c)) (m ∷ []) j
                | inr (q, r) ↦ IsIn-right n (or_none_yet (get s c)) (m ∷ []) (inl q)
              ]),
      )
  | inr d ↦
      let f : text_eq.beq root s ≡ false = elim (Bool-cases (text_eq.beq root s)) [
        | inl t ↦ absurd (d ((text_eq.beq_iff root s).0 t))
        | inr f ↦ f
      ] in
      let other : get s (put root (or_none_yet (get root c) ++ (m ∷ [])) c) ≡ get s c =
        ground (arith, get-put root s (or_none_yet (get root c) ++ (m ∷ [])) c) in
      (
        λ i. inl (subst (λ o. IsIn n (or_none_yet o)) other i),
        λ h. elim h [
          | inl j ↦ subst (λ o. IsIn n (or_none_yet o)) (sym other) j
          | inr (q, r) ↦ absurd (d (sym r))
        ],
      )
]

-- The nodes of a list that have a root.
abbrev HaveRoots : Parents → List Text → Type 0
HaveRoots p ns = All (λ n. (s : Text) × IsRoot p n s) ns

roots-kept :
    (p q : Parents) (n s t : Text) → KeepsRoots p q → IsRoot p n t → IsRoot q n s → IsRoot p n s
roots-kept p q n s t k h i = subst (IsRoot p n) (IsRoot-unique q n t s (k n t h) i) h

module _ (steps : List Step) where
  add_evidence_lem :
      (p : Parents) (d : List (Text × Kinds)) (es : List (Text × Evidence))
      → IsFine steps p
      → All (λ (e : Text × Evidence). IsLinked steps e.0 e.0) es
      → (q : Parents) × (d' : List (Text × Kinds)) × (add_evidence p d es ≡ some (q, d'))
        × IsFine steps q
        × KeepsRoots p q
  unfolding add_evidence
  add_evidence_lem p d [] f h = (p, d, refl, f, λ z s i. i)
  add_evidence_lem p d ((node, kind) ∷ es) f h =
      let (r, p', e, root, f', k) =
        find_lem (IsLinked steps) (transitive steps) (symmetric steps) p node f h.0 in
      let (q, d', e', f'', k') =
        add_evidence_lem p' (put r (with_kind kind (kinds_or_none (get r d))) d) es f' h.1 in
      (q, d', rw e e', f'', λ z s i. k' z s (k z s i))

  -- Each node has been put into the component of its root, and no other has.
  abbrev IsCollected : Parents → Components → Components → List Text → Type 0
  IsCollected p c c' nodes =
      (s n : Text)
      → IsMember c' s n ↔ (IsMember c s n ⊎ (IsIn n nodes × (is_evidence n ≡ false) × IsRoot p n s))

  collect_nodes_lem :
      (p : Parents) (c : Components) (nodes : List Text)
      → IsFine steps p
      → HaveRoots p nodes
      → (q : Parents) × (c' : Components) × (collect_nodes p c nodes ≡ some (q, c'))
        × IsCollected p c c' nodes
  unfolding collect_nodes
  collect_nodes_lem p c [] f h =
      (p, c, refl, λ s n. (λ i. inl i, elim [ inl i ↦ i | inr (i, e, r) ↦ absurd i ]))
  collect_nodes_lem p c (m ∷ nodes) f h = elim (Bool-cases (is_evidence m)) [
    | inl e ↦
        let (q, c', w, member) = collect_nodes_lem p c nodes f h.1 in
        (
          q,
          c',
          rw e w,
          λ s n. (
            λ i. elim ((member s n).0 i) [ inl j ↦ inl j | inr (j, v, r) ↦ inr (inr j, v, r) ],
            λ k. (member s n).1 (elim k [
              | inl j ↦ inl j
              | inr (inl t, v, r) ↦ let same = ap is_evidence t in absurd (ground arith)
              | inr (inr j, v, r) ↦ inr (j, v, r)
            ]),
          ),
        )
    | inr e ↦
        let (t, root_m) = h.0 in
        let linked = IsSame-linked steps p m m f (t, root_m, root_m) in
        let (r, p', w, root, f', k) =
          find_lem (IsLinked steps) (transitive steps) (symmetric steps) p m f linked in
        let here = roots-kept p p' m r t k root_m root in
        let (q, c', w', member) =
          collect_nodes_lem p' (add_node r m c) nodes f'
            (All-map (λ n (s, i). (s, k n s i)) nodes h.1) in
        (
          q,
          c',
          rw e (rw w w'),
          λ s n. (
            λ i. elim ((member s n).0 i) [
              | inl j ↦ elim ((add_node_lem c r m s n).0 j) [
                | inl l ↦ inl l
                | inr (x, y) ↦ inr (
                  inl x,
                  subst (λ a. is_evidence a ≡ false) (sym x) e,
                  subst (λ a. IsRoot p a s) (sym x) (subst (IsRoot p m) (sym y) here),
                )
              ]
              | inr (j, v, l) ↦
                  let (s', had) = All-IsIn (λ a. (b : Text) × IsRoot p a b) n nodes h.1 j in
                  inr (inr j, v, roots-kept p p' n s s' k had l)
            ],
            λ j. (member s n).1 (elim j [
              | inl l ↦ inl ((add_node_lem c r m s n).1 (inl l))
              | inr (inl x, v, l) ↦ inl (
                  (add_node_lem c r m s n).1
                    (inr (x, IsRoot-unique p m s r (subst (λ a. IsRoot p a s) x l) here)))
              | inr (inr y, v, l) ↦ inr (y, v, k n s l)
            ]),
          ),
        )
  ]

node_keys-IsIn : (p : Parents) (x w : Text) → get x p ≡ some w → IsIn x (node_keys p)
unfolding get
node_keys-IsIn [] x w h = cc
node_keys-IsIn ((k, v) ∷ p) x w h = elim (Bool-cases (text_eq.beq k x)) [
  | inl e ↦ inl (sym ((text_eq.beq_iff k x).0 e))
  | inr e ↦ inr (node_keys-IsIn p x w (ground arith))
]

node_keys-get : (p : Parents) (x : Text) → IsIn x (node_keys p) → (w : Text) × (get x p ≡ some w)
unfolding get
node_keys-get [] x i = absurd i
node_keys-get ((k, v) ∷ p) x i = elim (Bool-cases (text_eq.beq k x)) [
  | inl e ↦ (v, rw e refl)
  | inr e ↦ elim i [
    | inl q ↦ let t = (text_eq.beq_iff k x).1 (sym q) in absurd (ground arith)
    | inr j ↦ let (w, g) = node_keys-get p x j in (w, rw e g)
  ]
]

node_keys-HaveRoots : (steps : List Step) (p : Parents) → IsFine steps p → HaveRoots p (node_keys p)
node_keys-HaveRoots steps p f =
    All-of-IsIn (λ n. (s : Text) × IsRoot p n s) (node_keys p)
      (λ n i.
        let (w, g) = node_keys-get p n i in
        let (r, e, root) = find_root-IsRoot p (length p) n w f.0 g (rank-length p n w g) in
        (r, root))

-- Grouping returns, and its families are made of components, each sorted into the publications that
-- are selected and the others: two publications are in one component exactly if the evidence of the
-- selected documents links them, which is the least equivalence that holds of each selected
-- publication and the members that it states, its family identifier and its application.
pub group_families-IsLinked :
    (u : Unicode) (selected : List (Text × InputDocument))
    → (kinds : List (Text × Kinds)) × (c : Components) × (group_families u selected
        ≡ some (in_order (families_in selected kinds c)))
      × ((x y : Text)
          → is_evidence x ≡ false
          → is_evidence y ≡ false
          → ((root : Text) × IsMember c root x × IsMember c root y)
            ↔ IsLinked (all_steps u selected) x y)
unfolding group_families get
group_families-IsLinked u selected =
    let steps = all_steps u selected in
    let (p, e, f, k, done) =
      steps_lem steps [] steps (empty-IsFine steps)
        (All-of-IsIn (λ s. IsIn s steps) steps (λ s i. i)) in
    let es = statement_evidence selected ++ node_evidence (attachments u [] selected) in
    let (q, kinds, e', f', k') =
      add_evidence_lem steps p [] es f (evidence-IsNode steps u selected (λ s i. i)) in
    let (r, c, e'', member) =
      collect_nodes_lem steps q [] (node_keys q) f' (node_keys-HaveRoots steps q f') in
    let root_of : (s n : Text) → IsMember c s n → IsRoot q n s =
      λ s n i. elim ((member s n).0 i) [ inl j ↦ absurd j | inr (j, v, h) ↦ h ] in
    let member_at : (s n : Text) → is_evidence n ≡ false → IsRoot q n s → IsMember c s n =
      λ s n v h.
        let (w, g) = node-get q n s h in (member s n).1 (inr (node_keys-IsIn q n w g, v, h)) in
    (
      kinds,
      c,
      ap
            (λ o. and_then o (λ p. and_then (add_evidence p [] es) (λ r.
              and_then (collect_nodes r.0 [] (node_keys r.0))
                (λ c. some (in_order (families_in selected r.1 c.1))))))
            e
          ∙ (ap
                (λ o. and_then o (λ r.
                  and_then (collect_nodes r.0 [] (node_keys r.0))
                    (λ c. some (in_order (families_in selected r.1 c.1)))))
                e'
              ∙ ap (λ o. and_then o (λ c. some (in_order (families_in selected kinds c.1)))) e''),
      λ x y vx vy. (
        λ (s, i, j). IsSame-linked steps q x y f' (s, root_of s x i, root_of s y j),
        λ h.
            let (s, i, j) = linked-IsSame steps p x y done h in
            (s, member_at s x vx (k' x s i), member_at s y vy (k' y s j)),
      ),
    )
