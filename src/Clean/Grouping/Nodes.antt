-- ===== src/Clean/Grouping/Nodes.antt =====
-- The nodes that `_group_families` of src/patsquire_plr/clean/dataset.py asks for have been visited.
use patent_landscapes.Base.{
  refl, inl, inr, List, [], ◌∷◌, ◌++◌, map, ltb, if◌then◌else◌, Bool-cases, nat_eq, length, All,
  IsIn, All-append, IsIn-left, IsIn-right,
}
use patent_landscapes.Base.Text.{Text, Unicode, text_eq}
use patent_landscapes.Base.Dict.{get, put, contains}
use patent_landscapes.Clean.Copies.{InputDocument}
use patent_landscapes.Clean.Families.{stated_members}
use patent_landscapes.Clean.Union.{Step, visit, join}
use patent_landscapes.Clean.Union.Linked.{IsLinked, visited, second}
use patent_landscapes.Clean.Grouping.{
  Components, joins, nodes_of, steps_of, all_steps, or_none_yet, attach, attachments,
  statement_evidence, node_evidence, Evidence, stated_member,
}

All-put :
    (P : Text → Type 0) (k : Text) (v : List Text) (d : Components)
    → P k
    → All (λ (e : Text × List Text). P e.0) d
    → All (λ (e : Text × List Text). P e.0) (put k v d)
unfolding put
All-put P k v [] h a = (h, tt)
All-put P k v ((j, w) ∷ d) h a = elim (Bool-cases (text_eq.beq j k)) [
  | inl e ↦ rw e (a.0, a.1)
  | inr e ↦ rw e (a.0, All-put P k v d h a.1)
]

module _ (steps : List Step) where
  -- A node of the calls.
  abbrev pub IsNode : Text → Type 0
  IsNode n = IsLinked steps n n

  All-attach :
      (publication : Text) (ns : List Text) (d : Components)
      → All IsNode ns
      → All (λ (e : Text × List Text). IsNode e.0) d
      → All (λ (e : Text × List Text). IsNode e.0) (attach publication ns d)
  unfolding attach
  All-attach publication [] d h a = a
  All-attach publication (n ∷ ns) d h a =
      let held = or_none_yet (get n d) in
      All-attach publication ns
        (put n (if contains publication held then held else held ++ (publication ∷ [])) d) h.1
        (All-put IsNode n (if contains publication held then held else held ++ (publication ∷ [])) d
          h.0 a)

  joined-IsNode :
      (publication : Text) (ns : List Text)
      → ((s : Step) → IsIn s (joins publication ns) → IsIn s steps)
      → All IsNode ns
  joined-IsNode publication [] h = tt
  joined-IsNode publication (n ∷ ns) h = (
    second n n publication refl (h (join publication n) (inl refl)),
    joined-IsNode publication ns (λ s i. h s (inr i)),
  )

  attachments-IsNode :
      (u : Unicode) (d : Components) (selected : List (Text × InputDocument))
      → ((s : Step) → IsIn s (all_steps u selected) → IsIn s steps)
      → All (λ (e : Text × List Text). IsNode e.0) d
      → All (λ (e : Text × List Text). IsNode e.0) (attachments u d selected)
  unfolding attachments all_steps
  attachments-IsNode u d [] h a = a
  attachments-IsNode u d ((publication, item) ∷ selected) h a =
      let ns = nodes_of u item in
      let mine = joins publication (stated_members item) in
      attachments-IsNode u (attach publication ns d) selected
        (λ s i. h s (IsIn-right s (steps_of u (publication, item)) (all_steps u selected) i))
        (All-attach publication ns d
          (joined-IsNode publication ns (λ s i. h s (
            IsIn-left s (steps_of u (publication, item)) (all_steps u selected)
              (inr (IsIn-right s mine (joins publication ns) i)))))
          a)

  node_evidence-IsNode :
      (d : Components)
      → All (λ (e : Text × List Text). IsNode e.0) d
      → All (λ (e : Text × Evidence). IsNode e.0) (node_evidence d)
  node_evidence-IsNode [] h = tt
  node_evidence-IsNode ((n, publications) ∷ d) h = elim (Bool-cases (ltb 1 (length publications))) [
    | inl e ↦ rw e (h.0, node_evidence-IsNode d h.1)
    | inr e ↦ rw e (node_evidence-IsNode d h.1)
  ]

  map-IsNode :
      (publication : Text) (ms : List Text)
      → IsNode publication
      → All
          (λ (e : Text × Evidence). IsNode e.0)
          (map (λ (m : Text). (publication, stated_member)) ms)
  map-IsNode publication [] h = tt
  map-IsNode publication (m ∷ ms) h = (h, map-IsNode publication ms h)

  statement_evidence-IsNode :
      (u : Unicode) (selected : List (Text × InputDocument))
      → ((s : Step) → IsIn s (all_steps u selected) → IsIn s steps)
      → All (λ (e : Text × Evidence). IsNode e.0) (statement_evidence selected)
  unfolding all_steps
  statement_evidence-IsNode u [] h = tt
  statement_evidence-IsNode u ((publication, item) ∷ selected) h =
      All-append (λ (e : Text × Evidence). IsNode e.0)
        (map (λ (m : Text). (publication, stated_member)) (stated_members item))
        (statement_evidence selected)
        (map-IsNode publication (stated_members item)
          (visited publication publication refl (h (visit publication) (inl refl))))
        (statement_evidence-IsNode u selected
          (λ s i. h s (IsIn-right s (steps_of u (publication, item)) (all_steps u selected) i)))

  -- Every node whose evidence is asked for is a node of the calls.
  pub evidence-IsNode :
      (u : Unicode) (selected : List (Text × InputDocument))
      → ((s : Step) → IsIn s (all_steps u selected) → IsIn s steps)
      → All
          (λ (e : Text × Evidence). IsNode e.0)
          (statement_evidence selected ++ node_evidence (attachments u [] selected))
  evidence-IsNode u selected h =
      All-append (λ (e : Text × Evidence). IsNode e.0) (statement_evidence selected)
        (node_evidence (attachments u [] selected)) (statement_evidence-IsNode u selected h)
        (node_evidence-IsNode (attachments u [] selected) (attachments-IsNode u [] selected h tt))
