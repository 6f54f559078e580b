-- ===== src/Clean/Copies/Partition.antt =====
-- Every input document gets exactly one decision.
use patent_landscapes.Base.{
  ◌≡◌, refl, ap, inl, inr, List, [], ◌∷◌, ◌++◌, map, append-nil, append_assoc, map-append,
  Bool-cases, nat_eq,
}
use mathlib.Core.List.{Perm, perm_middle, perm_append_comm}
use mathlib.Core.List.Perm
use patent_landscapes.Base.Text.{Text, text_eq, text_beq}
use patent_landscapes.Base.Sort.{sorted, insert_sorted, sorted-perm}
use patent_landscapes.Patent.{PatentDocument}
use patent_landscapes.Clean.Copies.{
  InputDocument, publication_of, DocumentDecision, append_to, group_from, older, by_key, others,
  last, superseded, choose_sorted, choose, choose_all, choose_copies,
}

abbrev pub id_of : InputDocument → Text
id_of c = c.document_id

abbrev pub decided_id : DocumentDecision → Text
decided_id d = d.document_id

abbrev pub flat : List (Text × List InputDocument) → List InputDocument
flat [] = []
flat ((k, items) ∷ d) = items ++ flat d

append_to-flat :
    (key : Text) (item : InputDocument) (d : List (Text × List InputDocument))
    → Perm (flat (append_to key item d)) (item ∷ flat d)
unfolding append_to
append_to-flat key item [] = Perm.refl (item ∷ [])
append_to-flat key item ((k, items) ∷ d) = elim (Bool-cases (text_beq k key)) [
  | inl e ↦ rw (e, append_assoc) (perm_middle items (flat d))
  | inr e ↦
      rw e (
        Perm.trans (Perm.append_left items (append_to-flat key item d))
          (perm_middle items (flat d)))
]

group_from-flat :
    (d : List (Text × List InputDocument)) (items : List InputDocument)
    → Perm (flat (group_from d items)) (items ++ flat d)
unfolding group_from
group_from-flat d [] = Perm.refl (flat d)
group_from-flat d (item ∷ items) =
    Perm.trans (group_from-flat (append_to (publication_of item) item d) items) (
      Perm.trans (Perm.append_left items (append_to-flat (publication_of item) item d))
        (perm_middle items (flat d)))

perm_exchange : {A : Type 0} (a b c : List A) → Perm (a ++ (b ++ c)) (b ++ (a ++ c))
perm_exchange a b c =
    rw (← append_assoc a b c, ← append_assoc b a c) (Perm.append_right c (perm_append_comm a b))

insert_sorted-flat :
    (g : Text × List InputDocument) (d : List (Text × List InputDocument))
    → Perm (flat (insert_sorted by_key g d)) (g.1 ++ flat d)
unfolding insert_sorted
insert_sorted-flat g [] = Perm.refl (g.1 ++ [])
insert_sorted-flat g (h ∷ d) = elim (Bool-cases (by_key g h)) [
  | inl e ↦ rw e (Perm.refl (g.1 ++ (h.1 ++ flat d)))
  | inr e ↦
      rw e (
        Perm.trans (Perm.append_left h.1 (insert_sorted-flat g d)) (perm_exchange h.1 g.1 (flat d)))
]

sorted-flat : (d : List (Text × List InputDocument)) → Perm (flat (sorted by_key d)) (flat d)
unfolding sorted
sorted-flat [] = Perm.refl []
sorted-flat (g ∷ d) =
    Perm.trans (insert_sorted-flat g (sorted by_key d)) (Perm.append_left g.1 (sorted-flat d))

last-others : {A : Type 0} (c : A) (cs : List A) → Perm (last c cs ∷ others c cs) (c ∷ cs)
unfolding last others
last-others c [] = Perm.refl (c ∷ [])
last-others c (d ∷ ds) =
    Perm.trans (Perm.swap c (last d ds) (others d ds)) (Perm.cons c (last-others d ds))

map-superseded :
    (publication : Text) (keep : InputDocument) (cs : List InputDocument)
    → map decided_id (map (superseded publication keep) cs) ≡ map id_of cs
map-superseded publication keep [] = refl
map-superseded publication keep (c ∷ cs) =
    ap (λ ids. c.document_id ∷ ids) (map-superseded publication keep cs)

choose_sorted-ids :
    (publication : Text) (cs : List InputDocument)
    → Perm (map decided_id (choose_sorted publication cs).decisions) (map id_of cs)
unfolding choose_sorted
choose_sorted-ids publication [] = Perm.refl []
choose_sorted-ids publication (c ∷ cs) = rw map-superseded (Perm.map id_of (last-others c cs))

choose-ids :
    (publication : Text) (cs : List InputDocument)
    → Perm (map decided_id (choose (publication, cs)).decisions) (map id_of cs)
unfolding choose
choose-ids publication cs =
    Perm.trans (choose_sorted-ids publication (sorted older cs))
      (Perm.map id_of (sorted-perm older cs))

module _ (dump : PatentDocument → List (Text × Text)) where
  choose_all-ids :
      (groups : List (Text × List InputDocument))
      → Perm (map decided_id (choose_all dump groups).decisions) (map id_of (flat groups))
  unfolding choose_all
  choose_all-ids [] = Perm.refl []
  choose_all-ids ((publication, copies) ∷ groups) =
      rw
        (map-append decided_id (choose (publication, copies)).decisions
          (choose_all dump groups).decisions)
        (rw (map-append id_of copies (flat groups))
          (Perm.append (choose-ids publication copies) (choose_all-ids groups)))

  -- The decisions name each input document exactly as often as the inputs do: every input is
  -- selected or excluded once, and nothing else is decided.
  pub choose_copies-perm :
      (inputs : List InputDocument)
      → Perm (map decided_id (choose_copies dump inputs).decisions) (map id_of inputs)
  unfolding choose_copies
  choose_copies-perm inputs = Perm.trans (choose_all-ids (sorted by_key (group_from [] inputs))) (
      Perm.map id_of (
        Perm.trans (sorted-flat (group_from [] inputs))
          (rw (append-nil inputs) at (group_from-flat [] inputs))))
