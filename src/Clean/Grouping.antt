-- ===== src/Clean/Grouping.antt =====
-- `_group_families` of src/patsquire_plr/clean/dataset.py, with `application_key`: the families of the
-- selected documents, by what they state. The calls of the union-find that the first loop makes are
-- listed first, in order, and then made.
mod Nodes
mod Components
mod Tests
use patent_landscapes.Base.{
  ℕ, Bool, true, false, not, ◌&&◌, ◌||◌, Option, none, some, List, [], ◌∷◌, ◌++◌, map, ltb, leb,
  ◌==◌, if◌then◌else◌, is_some, nat_eq, length, drop, filter,
}
use patent_landscapes.Base.Text.{
  Text, Unicode, text_eq, text_le, text_beq, codes, upper_text, is_digit, is_capital,
}
use patent_landscapes.Base.Dict.{get, put, contains}
use patent_landscapes.Base.Sort.{sorted}
use patent_landscapes.Patent.{filing_office}
use patent_landscapes.Clean.Copies.{InputDocument}
use patent_landscapes.Clean.Families.{stated_members}
use patent_landscapes.Clean.Union.{Parents, Step, visit, join, run_steps, find, and_then}
use patent_landscapes.Cpc.Within.{starts_with}

-- `[0-9A-Za-z]`.
abbrev pub is_plain : ℕ → Bool
is_plain c = is_digit c || (is_capital c || (leb b'a' c && leb c b'z'))

-- `s.removeprefix(prefix)`.
abbrev pub remove_prefix : Text → Text → Text
remove_prefix s prefix = if starts_with s prefix then drop (length prefix) s else s

-- `application_key`.
unfoldable pub application_key : Unicode → Text → Text → Text
unfolding upper_text
application_key u raw country =
    country ++ (b'|' ∷ remove_prefix (upper_text u (filter is_plain raw)) country)

-- The evidence nodes of a document.
unfoldable pub family_node : InputDocument → Option Text
family_node item = elim item.document.family_id_simple [
  | none ↦ none
  | some id ↦ some (codes "#family_id:" ++ (item.document.source_id ++ (b':' ∷ id)))
]

unfoldable pub application_node : Unicode → InputDocument → Option Text
unfolding application_key
application_node u item = elim item.document.application_number_raw [
  | none ↦ none
  | some raw ↦ some (codes "#application:" ++ application_key u raw (filing_office item.document))
]

abbrev pub at_most_one {ℓ} : {A : Type ℓ} → Option A → List A
at_most_one none = []
at_most_one (some a) = a ∷ []

-- The nodes that a publication is attached to.
abbrev pub nodes_of : Unicode → InputDocument → List Text
nodes_of u item = at_most_one (family_node item) ++ at_most_one (application_node u item)

-- The calls of the first loop, for one document and for all.
abbrev pub joins : Text → List Text → List Step
joins publication nodes = map (join publication) nodes

abbrev pub steps_of : Unicode → Text × InputDocument → List Step
steps_of u (publication, item) =
    visit publication
    ∷ (joins publication (stated_members item) ++ joins publication (nodes_of u item))

unfoldable pub all_steps : Unicode → List (Text × InputDocument) → List Step
unfolding family_node application_node
all_steps u [] = []
all_steps u (p ∷ selected) = steps_of u p ++ all_steps u selected

abbrev pub or_none_yet {ℓ} : {A : Type ℓ} → Option (List A) → List A
or_none_yet none = []
or_none_yet (some xs) = xs

abbrev pub is_evidence : Text → Bool
is_evidence [] = false
is_evidence (c ∷ s) = c == b'#'

-- `components[root].append(node)`.
unfoldable pub add_node : Text → Text → List (Text × List Text) → List (Text × List Text)
add_node root node components =
    put root (or_none_yet (get root components) ++ (node ∷ [])) components

abbrev pub Components : Type 0
Components = List (Text × List Text)

-- The loop over the nodes that are publications, by their roots.
unfoldable pub collect_nodes : Parents → Components → List Text → Option (Parents × Components)
unfolding find add_node
collect_nodes p components [] = some (p, components)
collect_nodes p components (node ∷ nodes) =
    if is_evidence node
    then collect_nodes p components nodes
    else and_then (find p node) (λ r. collect_nodes r.1 (add_node r.0 node components) nodes)

abbrev pub node_keys : Parents → List Text
node_keys p = map (λ (e : Text × Text). e.0) p

-- The kinds of evidence, in the order of their names.
pub data Evidence : Type 0 where
  application family_id stated_member : Evidence

pub record Kinds : Type 0 where
  pub by_application : Bool
  pub by_family_id : Bool
  pub by_statement : Bool

abbrev pub no_kinds : Kinds
no_kinds = record { by_application = false; by_family_id = false; by_statement = false }

abbrev pub with_kind : Evidence → Kinds → Kinds
with_kind application k = record k { by_application = true }
with_kind family_id k = record k { by_family_id = true }
with_kind stated_member k = record k { by_statement = true }

abbrev pub kinds_or_none : Option Kinds → Kinds
kinds_or_none none = no_kinds
kinds_or_none (some k) = k

abbrev pub if_kind : Bool → Evidence → List Evidence → List Evidence
if_kind true e es = e ∷ es
if_kind false e es = es

-- `tuple(sorted(kinds))`.
abbrev pub sorted_kinds : Kinds → List Evidence
sorted_kinds k =
    if_kind k.by_application application
      (if_kind k.by_family_id family_id (if_kind k.by_statement stated_member []))

-- The publications attached to each evidence node, each once.
unfoldable pub attach : Text → List Text → Components → Components
attach publication [] d = d
attach publication (n ∷ ns) d =
    let held = or_none_yet (get n d) in
    attach publication ns
      (put n (if contains publication held then held else held ++ (publication ∷ [])) d)

unfoldable pub attachments : Unicode → Components → List (Text × InputDocument) → Components
unfolding attach family_node application_node
attachments u d [] = d
attachments u d ((publication, item) ∷ selected) =
    attachments u (attach publication (nodes_of u item) d) selected

-- The evidence that linked two publications: each statement, and each node with several of them.
abbrev pub statement_evidence : List (Text × InputDocument) → List (Text × Evidence)
statement_evidence [] = []
statement_evidence ((publication, item) ∷ selected) =
    map (λ (m : Text). (publication, stated_member)) (stated_members item)
    ++ statement_evidence selected

abbrev pub kind_of_node : Text → Evidence
kind_of_node n = if starts_with n (codes "#family_id:") then family_id else application

abbrev pub node_evidence : Components → List (Text × Evidence)
node_evidence [] = []
node_evidence ((n, publications) ∷ d) =
    let rest = node_evidence d in
    if ltb 1 (length publications) then (n, kind_of_node n) ∷ rest else rest

unfoldable pub add_evidence :
    Parents → List (Text × Kinds) → List (Text × Evidence) → Option (Parents × List (Text × Kinds))
unfolding find
add_evidence p d [] = some (p, d)
add_evidence p d ((node, kind) ∷ es) =
    and_then (find p node)
      (λ r. add_evidence r.1 (put r.0 (with_kind kind (kinds_or_none (get r.0 d))) d) es)

pub record Family : Type 0 where
  pub key : Text
  pub evidence : List Evidence
  pub publications_in_dataset : ℕ
  pub stated_members_not_retrieved : ℕ

pub record FamilyMember : Type 0 where
  pub family_key : Text
  pub publication : Text
  pub in_dataset : Bool

abbrev pub member_of : Text → Bool → Text → FamilyMember
member_of key inside p = record { family_key = key; publication = p; in_dataset = inside }

abbrev pub Grouped : Type 0
Grouped = List Family × List FamilyMember

abbrev pub add_family : Kinds → List Text → List Text → Grouped → Grouped
add_family kinds [] external rest = rest
add_family kinds (key ∷ more) external (families, members) = (
  record {
    key = key;
    evidence = sorted_kinds kinds;
    publications_in_dataset = length (key ∷ more);
    stated_members_not_retrieved = length external;
  }
      ∷ families,
  map (member_of key true) (key ∷ more) ++ (map (member_of key false) external ++ members),
)

abbrev pub is_selected : List (Text × InputDocument) → Text → Bool
is_selected selected n = is_some (get n selected)

-- The loop over the components.
unfoldable pub families_in :
    List (Text × InputDocument) → List (Text × Kinds) → Components → Grouped
families_in selected evidence [] = ([], [])
families_in selected evidence ((root, nodes) ∷ components) =
    add_family (kinds_or_none (get root evidence))
      (sorted text_le (filter (is_selected selected) nodes))
      (sorted text_le (filter (λ n. not (is_selected selected n)) nodes))
      (families_in selected evidence components)

abbrev pub family_le : Family → Family → Bool
family_le f g = text_le f.key g.key

-- The sort key `(m.family_key, not m.in_dataset, m.publication)`.
abbrev pub member_le : FamilyMember → FamilyMember → Bool
member_le a b =
    if text_beq a.family_key b.family_key
    then (if a.in_dataset
        then (if b.in_dataset then text_le a.publication b.publication else true)
        else (if b.in_dataset then false else text_le a.publication b.publication))
    else text_le a.family_key b.family_key

abbrev pub in_order : Grouped → Grouped
in_order (families, members) = (sorted family_le families, sorted member_le members)

-- `_group_families`, without the warnings.
unfoldable pub group_families : Unicode → List (Text × InputDocument) → Option Grouped
unfolding all_steps run_steps add_evidence attachments collect_nodes families_in
group_families u selected = and_then (run_steps [] (all_steps u selected)) (λ p.
    and_then
      (add_evidence p [] (statement_evidence selected ++ node_evidence (attachments u [] selected)))
      (λ r.
        and_then (collect_nodes r.0 [] (node_keys r.0))
          (λ c. some (in_order (families_in selected r.1 c.1)))))
