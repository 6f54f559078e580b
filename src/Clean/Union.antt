-- ===== src/Clean/Union.antt =====
-- The union-find `_UnionFind` of src/patsquire_plr/clean/dataset.py: nodes are texts, the dictionary
-- gives each its parent, and of two roots the smaller becomes the root. A loop has as many rounds as
-- there are nodes; that this is enough is proved.
pub mod Forest
pub mod Steps
pub mod Roots
pub mod Linked
pub mod Tests
use patent_landscapes.Base.{
  ◌∷◌, [], ℕ, zero, suc, Option, none, some, List, if◌then◌else◌, nat_eq, length,
}
use patent_landscapes.Base.Text.{Text, text_eq, text_le}
use patent_landscapes.Base.Dict.{get, put, set_default}

abbrev pub Parents : Type 0
Parents = List (Text × Text)

abbrev pub and_then {ℓ κ} : {A : Type ℓ} {B : Type κ} → Option A → (A → Option B) → Option B
and_then none next = none
and_then (some a) next = next a

-- The first loop of `find`: none where the rounds end first, or a node is not a key.
unfoldable pub find_root : Parents → ℕ → Text → Option Text
unfolding get
find_root p zero node = none
find_root p (suc rounds) node =
    and_then (get node p) (λ up. if text_eq.beq up node then some node else find_root p rounds up)

-- The second loop of `find`, path compression.
unfoldable pub compress : Parents → ℕ → Text → Text → Option Parents
unfolding get put
compress p zero node root = none
compress p (suc rounds) node root =
    and_then (get node p)
      (λ up. if text_eq.beq up root then some p else compress (put node root p) rounds up root)

-- `find`: the root and the dictionary after.
unfoldable pub find : Parents → Text → Option (Text × Parents)
unfolding set_default find_root compress
find p node =
    let q = set_default node node p in
    and_then (find_root q (length q) node)
      (λ root. and_then (compress q (length q) node root) (λ r. some (root, r)))

abbrev pub smaller : Text → Text → Text
smaller a b = if text_le a b then a else b

abbrev pub larger : Text → Text → Text
larger a b = if text_le a b then b else a

abbrev pub join_roots : Text → Text → Parents → Parents
join_roots ra rb p = if text_eq.beq ra rb then p else put (larger ra rb) (smaller ra rb) p

-- `union`.
unfoldable pub union : Parents → Text → Text → Option Parents
unfolding find put
union p a b =
    and_then (find p a) (λ ra. and_then (find ra.1 b) (λ rb. some (join_roots ra.0 rb.0 rb.1)))

-- The calls that the grouping of families makes: `find(a)`, and `union(a, b)`.
pub data Step : Type 0 where
  visit : Text → Step
  join : Text → Text → Step

abbrev pub run_step : Parents → Step → Option Parents
run_step p (visit a) = and_then (find p a) (λ r. some r.1)
run_step p (join a b) = union p a b

unfoldable pub run_steps : Parents → List Step → Option Parents
unfolding find union
run_steps p [] = some p
run_steps p (s ∷ steps) = and_then (run_step p s) (λ q. run_steps q steps)
