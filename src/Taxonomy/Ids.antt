-- ===== src/Taxonomy/Ids.antt =====
-- `segment_id` of src/patsquire_plr/landscape/taxonomy.py. The decomposition of a name to ASCII is a
-- parameter.
use patent_landscapes.Base.{
  ℕ, zero, suc, Bool, false, ◌||◌, Option, none, some, List, [], ◌∷◌, ◌++◌, ◌==◌, if◌then◌else◌,
  nat_eq, length, take,
}
use patent_landscapes.Base.Text.{Text, Letters, text_eq, codes, is_digit}
use patent_landscapes.Base.Dict.{contains}
use patent_landscapes.Base.Number.{str}
use patent_landscapes.Taxonomy.Spec.{is_lower}

-- A run of characters other than `[a-z0-9]` as one underscore.
abbrev pub is_id_char : ℕ → Bool
is_id_char c = is_lower c || is_digit c

abbrev pub starts_underscore : Text → Bool
starts_underscore [] = false
starts_underscore (c ∷ s) = c == b'_'

unfoldable pub underscored : Text → Text
underscored [] = []
underscored (c ∷ s) =
    let rest = underscored s in
    if is_id_char c then c ∷ rest else if starts_underscore rest then rest else b'_' ∷ rest

-- `.strip("_")`.
abbrev pub lstrip_underscores : Text → Text
lstrip_underscores [] = []
lstrip_underscores (c ∷ s) = if c == b'_' then lstrip_underscores s else c ∷ s

abbrev pub keep_unless_end : ℕ → Text → Text
keep_unless_end c [] = if c == b'_' then [] else c ∷ []
keep_unless_end c (d ∷ s) = c ∷ d ∷ s

abbrev pub rstrip_underscores : Text → Text
rstrip_underscores [] = []
rstrip_underscores (c ∷ s) = keep_unless_end c (rstrip_underscores s)

abbrev pub or_segment : Text → Text
or_segment [] = codes "segment"
or_segment (c ∷ s) = c ∷ s

abbrev pub with_letter : Text → Text
with_letter [] = []
with_letter (c ∷ s) = if is_lower c then c ∷ s else take 36 (codes "s_" ++ (c ∷ s))

-- The name's part of an identifier, `base`.
unfoldable pub base_id : Letters → (Text → Text) → Text → Text
unfolding underscored
base_id l to_ascii name = with_letter (
    or_segment
      (take 36 (rstrip_underscores (lstrip_underscores (underscored (l.lower (to_ascii name)))))))

abbrev pub with_number : Text → ℕ → Text
with_number base n = base ++ (b'_' ∷ str n)

-- The loop of `segment_id`: none where the fuel ends first.
unfoldable pub free_id : Text → List Text → ℕ → Text → ℕ → Option Text
unfolding str
free_id base taken zero candidate n = none
free_id base taken (suc fuel) candidate n =
    let next = free_id base taken fuel (with_number base n) (suc n) in
    if contains candidate taken then next else some candidate

-- `segment_id`; as many rounds as there are identifiers taken, and one, are enough.
unfoldable pub segment_id : Letters → (Text → Text) → Text → List Text → Option Text
unfolding base_id free_id
segment_id l to_ascii name taken =
    let base = base_id l to_ascii name in free_id base taken (suc (length taken)) base 2
