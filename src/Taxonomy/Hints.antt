-- ===== src/Taxonomy/Hints.antt =====
-- `_subclasses` of src/patsquire_plr/landscape/taxonomy.py, and the key by which `draft_taxonomy`
-- compares the names of segments.
use patent_landscapes.Base.{ℕ, none, some, List, [], ◌∷◌, if◌then◌else◌, nat_eq, take}
use patent_landscapes.Base.Text.{Text, Unicode, Letters, text_eq, codes, join, is_space}
use patent_landscapes.Base.Dict.{distinct_from}
use patent_landscapes.Base.Result.{Result, ok, err, ◌>>=◌}
use patent_landscapes.Cpc.Scheme.{CpcScheme}
use patent_landscapes.Cpc.Within.{CpcCheck, check}
use patent_landscapes.Taxonomy.Error.{TaxonomyError, unknown_hint}

abbrev pub subclass_of : CpcCheck → Result TaxonomyError Text
subclass_of c = elim c.symbol [ none ↦ err (unknown_hint c.problem) | some s ↦ ok (take 4 s) ]

unfoldable pub subclasses_of : Unicode → CpcScheme → List Text → Result TaxonomyError (List Text)
unfolding check
subclasses_of u s [] = ok []
subclasses_of u s (hint ∷ hints) =
    subclass_of (check u s hint) >>= λ c. subclasses_of u s hints >>= λ cs. ok (c ∷ cs)

-- `_subclasses`.
unfoldable pub subclasses : Unicode → CpcScheme → List Text → Result TaxonomyError (List Text)
unfolding subclasses_of
subclasses u s hints = subclasses_of u s hints >>= λ cs. ok (distinct_from [] cs)

-- `" ".join(name.casefold().split())`.
abbrev pub in_part : ℕ → List Text → List Text
in_part c [] = (c ∷ []) ∷ []
in_part c (w ∷ ws) = (c ∷ w) ∷ ws

unfoldable pub split_space : Unicode → Text → List Text
unfolding is_space
split_space u [] = []
split_space u (c ∷ []) = if is_space u c then [] else (c ∷ []) ∷ []
split_space u (c ∷ d ∷ s) =
    let rest = split_space u (d ∷ s) in
    if is_space u c then rest else if is_space u d then (c ∷ []) ∷ rest else in_part c rest

unfoldable pub name_key : Unicode → Letters → Text → Text
unfolding split_space
name_key u l name = join (codes " ") (split_space u (l.casefold name))
