-- ===== src/Taxonomy/Pick.antt =====
-- `_accept_picks` of src/patsquire_plr/landscape/taxonomy.py.
use patent_landscapes.Base.{
  ℕ, Option, none, some, List, [], ◌∷◌, ◌++◌, leb, if◌then◌else◌, nat_eq, length, any,
}
use patent_landscapes.Base.Text.{Text, Unicode, text_eq, strip}
use patent_landscapes.Base.Dict.{get, put}
use patent_landscapes.Taxonomy.Spec.{
  ResolvedCpc, resolved_beq, Reason, not_offered, chosen_twice, over_limit,
}

-- `{c.symbol: c for c in candidates}`.
unfoldable pub resolved_by_symbol :
    List (Text × ResolvedCpc) → List ResolvedCpc → List (Text × ResolvedCpc)
resolved_by_symbol d [] = d
resolved_by_symbol d (c ∷ cs) = resolved_by_symbol (put c.symbol c d) cs

abbrev pub Picked : Type 0
Picked = List ResolvedCpc × List (Text × Reason)

abbrev pub accept_candidate : ℕ → Text → Picked → Option ResolvedCpc → Picked
accept_candidate limit pick (accepted, problems) none =
    (accepted, problems ++ ((pick, not_offered) ∷ []))
accept_candidate limit pick (accepted, problems) (some c) =
    if any (resolved_beq c) accepted
    then (accepted, problems ++ ((pick, chosen_twice) ∷ []))
    else if leb limit (length accepted)
    then (accepted, problems ++ ((pick, over_limit limit) ∷ []))
    else (accepted ++ (c ∷ []), problems)

-- The loop of `_accept_picks`.
unfoldable pub accept_from : Unicode → List (Text × ResolvedCpc) → ℕ → Picked → List Text → Picked
unfolding strip
accept_from u by_symbol limit picked [] = picked
accept_from u by_symbol limit picked (pick ∷ picks) =
    accept_from u by_symbol limit
      (accept_candidate limit pick picked (get (strip u pick) by_symbol)) picks

-- `_accept_picks`, of the picks' symbols.
unfoldable pub accept_picks : Unicode → List Text → List ResolvedCpc → ℕ → Picked
unfolding accept_from resolved_by_symbol
accept_picks u picks candidates limit =
    accept_from u (resolved_by_symbol [] candidates) limit ([], []) picks
