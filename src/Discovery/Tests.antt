-- ===== src/Discovery/Tests.antt =====
-- Links and choices at a small frontier.
use patent_landscapes.Base.Text.{text_le, text_beq, upper, strip, upper_text}
use patent_landscapes.Publication.{last_is_digit, accept, is_separator, compact, match_compact}
use patent_landscapes.Base.{ℕ, ◌+◌, ◌≡◌, refl, true, none, some, List, [], ◌∷◌, map, nat_eq, length}
use patent_landscapes.Publication.Tests.{ascii}
use patent_landscapes.Base.Dict.{get}
use patent_landscapes.Discovery.{
  err, Text, ok, codes, Links, links, choose, Chunk, rows_of, identity_eq, number_of,
  already_requested, office_out_of_scope, over_cap, Identity,
}
use patent_landscapes.Discovery.Choose.{choose-total, total}
use patent_landscapes.Discovery.Best.{choose-IsBest, IsBest, eligible_links}
use patent_landscapes.Discovery.Count.{links-IsLinkOf, IsLinkOf, naming}

abbrev chunk : Chunk
chunk = record {
  backward =
      (codes "d1", some (codes "US7B2"))
      ∷ (codes "d2", some (codes "US7A1"))
      ∷ (codes "d2", none)
      ∷ (codes "d1", some (codes "US7A1"))
      ∷ (codes "d2", some (codes "EP9A1"))
      ∷ [];
  forward = (codes "d1", some (codes "JP5")) ∷ [];
}

abbrev us7 : Identity
us7 = (codes "US", codes "7")

abbrev found : Links
found =
    (us7, (2, codes "US7A1"))
    ∷ ((codes "EP", codes "9"), (1, codes "EP9A1"))
    ∷ ((codes "JP", codes "5"), (1, codes "JP5"))
    ∷ []

links_of_chunk : links ascii true true (chunk ∷ []) ≡ ok found
unfolding links match_compact compact upper_text strip upper is_separator accept last_is_digit
    text_beq text_le
links_of_chunk = refl

unparseable :
    links ascii true true (record chunk { forward = (codes "d1", some (codes "?")) ∷ [] } ∷ [])
    ≡ err (codes "?" ∷ [])
unfolding links match_compact compact upper_text strip upper is_separator accept last_is_digit
unparseable = refl

-- The American office is the only one in the scope, beside the European one.
chosen :
    choose found [] (codes "US" ∷ codes "EP" ∷ []) 1 []
    ≡ (codes "US7A1" ∷ [], (office_out_of_scope, 1) ∷ (over_cap, 1) ∷ [])
unfolding choose text_beq
chosen = refl

-- Nothing is over the cap, so the counter has no entry for it.
all_chosen :
    choose found (us7 ∷ []) [] 5 []
    ≡ (codes "EP9A1" ∷ codes "JP5" ∷ [], (already_requested, 1) ∷ [])
unfolding choose text_beq text_le
all_chosen = refl

links-IsLinkOf_example :
    IsLinkOf (naming ascii us7 (rows_of true true (chunk ∷ []))) (get us7 found)
links-IsLinkOf_example = links-IsLinkOf ascii us7 true true (chunk ∷ []) found links_of_chunk

choose-total_example :
    length (choose found [] (codes "US" ∷ []) 1 []).0
      + total (choose found [] (codes "US" ∷ []) 1 []).1
    ≡ 3
choose-total_example = choose-total found [] (codes "US" ∷ []) 1 []

choose-IsBest_example :
    (picked : List (ℕ × Text)) × (rest : List (ℕ × Text)) × ((choose found [] [] 2 []).0
      ≡ map number_of picked)
    × IsBest 2 (eligible_links [] [] found) picked rest
choose-IsBest_example = choose-IsBest found [] [] 2 []
