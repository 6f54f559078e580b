-- ===== src/Discovery/Best.antt =====
-- Which publications are fetched at a hop, and in which order.
use patent_landscapes.Base.{
  append_assoc, ◌∙◌, ℕ, ◌≡◌, refl, ap, ◌⊎◌, Bool, true, not, ◌&&◌, List, [], ◌∷◌, ◌++◌, map,
  append-nil, arith, nat_eq, length, take, drop, filter, All, take-drop, take-full,
}
use patent_landscapes.Base.Sort.{sorted, sorted-perm, IsSorted, sorted-IsSorted, IsSorted-append}
use patent_landscapes.Base.Text.{Text, text_le_total, text_le_trans}
use patent_landscapes.Discovery.{
  identity_eq, Identity, Links, Counter, ranked, out_of_scope, Ranking, consider, consider_all,
  number_of, cut, choose,
}
use mathlib.Core.List.{Perm}
use patent_landscapes.Base.Dict

ranked_total : (a b : ℕ × Text) → (ranked a b ≡ true) ⊎ (ranked b a ≡ true)
ranked_total (a, s) (b, t) = ground (arith, text_le_total s t)

ranked_trans : (a b c : ℕ × Text) → ranked a b ≡ true → ranked b c ≡ true → ranked a c ≡ true
ranked_trans (a, s) (b, t) (c, u) h k = ground (arith, text_le_trans s t u)

-- Neither seen nor out of scope.
abbrev pub is_eligible : List Identity → List Text → Identity × (ℕ × Text) → Bool
is_eligible seen countries l = not (Dict.contains l.0 seen) && not (out_of_scope countries l.0)

abbrev pub link_of : Identity × (ℕ × Text) → ℕ × Text
link_of l = l.1

-- The links that may be fetched, as counts and numbers.
abbrev pub eligible_links : List Identity → List Text → Links → List (ℕ × Text)
eligible_links seen countries links = map link_of (filter (is_eligible seen countries) links)

module _ (seen : List Identity) (countries : List Text) where
  eligible_links-cons :
      (l : Identity × (ℕ × Text)) (links : Links)
      → eligible_links seen countries (l ∷ []) ++ eligible_links seen countries links
        ≡ eligible_links seen countries (l ∷ links)
  eligible_links-cons l links = ground arith

  consider-eligible :
      (l : Identity × (ℕ × Text)) (r : Ranking)
      → (consider seen countries l r).0 ≡ r.0 ++ eligible_links seen countries (l ∷ [])
  unfolding consider
  consider-eligible (identity, link) (eligible, excluded) = ground (arith, append-nil eligible)

  consider_all-eligible :
      (links : Links) (r : Ranking)
      → (consider_all seen countries links r).0 ≡ r.0 ++ eligible_links seen countries links
  unfolding consider_all
  consider_all-eligible [] r = rw append-nil refl
  consider_all-eligible (l ∷ links) r =
      consider_all-eligible links (consider seen countries l r)
      ∙ rw (consider-eligible l r, append_assoc)
          (ap (λ xs. r.0 ++ xs) (eligible_links-cons l links))

-- The picked links and the rest are a rearrangement of the eligible ones, the picked ones are in the
-- order of the ranking, none of the rest is ranked before one of them, and unless the rest is empty
-- there are as many as the cap.
abbrev pub IsBest : ℕ → List (ℕ × Text) → List (ℕ × Text) → List (ℕ × Text) → Type 0
IsBest most eligible picked rest =
    Perm (picked ++ rest) eligible
    × IsSorted ranked picked
    × All (λ r. All (λ p. ranked p r ≡ true) picked) rest
    × ((rest ≡ []) ⊎ (length picked ≡ most))

IsBest-sorted :
    (most : ℕ) (eligible : List (ℕ × Text))
    → IsBest most eligible (take most (sorted ranked eligible)) (drop most (sorted ranked eligible))
IsBest-sorted most eligible =
    let s = sorted ranked eligible in
    let parts =
      IsSorted-append ranked (take most s) (drop most s)
        (rw take-drop (sorted-IsSorted ranked ranked_total ranked_trans eligible)) in
    (rw take-drop (sorted-perm ranked eligible), parts.0, parts.1, take-full most s)

-- The numbers to fetch are those of the best eligible links under the cap: an eligible link is one
-- whose publication was not requested before and whose office is in the scope; they come by the
-- number of documents that link to them, the most first, then by number; and a link is left out
-- only where the cap is reached and every fetched one is ranked at least as high.
pub choose-IsBest :
    (links : Links) (seen : List Identity) (countries : List Text) (most : ℕ) (excluded : Counter)
    → (picked : List (ℕ × Text)) × (rest : List (ℕ × Text)) × ((choose links seen countries most
          excluded).0
        ≡ map number_of picked)
      × IsBest most (eligible_links seen countries links) picked rest
unfolding choose cut
choose-IsBest links seen countries most excluded =
    let eligible = eligible_links seen countries links in
    (
      take most (sorted ranked eligible),
      drop most (sorted ranked eligible),
      ap (λ e. map number_of (take most (sorted ranked e)))
          (consider_all-eligible seen countries links ([], excluded)),
      IsBest-sorted most eligible,
    )
