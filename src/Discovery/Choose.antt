-- ===== src/Discovery/Choose.antt =====
-- What is fetched at a hop and what is counted as excluded.
use patent_landscapes.Base.Text.{text_eq}
use patent_landscapes.Base.{
  ℕ, suc, ◌+◌, ◌-◌, ◌≡◌, refl, List, [], ◌∷◌, arith, nat_eq, length, take, length-append,
  length-take, length-map,
}
use patent_landscapes.Base.Dict.{get, put}
use patent_landscapes.Base.Sort.{length-sorted, sorted}
use patent_landscapes.Discovery.{
  Text, Identity, Links, Counter, or_zero, increase, remove, ranked, Ranking, consider,
  consider_all, drop_zero, over_cap, number_of, cut, choose, already_requested, office_out_of_scope,
}

abbrev pub total : Counter → ℕ
total [] = 0
total ((k, n) ∷ counter) = n + total counter

total-put :
    (key : Text) (n : ℕ) (counter : Counter)
    → total (put key (or_zero (get key counter) + n) counter) ≡ total counter + n
unfolding put get
total-put key n [] = omega arith
total-put key n ((k, m) ∷ counter) = ground (arith, total-put key n counter)

total-increase :
    (key : Text) (n : ℕ) (counter : Counter) → total (increase key n counter) ≡ total counter + n
unfolding increase
total-increase key n counter = total-put key n counter

total-remove :
    (key : Text) (counter : Counter)
    → or_zero (get key counter) ≡ 0
    → total (remove key counter) ≡ total counter
unfolding remove get
total-remove key [] h = refl
total-remove key ((k, n) ∷ counter) h = ground (arith, total-remove key counter)

total-drop_zero : (counter : Counter) → total (drop_zero counter) ≡ total counter
unfolding drop_zero
total-drop_zero counter = ground (arith, total-remove over_cap counter)

abbrev tally : Ranking → ℕ
tally (eligible, excluded) = length eligible + total excluded

module _ (seen : List Identity) (countries : List Text) where
  consider-tally :
      (l : Identity × (ℕ × Text)) (r : Ranking)
      → tally (consider seen countries l r) ≡ suc (tally r)
  unfolding consider
  consider-tally (identity, link) (eligible, excluded) = ground (
    arith,
    total-increase already_requested 1 excluded,
    total-increase office_out_of_scope 1 excluded,
    length-append eligible (link ∷ []),
  )

  consider_all-tally :
      (links : Links) (r : Ranking)
      → tally (consider_all seen countries links r) ≡ length links + tally r
  unfolding consider_all
  consider_all-tally [] r = omega arith
  consider_all-tally (l ∷ links) r =
      omega (arith, consider_all-tally links (consider seen countries l r), consider-tally l r)

cut-tally : (cap : ℕ) (r : Ranking) → length (cut cap r).0 + total (cut cap r).1 ≡ tally r
unfolding cut
cut-tally cap (eligible, excluded) = ground (
  arith,
  total-drop_zero (increase over_cap (length eligible - cap) excluded),
  total-increase over_cap (length eligible - cap) excluded,
  length-map number_of (take cap (sorted ranked eligible)),
  length-take cap (sorted ranked eligible),
  length-sorted ranked eligible,
)

-- Every link is counted once: the numbers to fetch and the counts of the links that are excluded
-- add up to the links, with what the counter held before.
pub choose-total :
    (links : Links) (seen : List Identity) (countries : List Text) (cap : ℕ) (excluded : Counter)
    → length (choose links seen countries cap excluded).0
        + total (choose links seen countries cap excluded).1
      ≡ length links + total excluded
unfolding choose
choose-total links seen countries cap excluded = omega (
  arith,
  cut-tally cap (consider_all seen countries links ([], excluded)),
  consider_all-tally seen countries links ([], excluded),
)
