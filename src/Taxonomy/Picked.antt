-- ===== src/Taxonomy/Picked.antt =====
-- What `_accept_picks` of src/patsquire_plr/landscape/taxonomy.py accepts, and what it reports.
use patent_landscapes.Base.{
  ℕ, zero, suc, ◌+◌, ◌-◌, ◌≤◌, ◌≡◌, refl, sym, ap, ◌∙◌, inl, inr, Option, none, some, List, [], ◌∷◌,
  ◌++◌, arith, leb, Bool-cases, nat_eq, length, any, All, All-map, All-of-IsIn, IsIn, IsIn-left,
  IsIn-append, length-append, All-append, take, append-nil, append_assoc,
}
use patent_landscapes.Base.Text.{Text, Unicode, text_eq, strip}
use patent_landscapes.Base.Pigeon.{AllApart}
use patent_landscapes.Taxonomy.Spec.{
  ResolvedCpc, resolved_beq, Reason, not_offered, chosen_twice, over_limit,
}
use patent_landscapes.Taxonomy.Pick.{
  resolved_by_symbol, Picked, accept_candidate, accept_from, accept_picks,
}
use patent_landscapes.Taxonomy.Offers.{
  offer, with_offer, offers, once, IsNamedBy, get-absent, named-offer, any-resolved, resolved-any,
}

-- A reason is true: no candidate has the symbol; or the candidate was accepted; or the candidate was
-- not accepted, since the limit was reached.
abbrev pub IsReason : Unicode → List ResolvedCpc → ℕ → List ResolvedCpc → Text → Reason → Type 0
IsReason u candidates limit accepted pick not_offered =
    (c : ResolvedCpc) → ¬ IsNamedBy u candidates pick c
IsReason u candidates limit accepted pick chosen_twice =
    (c : ResolvedCpc) × IsNamedBy u candidates pick c × IsIn c accepted
IsReason u candidates limit accepted pick (over_limit n) =
    (n ≡ limit)
    × (length accepted ≡ limit)
    × ((c : ResolvedCpc) × IsNamedBy u candidates pick c × ¬ IsIn c accepted)
IsReason u candidates limit accepted pick _ = ⊥

-- What is true of what was accepted and reported of picks.
pub record IsSound (u : Unicode) (picks : List Text) (candidates : List ResolvedCpc) (limit : ℕ)
    (p : Picked) : Type 0 where
  pub named : All (λ c. (pick : Text) × IsIn pick picks × IsNamedBy u candidates pick c) p.0
  pub each_once : AllApart p.0
  pub in_limit : length p.0 ≤ limit
  pub reported :
      All (λ (q : Text × Reason). IsIn q.0 picks × IsReason u candidates limit p.0 q.0 q.1) p.1

AllApart-snoc :
    {A : Type 0} (xs : List A) (x : A) → AllApart xs → ¬ IsIn x xs → AllApart (xs ++ (x ∷ []))
AllApart-snoc [] x h n = (λ i. i, tt)
AllApart-snoc (y ∷ xs) x h n = (
  λ i. elim (IsIn-append y xs (x ∷ []) i) [
    | inl j ↦ h.0 j
    | inr (inl q) ↦ n (inl (sym q))
    | inr (inr j) ↦ j
  ],
  AllApart-snoc xs x h.1 (λ i. n (inr i)),
)

grown-IsReason :
    (u : Unicode) (candidates : List ResolvedCpc) (limit : ℕ) (accepted : List ResolvedCpc)
    (c : ResolvedCpc) (pick : Text) (r : Reason)
    → suc (length accepted) ≤ limit
    → IsReason u candidates limit accepted pick r
    → IsReason u candidates limit (accepted ++ (c ∷ [])) pick r
grown-IsReason u candidates limit accepted c pick not_offered h r = r
grown-IsReason u candidates limit accepted c pick chosen_twice h (d, n, i) =
    (d, n, IsIn-left d accepted (c ∷ []) i)
grown-IsReason u candidates limit accepted c pick (over_limit n) h (same, full, r) =
    absurd (omega arith)
grown-IsReason u candidates limit accepted c pick _ h r = r

take_nil : (n : ℕ) → take {A = ResolvedCpc} n [] ≡ []
take_nil zero = refl
take_nil (suc n) = refl

module _ (u : Unicode) (picks : List Text) (candidates : List ResolvedCpc) (limit : ℕ) where
  -- One pick is reported.
  report-IsSound :
      (accepted : List ResolvedCpc) (problems : List (Text × Reason)) (pick : Text) (r : Reason)
      → IsIn pick picks
      → IsReason u candidates limit accepted pick r
      → IsSound u picks candidates limit (accepted, problems)
      → IsSound u picks candidates limit (accepted, problems ++ ((pick, r) ∷ []))
        × (length accepted + length (problems ++ ((pick, r) ∷ []))
            ≡ suc (length accepted + length problems))
  report-IsSound accepted problems pick r i why h = (
    record {
      named = h.named;
      each_once = h.each_once;
      in_limit = h.in_limit;
      reported =
          All-append
            (λ (q : Text × Reason). IsIn q.0 picks × IsReason u candidates limit accepted q.0 q.1)
            problems ((pick, r) ∷ []) h.reported ((i, why), tt);
    },
    omega (arith, length-append {0} problems ((pick, r) ∷ [])),
  )

  -- One pick is accepted.
  accept-IsSound :
      (accepted : List ResolvedCpc) (problems : List (Text × Reason)) (pick : Text)
      (c : ResolvedCpc)
      → IsIn pick picks
      → IsNamedBy u candidates pick c
      → ¬ IsIn c accepted
      → suc (length accepted) ≤ limit
      → IsSound u picks candidates limit (accepted, problems)
      → IsSound u picks candidates limit (accepted ++ (c ∷ []), problems)
        × (length (accepted ++ (c ∷ [])) + length problems
            ≡ suc (length accepted + length problems))
  accept-IsSound accepted problems pick c i n new room h =
      let longer = length-append {0} accepted (c ∷ []) in
      (
        record {
          named =
              All-append (λ x. (p : Text) × IsIn p picks × IsNamedBy u candidates p x) accepted
                (c ∷ []) h.named ((pick, i, n), tt);
          each_once = AllApart-snoc accepted c h.each_once new;
          in_limit = omega arith;
          reported =
              All-map
                (λ (q : Text × Reason)
                    (r : IsIn q.0 picks × IsReason u candidates limit accepted q.0 q.1).
                  (r.0, grown-IsReason u candidates limit accepted c q.0 q.1 room r.1))
                problems h.reported;
        },
        omega arith,
      )

  abbrev Next : List ResolvedCpc → List (Text × Reason) → Picked → Type 0
  Next accepted problems p =
      IsSound u picks candidates limit p
      × (length p.0 + length p.1 ≡ suc (length accepted + length problems))

  -- What one pick does to what was accepted and the problems.
  candidate-IsSound :
      (accepted : List ResolvedCpc) (problems : List (Text × Reason)) (pick : Text)
      (offered : Option ResolvedCpc)
      → offer u candidates pick ≡ offered
      → IsIn pick picks
      → IsSound u picks candidates limit (accepted, problems)
      → Next accepted problems (accept_candidate limit pick (accepted, problems) offered)
  candidate-IsSound accepted problems pick none o i h =
      report-IsSound accepted problems pick not_offered i
        (λ c n. (get-absent (strip u pick) [] candidates o).1 c n.0 n.1) h
  candidate-IsSound accepted problems pick (some c) o i h =
      let n = named-offer u candidates pick c o in
      elim (Bool-cases (any (resolved_beq c) accepted)) [
        | inl e ↦ rw e (
            report-IsSound accepted problems pick chosen_twice i (c, n, resolved-any c accepted e)
              h)
        | inr e ↦ elim (Bool-cases (leb limit (length accepted))) [
          | inl f ↦
              let most = h.in_limit in
              let full : length accepted ≡ limit = ground arith in
              rw (e, f)
                (report-IsSound accepted problems pick (over_limit limit) i
                  (refl, full, (c, n, any-resolved c accepted e)) h)
          | inr f ↦
              let room : suc (length accepted) ≤ limit = ground arith in
              rw (e, f)
                (accept-IsSound accepted problems pick c i n (any-resolved c accepted e) room h)
        ]
      ]

  from-IsSound :
      (accepted : List ResolvedCpc) (problems : List (Text × Reason)) (rest : List Text)
      → All (λ p. IsIn p picks) rest
      → IsSound u picks candidates limit (accepted, problems)
      → IsSound u picks candidates limit
          (accept_from u (resolved_by_symbol [] candidates) limit (accepted, problems) rest)
        × (length
                (accept_from u (resolved_by_symbol [] candidates) limit (accepted, problems) rest).0
              + length
                  (accept_from u
                    (resolved_by_symbol [] candidates)
                    limit
                    (accepted, problems)
                    rest).1
            ≡ length accepted + length problems + length rest)
  unfolding accept_from
  from-IsSound accepted problems [] i h = (h, omega arith)
  from-IsSound accepted problems (pick ∷ rest) i h =
      let o = offer u candidates pick in
      let next = accept_candidate limit pick (accepted, problems) o in
      let (sound, count) = candidate-IsSound accepted problems pick o refl i.0 h in
      let (all, counts) = from-IsSound next.0 next.1 rest i.1 sound in (all, omega arith)

  -- The loop accepts, as far as there is room, the candidates that the picks name and that were not
  -- accepted before, in order.
  abbrev InOrder : List ResolvedCpc → Picked → List Text → List ResolvedCpc → Type 0
  InOrder accepted p rest named =
      (accept_from u (resolved_by_symbol [] candidates) limit p rest).0
      ≡ accepted ++ take (limit - length accepted) (once accepted named)

  next-InOrder :
      (accepted : List ResolvedCpc) (problems : List (Text × Reason)) (pick : Text)
      (rest : List Text) (o : Option ResolvedCpc)
      → length accepted ≤ limit
      → ((a : List ResolvedCpc) (ps : List (Text × Reason))
          → length a ≤ limit
          → InOrder a (a, ps) rest (offers u candidates rest))
      → InOrder accepted
          (accept_candidate limit pick (accepted, problems) o)
          rest
          (with_offer o (offers u candidates rest))
  next-InOrder accepted problems pick rest none h again =
      again accepted (problems ++ ((pick, not_offered) ∷ [])) h
  next-InOrder accepted problems pick rest (some c) h again =
      let named = offers u candidates rest in
      elim (Bool-cases (any (resolved_beq c) accepted)) [
        | inl e ↦ rw e (again accepted (problems ++ ((pick, chosen_twice) ∷ [])) h)
        | inr e ↦ elim (Bool-cases (leb limit (length accepted))) [
          | inl f ↦
              let none_left : limit - length accepted ≡ 0 = ground arith in
              let all = again accepted (problems ++ ((pick, over_limit limit) ∷ [])) h in
              rw (e, f)
                (all
                  ∙ (ap (λ n. accepted ++ take n (once accepted named)) none_left
                      ∙ sym (
                          ap (λ n. accepted ++ take n (c ∷ once (accepted ++ (c ∷ [])) named))
                            none_left)))
          | inr f ↦
              let longer = length-append {0} accepted (c ∷ []) in
              let more = accepted ++ (c ∷ []) in
              let left : limit - length accepted ≡ suc (limit - length more) = ground arith in
              let all = again more problems (ground arith) in
              rw (e, f)
                (all
                  ∙ (append_assoc accepted (c ∷ []) (take (limit - length more) (once more named))
                      ∙ sym (ap (λ n. accepted ++ take n (c ∷ once more named)) left)))
        ]
      ]

  from-InOrder :
      (accepted : List ResolvedCpc) (problems : List (Text × Reason)) (rest : List Text)
      → length accepted ≤ limit
      → InOrder accepted (accepted, problems) rest (offers u candidates rest)
  unfolding accept_from
  from-InOrder accepted problems [] h =
      sym (ap (λ xs. accepted ++ xs) (take_nil (limit - length accepted)) ∙ append-nil accepted)
  from-InOrder accepted problems (pick ∷ rest) h =
      next-InOrder accepted problems pick rest (offer u candidates pick) h
        (λ a ps k. from-InOrder a ps rest k)

pub accept_picks-IsSound :
    (u : Unicode) (picks : List Text) (candidates : List ResolvedCpc) (limit : ℕ)
    → ((accept_picks u picks candidates limit).0 ≡ take limit (once [] (offers u candidates picks)))
      × IsSound u picks candidates limit (accept_picks u picks candidates limit)
      × (length (accept_picks u picks candidates limit).0
            + length (accept_picks u picks candidates limit).1
          ≡ length picks)
unfolding accept_picks
accept_picks-IsSound u picks candidates limit =
    let none_yet : IsSound u picks candidates limit ([], []) = record {
      named = tt;
      each_once = tt;
      in_limit = omega arith;
      reported = tt;
    } in
    let each = All-of-IsIn (λ p. IsIn p picks) picks (λ p i. i) in
    let (sound, count) = from-IsSound u picks candidates limit [] [] picks each none_yet in
    let order = from-InOrder u picks candidates limit [] [] picks (omega arith) in
    let room : limit - 0 ≡ limit = omega arith in
    (order ∙ ap (λ n. take n (once [] (offers u candidates picks))) room, sound, omega arith)
