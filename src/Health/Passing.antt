-- ===== src/Health/Passing.antt =====
-- When a report is healthy.
use patent_landscapes.Base.{
  if◌then◌else◌, false, Bool, subst, ℕ, ◌+◌, ◌≡◌, refl, ap, ◌↔◌, true, List, [], ◌∷◌, map, arith,
  nat_eq, All,
}
use patent_landscapes.Health.{
  err, Text, ok, Result, HealthCheck, CheckResult, run_each, run_checks, healthy, Passes, outcome,
  all_ok, result_name, name_of, is_ok,
}

outcome_iff :
    (r : Result (Text × Text) Text)
    → (is_ok (outcome r).0 ≡ true) ↔ ((detail : Text) × (r ≡ ok detail))
unfolding outcome
outcome_iff (ok detail) = (λ h. (detail, refl), λ h. refl)
outcome_iff (err e) = (λ h. cc, λ h. (let q = h.1 in cc))

chosen_ok : {E A : Type 0} (e : E) (b : Bool) (r s : A) → (if b then ok r else err e) ≡ ok s → r ≡ s
chosen_ok e true r s h = cc
chosen_ok e false r s h = cc

module _ (clock : ℕ → ℕ) where
  run_each-names :
      (i : ℕ) (checks : List HealthCheck)
      → map result_name (run_each clock i checks) ≡ map name_of checks
  unfolding run_each
  run_each-names i [] = refl
  run_each-names i (check ∷ checks) =
      ap (λ names. check.name ∷ names) (run_each-names (i + 2) checks)

  run_each-ok :
      (i : ℕ) (checks : List HealthCheck)
      → (all_ok (run_each clock i checks) ≡ true) ↔ All Passes checks
  unfolding run_each
  run_each-ok i [] = (λ h. tt, λ h. refl)
  run_each-ok i (check ∷ checks) =
      let ih = run_each-ok (i + 2) checks in
      let here = outcome_iff check.run in
      (
        λ h. (here.0 (ground arith), ih.0 (ground arith)),
        λ h. let a = here.1 h.0 in let b = ih.1 h.1 in ground arith,
      )

  healthy_iff :
      (i : ℕ) (check : HealthCheck) (checks : List HealthCheck)
      → (healthy (run_each clock i (check ∷ checks)) ≡ true) ↔ All Passes (check ∷ checks)
  unfolding run_each
  healthy_iff i check checks = run_each-ok i (check ∷ checks)

  -- Where `run_checks` returns a report, the report names every check in its place, and it is
  -- healthy exactly when the run of every check returned.
  pub run_checks-healthy :
      (checks : List HealthCheck) (results : List CheckResult)
      → run_checks clock checks ≡ ok results
      → (map result_name results ≡ map name_of checks)
        × ((healthy results ≡ true) ↔ All Passes checks)
  unfolding run_checks
  run_checks-healthy [] results h = cc
  run_checks-healthy (check ∷ checks) results h =
      subst
        (λ rs.
          (map result_name rs ≡ map name_of (check ∷ checks))
          × ((healthy rs ≡ true) ↔ All Passes (check ∷ checks)))
        (chosen_ok _ _ (run_each clock 0 (check ∷ checks)) results h)
        (run_each-names 0 (check ∷ checks), healthy_iff 0 check checks)
