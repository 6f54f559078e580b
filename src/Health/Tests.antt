-- ===== src/Health/Tests.antt =====
-- The runner at a check that passes and one that raises.
use patent_landscapes.Base.Text.{text_beq}
use patent_landscapes.Base.{◌≡◌, refl, ◌↔◌, true, List, [], ◌∷◌, map, nat_eq, All}
use patent_landscapes.Health.{
  err, ok, codes, HealthCheck, CheckResult, run_checks, healthy, Passes, result_name, name_of,
  duplicate_names, failed, status_ok,
}
use patent_landscapes.Health.Passing.{run_checks-healthy}

abbrev database : HealthCheck
database = record { name = codes "database"; run = ok (codes "reachable") }

abbrev storage : HealthCheck
storage = record { name = codes "storage"; run = err (codes "OSError", codes "full") }

abbrev report : List CheckResult
report =
    record { name = codes "database"; status = status_ok; detail = codes "reachable"; duration = 1 }
    ∷ record {
      name = codes "storage";
      status = failed;
      detail = codes "OSError: full";
      duration = 1;
    }
    ∷ []

two_checks : run_checks (λ i. i) (database ∷ storage ∷ []) ≡ ok report
unfolding run_checks text_beq
two_checks = refl

same_names :
    run_checks (λ i. i) (database ∷ database ∷ [])
    ≡ err (duplicate_names (codes "database" ∷ codes "database" ∷ []))
unfolding run_checks text_beq
same_names = refl

run_checks-healthy_example :
    (map result_name report ≡ map name_of (database ∷ storage ∷ []))
    × ((healthy report ≡ true) ↔ All Passes (database ∷ storage ∷ []))
run_checks-healthy_example = run_checks-healthy (λ i. i) (database ∷ storage ∷ []) report two_checks
