-- ===== src/Health.antt =====
-- `run_checks` and `HealthReport.healthy` of src/patsquire_plr/health/runner.py. A check is its name
-- and what its run does: a detail, or the type and the message of what it raises. The clock is a
-- function from the number of readings before to the reading, in tenths of a millisecond.
use patent_landscapes.Base.Result.{err, ok, Result}
use patent_landscapes.Base.Text.{text_eq, codes, Text}
use patent_landscapes.Base.{
  ◌-◌, ◌+◌, ℕ, ◌≡◌, Bool, true, false, List, [], ◌∷◌, ◌++◌, map, ◌==◌, if◌then◌else◌, nat_eq,
  length, all,
}
use patent_landscapes.Base.Dict
pub mod Passing
pub mod Tests

pub data CheckStatus : Type 0 where
  status_ok failed : CheckStatus

pub record HealthCheck : Type 0 where
  pub name : Text
  pub run : Result (Text × Text) Text

pub record CheckResult : Type 0 where
  pub name : Text
  pub status : CheckStatus
  pub detail : Text
  pub duration : ℕ

pub data HealthError : Type 0 where
  no_checks : HealthError
  duplicate_names : List Text → HealthError

abbrev pub is_ok : CheckStatus → Bool
is_ok status_ok = true
is_ok failed = false

-- The exact words of `f"{type(exc).__name__}: {exc}"`.
abbrev pub raised : Text × Text → Text
raised (kind, message) = kind ++ codes ": " ++ message

-- The status and the detail of one check.
unfoldable pub outcome : Result (Text × Text) Text → CheckStatus × Text
outcome (ok detail) = (status_ok, detail)
outcome (err e) = (failed, raised e)

abbrev pub name_of : HealthCheck → Text
name_of check = check.name

module _ (clock : ℕ → ℕ) where
  -- The loop, the clock's next reading being the given one.
  unfoldable pub run_each : ℕ → List HealthCheck → List CheckResult
  unfolding outcome
  run_each i [] = []
  run_each i (check ∷ checks) =
      let (status, detail) = outcome check.run in
      record {
        name = check.name;
        status = status;
        detail = detail;
        duration = clock (i + 1) - clock i;
      }
      ∷ run_each (i + 2) checks

  -- `run_checks`.
  unfoldable pub run_checks : List HealthCheck → Result HealthError (List CheckResult)
  unfolding run_each
  run_checks [] = err no_checks
  run_checks (check ∷ checks) =
      let names = map name_of (check ∷ checks) in
      if length (Dict.distinct_from [] names) == length names
      then ok (run_each 0 (check ∷ checks))
      else err (duplicate_names names)

-- `healthy`.
abbrev pub healthy : List CheckResult → Bool
healthy [] = false
healthy (r ∷ rs) = all (λ (c : CheckResult). is_ok c.status) (r ∷ rs)

-- The check's run returns.
abbrev pub Passes : HealthCheck → Type 0
Passes check = (detail : Text) × (check.run ≡ ok detail)

abbrev pub result_name : CheckResult → Text
result_name r = r.name

abbrev pub all_ok : List CheckResult → Bool
all_ok rs = all (λ (c : CheckResult). is_ok c.status) rs
