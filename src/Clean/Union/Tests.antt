-- ===== src/Clean/Union/Tests.antt =====
-- The union-find on a few calls.
use patent_landscapes.Base.{◌≡◌, refl, ◌↔◌, some, List, [], ◌∷◌, nat_eq}
use patent_landscapes.Base.Text.{text_le, text_beq, Text, text_eq, codes}
use patent_landscapes.Clean.Union.{Parents, Step, visit, join, run_steps}
use patent_landscapes.Clean.Union.Roots.{IsSame}
use patent_landscapes.Clean.Union.Linked.{IsLinked, run_steps-IsLinked}

abbrev steps : List Step
steps =
    visit (codes "c")
    ∷ join (codes "c") (codes "d")
    ∷ join (codes "b") (codes "d")
    ∷ join (codes "a") (codes "c")
    ∷ visit (codes "e")
    ∷ visit (codes "d")
    ∷ []

run_steps_lem :
    run_steps [] steps
    ≡ some (
        (codes "c", codes "a")
        ∷ (codes "d", codes "a")
        ∷ (codes "b", codes "a")
        ∷ (codes "a", codes "a")
        ∷ (codes "e", codes "e")
        ∷ [])
unfolding run_steps text_beq text_le
run_steps_lem = refl

run_steps-IsLinked_example :
    (q : Parents) × (run_steps [] steps ≡ some q)
    × ((x y : Text) → IsSame q x y ↔ IsLinked steps x y)
run_steps-IsLinked_example = run_steps-IsLinked steps
