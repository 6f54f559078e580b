-- ===== src/Patent/Conditions.antt =====
-- The conditions on the parts of a document, each with the validator that decides it
-- (src/patsquire_plr/domain/patent.py).
use patent_landscapes.Base.{
  subst, All-map, Option-cases, ◌||◌, inr, inl, ℕ, ◌+◌, ◌≤◌, ◌≡◌, refl, ◌≢◌, ◌↔◌, Bool, true, false,
  not, Option, none, some, List, [], ◌∷◌, ◌++◌, arith, ◌==◌, nat_eq, any, All,
}
use patent_landscapes.Base.Text.{Text, text_eq}
use patent_landscapes.Base.Dict
use patent_landscapes.Publication.{text}
use patent_landscapes.Patent.{
  min, publication_problems, priority_problems, earliest, family_problems, scheme_problems,
  role_problems, has_scheme, has_role, field_eq, CanonicalField, PatentDocument, Party, Role,
  Scheme, ClassificationCode, Priority, Problem, xor_problem, report, in_sequence, has_repeats,
}

-- Numbered n, n + 1, ... in order.
abbrev pub IsNumbered : ℕ → List Party → Type 0
IsNumbered n [] = Unit
IsNumbered n (p ∷ ps) = (p.sequence ≡ n) × IsNumbered (n + 1) ps

abbrev pub IsDistinct : List Text → Type 0
IsDistinct [] = Unit
IsDistinct (x ∷ xs) = All (λ y. y ≢ x) xs × IsDistinct xs

abbrev pub PartiesAre : Role → Option (List Party) → Type 0
PartiesAre role none = Unit
PartiesAre role (some ps) = All (λ p. p.role ≡ role) ps × IsNumbered 1 ps

abbrev pub CodesAre : Scheme → Option (List ClassificationCode) → Type 0
CodesAre scheme none = Unit
CodesAre scheme (some cs) = All (λ c. c.scheme ≡ scheme) cs

abbrev pub FamilyIs : Text → Option (List Text) → Type 0
FamilyIs own none = Unit
FamilyIs own (some ms) = All (λ m. m ≢ own) ms × IsDistinct ms

-- A stated earliest date is a lower bound of the listed priorities, and the date of one of them.
abbrev pub EarliestIs : Option (List Priority) → Option ℕ → Type 0
EarliestIs (some (p ∷ ps)) (some date) =
    All (λ q. date ≤ q.date) (p ∷ ps) × (any (λ q. q.date == date) (p ∷ ps) ≡ true)
EarliestIs _ _ = Unit

abbrev pub FiledBefore : Option ℕ → Option ℕ → Type 0
FiledBefore (some filed) (some published) = filed ≤ published
FiledBefore _ _ = Unit

pub append_nil_iff : {A : Type 0} (xs ys : List A) → (xs ++ ys ≡ []) ↔ ((xs ≡ []) × (ys ≡ []))
append_nil_iff [] ys = (λ h. (refl, h), λ h. h.1)
append_nil_iff (x ∷ xs) ys = (λ h. cc, λ h. cc (h.0))

report_iff : (b : Bool) (p : Problem) → (report b p ≡ []) ↔ (b ≡ false)
report_iff b p = ground arith

pub xor_iff : (a b : Bool) (p q : Problem) → (xor_problem a b p q ≡ []) ↔ (a ≡ not b)
xor_iff a b p q = ground arith

any-not_iff :
    {A : Type 0} (t : A → Bool) (xs : List A)
    → (any (λ x. not (t x)) xs ≡ false) ↔ All (λ x. t x ≡ true) xs
any-not_iff t [] = (λ h. tt, λ h. refl)
any-not_iff t (x ∷ xs) = ground (arith, any-not_iff t xs)

in_sequence_iff : (n : ℕ) (ps : List Party) → (in_sequence n ps ≡ true) ↔ IsNumbered n ps
unfolding in_sequence
in_sequence_iff n [] = (λ h. tt, λ h. refl)
in_sequence_iff n (p ∷ ps) = ground (arith, in_sequence_iff (n + 1) ps)

contains_iff : (x : Text) (xs : List Text) → (Dict.contains x xs ≡ false) ↔ All (λ y. y ≢ x) xs
contains_iff x [] = (λ h. tt, λ h. refl)
contains_iff x (y ∷ ys) = ground (arith, contains_iff x ys, text_eq.beq_iff y x)

has_repeats_iff : (xs : List Text) → (has_repeats xs ≡ false) ↔ IsDistinct xs
unfolding has_repeats
has_repeats_iff [] = (λ h. tt, λ h. refl)
has_repeats_iff (x ∷ xs) = ground (arith, contains_iff x xs, has_repeats_iff xs)

pub All-of : {A : Type 0} {P : A → Type 0} → ((a : A) → P a) → (xs : List A) → All P xs
All-of h [] = tt
All-of h (x ∷ xs) = (h x, All-of h xs)

has_role_iff : (role : Role) (p : Party) → (has_role role p ≡ true) ↔ (p.role ≡ role)
has_role_iff role p = ground arith

has_scheme_iff :
    (scheme : Scheme) (c : ClassificationCode) → (has_scheme scheme c ≡ true) ↔ (c.scheme ≡ scheme)
has_scheme_iff scheme c = ground arith

All-iff :
    {A : Type 0} {P Q : A → Type 0} → ((a : A) → P a ↔ Q a) → (xs : List A) → All P xs ↔ All Q xs
All-iff h xs = (All-map (λ a. (h a).0) xs, All-map (λ a. (h a).1) xs)

pub role_problems_iff :
    (f : CanonicalField) (role : Role) (ps : Option (List Party))
    → (role_problems f role ps ≡ []) ↔ PartiesAre role ps
unfolding role_problems
role_problems_iff f role none = (λ h. tt, λ h. refl)
role_problems_iff f role (some ps) =
    let parts =
      append_nil_iff (report (any (λ p. not (has_role role p)) ps) (Problem.wrong_role f))
        (report (not (in_sequence 1 ps)) (Problem.wrong_sequence f)) in
    let roles = any-not_iff (has_role role) ps in
    let each = All-iff (has_role_iff role) ps in
    let numbers = in_sequence_iff 1 ps in
    (
      λ h. (
        each.0 (roles.0 ((report_iff _ _).0 (parts.0 h).0)),
        numbers.0 (
            ground (
              arith,
              (report_iff (not (in_sequence 1 ps)) (Problem.wrong_sequence f)).0 (parts.0 h).1,
            )),
      ),
      λ h. parts.1 (
        (report_iff _ _).1 (roles.1 (each.1 h.0)),
        (report_iff _ _).1 (ground (arith, numbers.1 h.1)),
      ),
    )

pub scheme_problems_iff :
    (f : CanonicalField) (scheme : Scheme) (cs : Option (List ClassificationCode))
    → (scheme_problems f scheme cs ≡ []) ↔ CodesAre scheme cs
unfolding scheme_problems
scheme_problems_iff f scheme none = (λ h. tt, λ h. refl)
scheme_problems_iff f scheme (some cs) =
    let codes = any-not_iff (has_scheme scheme) cs in
    let each = All-iff (has_scheme_iff scheme) cs in
    (λ h. each.0 (codes.0 ((report_iff _ _).0 h)), λ h. (report_iff _ _).1 (codes.1 (each.1 h)))

pub family_problems_iff :
    (d : PatentDocument) → (family_problems d ≡ []) ↔ FamilyIs (text d.publication) d.family_members
unfolding family_problems
family_problems_iff d = elim (Option-cases d.family_members) [
  | inl e ↦ rw e (λ h. tt, λ h. refl)
  | inr (ms, e) ↦ rw e (
      let own = text d.publication in
      let parts =
        append_nil_iff (report (Dict.contains own ms) Problem.lists_itself)
          (report (has_repeats ms) Problem.repeats) in
      let itself = contains_iff own ms in
      let repeated = has_repeats_iff ms in
      (
        λ h. (
          itself.0 ((report_iff _ _).0 (parts.0 h).0),
          repeated.0 ((report_iff _ _).0 (parts.0 h).1),
        ),
        λ h. parts.1 ((report_iff _ _).1 (itself.1 h.0), (report_iff _ _).1 (repeated.1 h.1)),
      ))
]

-- The fold of `min` is a lower bound and is reached, and there is only one such number.
earliest_lem :
    (d : ℕ) (ps : List Priority)
    → (earliest d ps ≤ d)
      × All (λ q. earliest d ps ≤ q.date) ps
      × ((d == earliest d ps || any (λ q. q.date == earliest d ps) ps) ≡ true)
earliest_lem d [] = ground arith
earliest_lem d (p ∷ ps) = ground (arith, earliest_lem (min d p.date) ps)

bound-le :
    (bound date : ℕ) (xs : List Priority)
    → All (λ q. bound ≤ q.date) xs
    → any (λ q. q.date == date) xs ≡ true
    → bound ≤ date
bound-le bound date [] h r = cc
bound-le bound date (x ∷ xs) h r = ground (arith, bound-le bound date xs h.1)

earliest_iff :
    (p : Priority) (ps : List Priority) (date : ℕ)
    → (earliest p.date ps ≡ date) ↔ EarliestIs (some (p ∷ ps)) (some date)
earliest_iff p ps date =
    let (first, others, reached) = earliest_lem p.date ps in
    (
      λ h. subst (λ t. EarliestIs (some (p ∷ ps)) (some t)) h ((first, others), reached),
      λ h. omega (
        arith,
        bound-le (earliest p.date ps) date (p ∷ ps) (first, others) h.1,
        bound-le date (earliest p.date ps) (p ∷ ps) h.0 reached,
      ),
    )

pub priority_problems_iff :
    (ps : Option (List Priority)) (date : Option ℕ)
    → (priority_problems ps date ≡ []) ↔ EarliestIs ps date
unfolding priority_problems
priority_problems_iff none date = (λ h. tt, λ h. refl)
priority_problems_iff (some []) date = (λ h. tt, λ h. refl)
priority_problems_iff (some (p ∷ ps)) none = (λ h. tt, λ h. refl)
priority_problems_iff (some (p ∷ ps)) (some date) =
    let e = earliest_iff p ps date in
    (
      λ h. e.0 (
          ground
            (arith, (report_iff (not (earliest p.date ps == date)) Problem.earliest_differs).0 h)),
      λ h. (report_iff _ _).1 (ground (arith, e.1 h)),
    )

pub publication_problems_iff :
    (filed published : Option ℕ)
    → (publication_problems filed published ≡ []) ↔ FiledBefore filed published
unfolding publication_problems
publication_problems_iff filed published = ground arith
