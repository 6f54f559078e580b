-- ===== src/Ingest/Run/Outcomes.antt =====
-- When the rows of a batch have no mismatch, and when its report is complete.
use patent_landscapes.Base.Text.{text_beq, Text, text_le, text_eq}
use patent_landscapes.Base.{
  ◌↔◌, sym, some, none, Option, subst, All-append, All-of-IsIn, IsIn, Bool-cases, map-append, ◌++◌,
  ◌||◌, inr, inl, ℕ, zero, suc, ◌<◌, ◌≡◌, refl, ap, ◌∙◌, Bool, true, false, not, List, [], ◌∷◌, map,
  arith, is_some, nat_eq, length, filter, All, All-map,
}
use patent_landscapes.Base.Result.{ok}
use patent_landscapes.Base.Dict.{distinct_from-new, get, contains, distinct_from}
use patent_landscapes.Base.Sort.{sorted}
use patent_landscapes.Ingest.Model.{
  stored, quarantined, duplicate, not_found, invalid_request, failed, complete, is_final,
  ItemOutcome, Store, Mismatch, raw_records, documents_stored,
}
use patent_landscapes.Ingest.Batch.{has_final, pending, latest_from, latest_outcomes}
use patent_landscapes.Ingest.Reconcile.{
  failed_keys_of, status_of, is_failed, key_of, unknown_keys, missing_keys, mismatches_of,
  unless_equal,
}
use patent_landscapes.Ingest.Run.Items.{get-latest_from, Adds, item_key, latest_from-keys}
use patent_landscapes.Ingest.Run.Consistent.{IsConsistent, count_up}

-- Every item is for a key of the batch.
abbrev pub IsKnown : Store → Type 0
IsKnown s = All (λ k. contains k s.batch.keys ≡ true) (map item_key s.items)

-- Every key of the batch has an outcome.
abbrev pub IsAnswered : Store → Type 0
IsAnswered s = All (λ k. is_some (get k (latest_outcomes s)) ≡ true) s.batch.keys

filter-none :
    {A : Type 0} (p : A → Bool) (xs : List A) → All (λ x. p x ≡ false) xs → filter p xs ≡ []
filter-none p [] h = refl
filter-none p (x ∷ xs) h = rw (h.0) (filter-none p xs h.1)

unknown_keys-none : (s : Store) → IsKnown s → unknown_keys (latest_outcomes s) s.batch.keys ≡ []
unfolding unknown_keys latest_outcomes
unknown_keys-none s h =
    ap (sorted text_le) (
      filter-none (λ k. not (contains k s.batch.keys)) (map key_of (latest_from [] s.items))
        (All-map (λ k e. ap not e) (map key_of (latest_from [] s.items))
          (latest_from-keys (λ k. contains k s.batch.keys ≡ true) [] s.items tt h)))
    ∙ (unfold sorted in refl)

missing_keys-none : (s : Store) → IsAnswered s → missing_keys (latest_outcomes s) s.batch.keys ≡ []
unfolding missing_keys
missing_keys-none s h =
    filter-none (λ k. not (is_some (get k (latest_outcomes s)))) s.batch.keys
      (All-map (λ k e. ap not e) s.batch.keys h)

-- Nothing seen is at least as large as what is counted.
contains-count_up : (k n : ℕ) (seen : List ℕ) → All (λ i. i < k) seen → contains k seen ≡ false
contains-count_up k n [] h = refl
contains-count_up k n (i ∷ seen) h = ground (arith, contains-count_up k n seen h.1, h.0)

distinct_from-count_up :
    (k n : ℕ) (seen : List ℕ)
    → All (λ i. i < k) seen
    → distinct_from seen (count_up k n) ≡ count_up k n
distinct_from-count_up k zero seen h = refl
distinct_from-count_up k (suc n) seen h =
    distinct_from-new k seen (count_up (suc k) n) (contains-count_up k n seen h)
    ∙ ap (λ xs. k ∷ xs)
        (distinct_from-count_up (suc k) n (k ∷ seen)
          (omega arith, All-map (λ i l. omega arith) seen h))

length-count_up : (k n : ℕ) → length (count_up k n) ≡ n
length-count_up k zero = refl
length-count_up k (suc n) = ap suc (length-count_up (suc k) n)

unless_equal-none : (f : ℕ → ℕ → Mismatch) (m n : ℕ) → m ≡ n → unless_equal f m n ≡ []
unless_equal-none f m n e = ground arith

pub mismatches-none : (s : Store) → IsConsistent s → IsKnown s → IsAnswered s → mismatches_of s ≡ []
unfolding mismatches_of
mismatches-none s (ids, total) known answered =
    rw
      (
        unknown_keys-none s known,
        missing_keys-none s answered,
        ids,
        distinct_from-count_up 0 (length s.raws) [] tt,
        length-count_up 0 (length s.raws),
        unless_equal-none raw_records (length s.raws) (length s.raws) refl,
        unless_equal-none documents_stored _ _ total,
      )
      refl

contains-append :
    (k : Text) (xs ys : List Text) → contains k (xs ++ ys) ≡ (contains k xs || contains k ys)
contains-append k [] ys = refl
contains-append k (x ∷ xs) ys = ground (arith, contains-append k xs ys)

contains-filter :
    (p : Text → Bool) (k : Text) (xs : List Text)
    → contains k xs ≡ true
    → p k ≡ true
    → contains k (filter p xs) ≡ true
contains-filter p k [] h e = h
contains-filter p k (x ∷ xs) h e = elim (Bool-cases (text_beq x k)) [
  | inl q ↦ rw (ap p ((text_eq.beq_iff x k).0 q) ∙ e) (rw q refl)
  | inr q ↦
      let later = contains-filter p k xs ((rw q at h)) e in
      elim (Bool-cases (p x)) [ inl t ↦ rw (t, q) later | inr t ↦ rw t later ]
]

contains-IsIn : (k : Text) (xs : List Text) → IsIn k xs → contains k xs ≡ true
contains-IsIn k [] i = absurd i
contains-IsIn k (x ∷ xs) (inl q) = ground (arith, text_eq.beq_iff x k)
contains-IsIn k (x ∷ xs) (inr i) = ground (arith, contains-IsIn k xs i)

All-filter :
    {A : Type 0} (P : A → Type 0) (p : A → Bool) (xs : List A) → All P xs → All P (filter p xs)
All-filter P p [] h = tt
All-filter P p (x ∷ xs) h = elim (Bool-cases (p x)) [
  | inl e ↦ rw e (h.0, All-filter P p xs h.1)
  | inr e ↦ rw e (All-filter P p xs h.1)
]

pub pending-known : (s : Store) → All (λ k. contains k s.batch.keys ≡ true) (pending s)
unfolding pending
pending-known s =
    All-filter (λ k. contains k s.batch.keys ≡ true)
      (λ k. not (has_final (get k (latest_outcomes s)))) s.batch.keys
      (All-of-IsIn (λ k. contains k s.batch.keys ≡ true) s.batch.keys
        (λ k i. contains-IsIn k s.batch.keys i))

latest-contains :
    (k : Text) (s : Store) → is_some (get k (latest_outcomes s)) ≡ contains k (map item_key s.items)
unfolding latest_outcomes get
latest-contains k s = let at = get-latest_from k [] s.items in ground (arith, at)

or_comm_true : (b : Bool) → (b || true) ≡ true
or_comm_true true = refl
or_comm_true false = refl

has_final-is_some : (o : Option ItemOutcome) → has_final o ≡ true → is_some o ≡ true
has_final-is_some none h = cc
has_final-is_some (some o) h = refl

-- After items for the pending keys, every key of the batch has an outcome.
pub added-IsAnswered : (s s' : Store) → Adds (pending s) s (ok s') → IsAnswered s'
unfolding pending latest_outcomes
added-IsAnswered s s' (added, items, keys, batch) =
    All-of-IsIn (λ k. is_some (get k (latest_outcomes s')) ≡ true) s'.batch.keys
      (λ k i.
        latest-contains k s'
        ∙ rw (items, map-append, keys, contains-append k (map item_key s.items) (pending s))
            (answered k (subst (λ b. IsIn k b.keys) batch i)))
  where
    answered :
        (k : Text)
        → IsIn k s.batch.keys
        → (contains k (map item_key s.items) || contains k (pending s)) ≡ true
    answered k i = elim (Bool-cases (has_final (get k (latest_outcomes s)))) [
      | inl e ↦
          rw (sym (latest-contains k s) ∙ has_final-is_some (get k (latest_outcomes s)) e) refl
      | inr e ↦
          let now =
            contains-filter (λ j. not (has_final (get j (latest_outcomes s)))) k s.batch.keys
              (contains-IsIn k s.batch.keys i) (ap not e) in
          rw now (or_comm_true (contains k (map item_key s.items)))
    ]

pub added-IsKnown : (s s' : Store) → IsKnown s → Adds (pending s) s (ok s') → IsKnown s'
added-IsKnown s s' known (added, items, keys, batch) =
    rw (items, batch, map-append)
      (All-append (λ k. contains k s.batch.keys ≡ true) (map item_key s.items) (map item_key added)
        known (rw keys (pending-known s)))

failed_iff :
    (o : Option ItemOutcome) → is_some o ≡ true → (is_failed o ≡ false) ↔ (has_final o ≡ true)
failed_iff none h = (λ e. cc, λ e. cc)
failed_iff (some o) h = go o
  where
    go : (o : ItemOutcome) → (is_failed (some o) ≡ false) ↔ (is_final o ≡ true)
    go stored = (λ e. refl, λ e. refl)
    go quarantined = (λ e. refl, λ e. refl)
    go duplicate = (λ e. refl, λ e. refl)
    go not_found = (λ e. refl, λ e. refl)
    go invalid_request = (λ e. refl, λ e. refl)
    go failed = (λ e. cc, λ e. cc)

filter-nil_iff :
    {A : Type 0} (p : A → Bool) (xs : List A) → (filter p xs ≡ []) ↔ All (λ x. p x ≡ false) xs
filter-nil_iff p [] = (λ h. tt, λ h. refl)
filter-nil_iff p (x ∷ xs) = (go (filter-nil_iff p xs).0, filter-none p (x ∷ xs))
  where
    go :
        (filter p xs ≡ [] → All (λ x. p x ≡ false) xs)
        → filter p (x ∷ xs) ≡ []
        → All (λ x. p x ≡ false) (x ∷ xs)
    go ih h = elim (Bool-cases (p x)) [
      | inl e ↦ (let k = (rw e at h) in cc)
      | inr e ↦ (e, ih (rw e at h))
    ]

-- Every key of the batch has a final outcome.
abbrev pub IsFinal : Store → Type 0
IsFinal s = All (λ k. has_final (get k (latest_outcomes s)) ≡ true) s.batch.keys

status-complete :
    (failed_keys : List Text) → (status_of [] failed_keys ≡ complete) ↔ (failed_keys ≡ [])
status-complete [] = (λ h. refl, λ h. refl)
status-complete (k ∷ ks) = (λ h. cc, λ h. cc)

All-zip :
    {A : Type 0} (P Q R : A → Type 0) (xs : List A)
    → ((a : A) → P a → Q a → R a)
    → All P xs
    → All Q xs
    → All R xs
All-zip P Q R [] f h k = tt
All-zip P Q R (x ∷ xs) f h k = (f x h.0 k.0, All-zip P Q R xs f h.1 k.1)

pub status_iff :
    (s : Store)
    → IsAnswered s
    → (status_of [] (failed_keys_of (latest_outcomes s) s.batch.keys) ≡ complete) ↔ IsFinal s
unfolding failed_keys_of
status_iff s answered =
    let keys = s.batch.keys in
    let latest = latest_outcomes s in
    let c = status-complete (failed_keys_of latest keys) in
    let n = filter-nil_iff (λ k. is_failed (get k latest)) keys in
    (
      λ h.
          All-zip (λ k. is_some (get k latest) ≡ true) (λ k. is_failed (get k latest) ≡ false)
            (λ k. has_final (get k latest) ≡ true) keys (λ k a e. (failed_iff (get k latest) a).0 e)
            answered (n.0 (c.0 h)),
      λ h. c.1 (
          n.1 (
            All-zip (λ k. is_some (get k latest) ≡ true) (λ k. has_final (get k latest) ≡ true)
              (λ k. is_failed (get k latest) ≡ false) keys
              (λ k a e. (failed_iff (get k latest) a).1 e) answered h)),
    )
