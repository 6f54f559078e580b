-- ===== src/Discovery.antt =====
-- `_identity`, `_links` and `_choose` of src/patsquire_plr/landscape/discovery.py. The rows that
-- the database returns for the citations of a frontier are arguments; a document identifier is a
-- text.
use patent_landscapes.Base.Result.{ok, err, ◌>>=◌, Result}
use patent_landscapes.Base.Text.{text_eq, text_le, codes, text_beq, Text, Unicode}
use patent_landscapes.Base.{
  Eq, arith, true, ◌↔◌, ◌≡◌, ℕ, ◌+◌, ◌-◌, Bool, false, not, ◌&&◌, ◌||◌, Option, none, some, List,
  [], ◌∷◌, ◌++◌, map, ltb, ◌==◌, if◌then◌else◌, nat_eq, length, take,
}
use patent_landscapes.Base.Dict
use patent_landscapes.Base.Sort.{sorted}
use patent_landscapes.Publication.{NormalizationError, normalize_publication_number}
pub mod Best
pub mod Choose
pub mod Count
pub mod Tests

-- A publication without its kind: its office and its number.
abbrev pub Identity : Type 0
Identity = Text × Text

abbrev pub same_identity : Identity → Identity → Bool
same_identity a b = text_beq a.0 b.0 && text_beq a.1 b.1

pub same_identity_iff : (a b : Identity) → (same_identity a b ≡ true) ↔ (a ≡ b)
same_identity_iff (a, b) (c, d) = ground (arith, text_eq.beq_iff a c, text_eq.beq_iff b d)

instance abbrev pub identity_eq : Eq Identity
identity_eq = record { beq = same_identity; beq_iff = same_identity_iff }

-- What `_links` returns: for a publication the number of frontier documents that link to it, and
-- the spelling to request.
abbrev pub Links : Type 0
Links = List (Identity × (ℕ × Text))

-- A `Counter`: a key that is absent counts 0.
abbrev pub Counter : Type 0
Counter = List (Text × ℕ)

abbrev pub or_zero : Option ℕ → ℕ
or_zero none = 0
or_zero (some n) = n

-- `counter[key] += n`.
unfoldable pub increase : Text → ℕ → Counter → Counter
unfolding Dict.get Dict.put
increase key n counter = Dict.put key (or_zero (Dict.get key counter) + n) counter

-- `del counter[key]`.
unfoldable pub remove : Text → Counter → Counter
remove key [] = []
remove key ((k, n) ∷ counter) = if text_beq k key then counter else (k, n) ∷ remove key counter

abbrev pub already_requested : Text
already_requested = codes "already_requested"

abbrev pub office_out_of_scope : Text
office_out_of_scope = codes "office_out_of_scope"

abbrev pub over_cap : Text
over_cap = codes "over_cap"

-- The order of the tuples `(-count, number)`.
abbrev pub ranked : ℕ × Text → ℕ × Text → Bool
ranked a b = ltb b.0 a.0 || (a.0 == b.0 && text_le a.1 b.1)

-- `scope.countries and identity[0] not in scope.countries`.
abbrev pub out_of_scope : List Text → Identity → Bool
out_of_scope [] identity = false
out_of_scope (c ∷ cs) identity = not (Dict.contains identity.0 (c ∷ cs))

abbrev pub Ranking : Type 0
Ranking = List (ℕ × Text) × Counter

-- One step of the loop over `links.items()`.
unfoldable pub consider : List Identity → List Text → Identity × (ℕ × Text) → Ranking → Ranking
unfolding increase
consider seen countries (identity, link) (eligible, excluded) =
    if Dict.contains identity seen
    then (eligible, increase already_requested 1 excluded)
    else if out_of_scope countries identity
    then (eligible, increase office_out_of_scope 1 excluded)
    else (eligible ++ link ∷ [], excluded)

unfoldable pub consider_all : List Identity → List Text → Links → Ranking → Ranking
unfolding consider
consider_all seen countries [] r = r
consider_all seen countries (l ∷ links) r =
    consider_all seen countries links (consider seen countries l r)

-- `if not excluded["over_cap"]: del excluded["over_cap"]`.
unfoldable pub drop_zero : Counter → Counter
unfolding remove Dict.get
drop_zero excluded =
    if or_zero (Dict.get over_cap excluded) == 0 then remove over_cap excluded else excluded

abbrev pub number_of : ℕ × Text → Text
number_of r = r.1

-- What follows the loop: the numbers to fetch, and the counts of the others.
unfoldable pub cut : ℕ → Ranking → List Text × Counter
unfolding drop_zero increase sorted
cut cap (eligible, excluded) = (
  map number_of (take cap (sorted ranked eligible)),
  drop_zero (increase over_cap (length eligible - cap) excluded),
)

-- `_choose`.
unfoldable pub choose : Links → List Identity → List Text → ℕ → Counter → List Text × Counter
unfolding cut consider_all
choose links seen countries cap excluded =
    cut cap (consider_all seen countries links ([], excluded))

-- `_identity`.
unfoldable pub identity_of : Unicode → Text → Result NormalizationError Identity
unfolding normalize_publication_number
identity_of u number = normalize_publication_number u number >>= λ p. ok (p.country, p.number)

-- The state of `_links`: `linked`, with each set of documents in insertion order, `spellings` and
-- `unparseable`.
pub record Found : Type 0 where
  pub linked : List (Identity × List Text)
  pub spellings : List (Identity × Text)
  pub unparseable : List Text

-- `s.add(x)`.
abbrev pub add_to : Text → List Text → List Text
add_to x s = if Dict.contains x s then s else s ++ x ∷ []

abbrev pub docs_or_none : Option (List Text) → List Text
docs_or_none none = []
docs_or_none (some docs) = docs

-- `min(spellings.get(identity, number), number)`.
abbrev pub lower_spelling : Option Text → Text → Text
lower_spelling none number = number
lower_spelling (some s) number = if text_le s number then s else number

unfoldable pub add_identified : Text → Text → Result NormalizationError Identity → Found → Found
unfolding Dict.get Dict.put
add_identified document number (err e) found = record found {
  unparseable = add_to number found.unparseable;
}
add_identified document number (ok identity) found = record found {
  linked =
      Dict.put identity (add_to document (docs_or_none (Dict.get identity found.linked)))
        found.linked;
  spellings =
      Dict.put identity (lower_spelling (Dict.get identity found.spellings) number) found.spellings;
}

-- `add`.
unfoldable pub add : Unicode → Text × Option Text → Found → Found
unfolding add_identified identity_of
add u (document, none) found = found
add u (document, some number) found = add_identified document number (identity_of u number) found

unfoldable pub add_rows : Unicode → List (Text × Option Text) → Found → Found
unfolding add
add_rows u [] found = found
add_rows u (row ∷ rows) found = add_rows u rows (add u row found)

abbrev pub spelling_or_empty : Option Text → Text
spelling_or_empty none = []
spelling_or_empty (some s) = s

unfoldable pub counted : List (Identity × Text) → List (Identity × List Text) → Links
unfolding Dict.get
counted spellings [] = []
counted spellings ((identity, docs) ∷ linked) =
    (identity, (length docs, spelling_or_empty (Dict.get identity spellings)))
    ∷ counted spellings linked

-- The rows of one chunk of the frontier, backward and forward.
pub record Chunk : Type 0 where
  pub backward : List (Text × Option Text)
  pub forward : List (Text × Option Text)

abbrev pub nothing_found : Found
nothing_found = record { linked = []; spellings = []; unparseable = [] }

-- The loop over the chunks, in the directions that are asked for.
unfoldable pub rows_of : Bool → Bool → List Chunk → List (Text × Option Text)
rows_of backward forward [] = []
rows_of backward forward (c ∷ chunks) =
    (if backward then c.backward else [])
    ++ (if forward then c.forward else [])
    ++ rows_of backward forward chunks

-- The error or the result, once every row is added.
unfoldable pub links_of : Found → Result (List Text) Links
unfolding counted sorted
links_of found = elim found.unparseable [
  | [] ↦ ok (counted found.spellings found.linked)
  | n ∷ ns ↦ err (sorted text_le (n ∷ ns))
]

-- `_links`.
unfoldable pub links : Unicode → Bool → Bool → List Chunk → Result (List Text) Links
unfolding links_of add_rows rows_of
links u backward forward chunks =
    links_of (add_rows u (rows_of backward forward chunks) nothing_found)
