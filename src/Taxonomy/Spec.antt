-- ===== src/Taxonomy/Spec.antt =====
-- `KeywordGroup`, `SegmentSpec`, `TaxonomySpec`, `TaxonomyContent` and `term_problem` of
-- src/patsquire_plr/landscape/taxonomy.py, with their validators as tests.
use patent_landscapes.Base.{
  ℕ, Bool, false, not, ◌&&◌, ◌||◌, Option, none, some, List, [], ◌∷◌, ◌++◌, map, leb, ◌==◌,
  if◌then◌else◌, is_some, nat_eq, length, any, all,
}
use patent_landscapes.Base.Text.{Text, Unicode, Letters, text_eq, text_beq, codes, strip, is_digit}
use patent_landscapes.Base.Dict.{contains, distinct_from, set_default}
use patent_landscapes.Cpc.Search.{TermProblem}

pub data TermFault : Type 0 where
  surrounding_spaces wrong_length no_letters_or_digits query_syntax : TermFault

-- The characters that `TERM` excludes.
abbrev pub query_characters : Text
query_characters = codes "\"'\\()[]{}*?#=<>|~^:;,\n\r\t"

-- `term_problem`.
unfoldable pub term_problem : Unicode → Letters → Text → Option TermFault
unfolding strip
term_problem u l term =
    if not (text_beq term (strip u term))
    then some surrounding_spaces
    else if not (leb 2 (length term) && leb (length term) 80)
    then some wrong_length
    else if not (any l.is_word term)
    then some no_letters_or_digits
    else if any (λ c. contains c query_characters) term
    then some query_syntax
    else none

pub record KeywordGroup : Type 0 where
  pub term : Text
  pub synonyms : List Text

pub record SegmentSpec : Type 0 where
  pub id : Text
  pub name : Text
  pub definition : Text
  pub includes : List Text
  pub excludes : List Text
  pub keywords : List KeywordGroup
  pub cpc : List Text

abbrev pub terms_in_order : List KeywordGroup → List Text
terms_in_order [] = []
terms_in_order (g ∷ gs) = (g.term ∷ g.synonyms) ++ terms_in_order gs

abbrev pub first_terms : Letters → List (Text × Text) → List Text → List (Text × Text)
first_terms l seen [] = seen
first_terms l seen (t ∷ ts) = first_terms l (set_default (l.casefold t) t seen) ts

abbrev pub term_values : List (Text × Text) → List Text
term_values d = map (λ (p : Text × Text). p.1) d

-- `SegmentSpec.terms`.
unfoldable pub terms : Letters → SegmentSpec → List Text
terms l segment = term_values (first_terms l [] (terms_in_order segment.keywords))

abbrev pub is_lower : ℕ → Bool
is_lower c = leb b'a' c && leb c b'z'

-- `SEGMENT_ID`.
abbrev pub is_segment_id : Text → Bool
is_segment_id [] = false
is_segment_id (c ∷ s) =
    is_lower c && (all (λ d. is_lower d || (is_digit d || d == b'_')) s && leb (length s) 39)

abbrev pub is_between : ℕ → ℕ → ℕ → Bool
is_between low high n = leb low n && leb n high

abbrev pub is_term : Unicode → Letters → Text → Bool
is_term u l t = not (is_some (term_problem u l t))

abbrev pub is_group : Unicode → Letters → KeywordGroup → Bool
is_group u l g = is_term u l g.term && (all (is_term u l) g.synonyms && leb (length g.synonyms) 12)

-- The validation of a `SegmentSpec`.
unfoldable pub is_segment : Unicode → Letters → SegmentSpec → Bool
unfolding term_problem
is_segment u l s =
    is_segment_id s.id
    && (is_between 2 120 (length s.name)
        && (is_between 10 1000 (length s.definition)
            && (is_between 1 20 (length s.keywords)
                && (all (is_group u l) s.keywords && leb (length s.cpc) 30))))

pub record TaxonomySpec : Type 0 where
  pub topic : Text
  pub segments : List SegmentSpec

abbrev pub ids_of : List SegmentSpec → List Text
ids_of ss = map (λ (s : SegmentSpec). s.id) ss

-- `TaxonomySpec._unique_ids`.
unfoldable pub has_unique_ids : List SegmentSpec → Bool
has_unique_ids ss = length (distinct_from [] (ids_of ss)) == length (ids_of ss)

pub record ResolvedCpc : Type 0 where
  pub symbol : Text
  pub title_path : Text

abbrev pub resolved_beq : ResolvedCpc → ResolvedCpc → Bool
resolved_beq a b = text_beq a.symbol b.symbol && text_beq a.title_path b.title_path

pub data RejectedKind : Type 0 where
  segment cpc term cpc_search : RejectedKind

-- The messages of what was not accepted.
pub data Reason : Type 0 where
  same_name no_entry_matched not_offered chosen_twice : Reason
  not_usable : TermFault → Reason
  too_many_synonyms : Reason
  not_searched : TermProblem → Reason
  over_limit : ℕ → Reason

pub record Rejected : Type 0 where
  pub segment_id : Text
  pub kind : RejectedKind
  pub value : Text
  pub problem : Reason

pub record TaxonomyContent : Type 0 where
  pub spec : TaxonomySpec
  pub cpc_scheme_version : Text
  pub cpc : List (Text × List ResolvedCpc)
  pub suggestions : List (Text × List ResolvedCpc)
  pub rejected : List Rejected
