-- ===== src/Taxonomy/Segment.antt =====
-- `_segment_from_draft` of src/patsquire_plr/landscape/taxonomy.py.
use patent_landscapes.Base.{
  Bool, true, false, not, Option, none, some, List, [], ◌∷◌, ◌++◌, map, if◌then◌else◌, is_some,
  nat_eq, take, drop, filter, keep_if,
}
use patent_landscapes.Base.Text.{Text, Unicode, Letters, text_eq, text_beq, strip}
use patent_landscapes.Base.Dict.{distinct_from}
use patent_landscapes.Base.Result.{Result, ok, err}
use patent_landscapes.Taxonomy.Spec.{
  TermFault, term_problem, KeywordGroup, SegmentSpec, is_segment, Reason, not_usable,
  too_many_synonyms,
}
use patent_landscapes.Taxonomy.Error.{TaxonomyError, not_a_segment}

pub record DraftKeyword : Type 0 where
  pub term : Text
  pub synonyms : List Text

pub record DraftSegment : Type 0 where
  pub name : Text
  pub definition : Text
  pub includes : List Text
  pub excludes : List Text
  pub keywords : List DraftKeyword

abbrev pub is_nonempty : Text → Bool
is_nonempty [] = false
is_nonempty (c ∷ s) = true

-- `[s.strip() for s in texts if s.strip()]`.
unfoldable pub stripped : Unicode → List Text → List Text
unfolding strip
stripped u ts = filter is_nonempty (map (strip u) ts)

-- The terms that `usable` refuses, with their faults.
abbrev pub with_fault : Text → Option TermFault → List (Text × Reason) → List (Text × Reason)
with_fault t none bad = bad
with_fault t (some f) bad = (t, not_usable f) ∷ bad

abbrev pub faults : Unicode → Letters → List Text → List (Text × Reason)
faults u l [] = []
faults u l (t ∷ ts) = with_fault t (term_problem u l t) (faults u l ts)

abbrev pub is_usable : Unicode → Letters → Text → Bool
is_usable u l t = not (is_some (term_problem u l t))

abbrev pub too_many : List Text → List (Text × Reason)
too_many ts = map (λ (t : Text). (t, too_many_synonyms)) ts

-- The synonyms of a keyword, once each and none the term itself.
unfoldable pub candidate_synonyms : Unicode → Letters → DraftKeyword → List Text
unfolding stripped strip
candidate_synonyms u l k =
    filter (λ s. not (text_beq (l.casefold s) (l.casefold (strip u k.term))))
      (distinct_from [] (stripped u k.synonyms))

-- The loop over a segment's keywords: the groups, and the terms set aside.
unfoldable pub groups_of :
    Unicode → Letters → List DraftKeyword → List KeywordGroup × List (Text × Reason)
unfolding candidate_synonyms term_problem strip
groups_of u l [] = ([], [])
groups_of u l (k ∷ ks) =
    let rest = groups_of u l ks in
    let t = strip u k.term in
    let candidates = candidate_synonyms u l k in
    let usable = filter (is_usable u l) candidates in
    (
      keep_if (is_usable u l t) (record { term = t; synonyms = take 12 usable }) rest.0,
      faults u l candidates ++ (too_many (drop 12 usable) ++ (faults u l (t ∷ []) ++ rest.1)),
    )

-- The `SegmentSpec` of a draft, before its validation.
unfoldable pub drafted_spec : Unicode → DraftSegment → Text → List KeywordGroup → SegmentSpec
unfolding stripped strip
drafted_spec u d id groups = record {
  id = id;
  name = strip u d.name;
  definition = strip u d.definition;
  includes = stripped u d.includes;
  excludes = stripped u d.excludes;
  keywords = groups;
  cpc = [];
}

abbrev pub validated_spec :
    Unicode
    → Letters
    → Text
    → SegmentSpec
    → List (Text × Reason)
    → Result TaxonomyError (SegmentSpec × List (Text × Reason))
validated_spec u l name spec bad =
    if is_segment u l spec then ok (spec, bad) else err (not_a_segment name)

-- `_segment_from_draft`.
unfoldable pub segment_from_draft :
    Unicode
    → Letters
    → DraftSegment
    → Text
    → Result TaxonomyError (SegmentSpec × List (Text × Reason))
unfolding groups_of drafted_spec is_segment
segment_from_draft u l d id =
    let found = groups_of u l d.keywords in
    validated_spec u l d.name (drafted_spec u d id found.0) found.1
