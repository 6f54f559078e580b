-- ===== src/Taxonomy/Edit.antt =====
-- `content_from_edit` of src/patsquire_plr/landscape/taxonomy.py: an edited specification as a new
-- version's content. What YAML and the validators make of the text is a parameter, the specification
-- or none for their errors.
use patent_landscapes.Base.{
  Bool, true, false, not, Option, none, some, List, [], ◌∷◌, ◌++◌, map, if◌then◌else◌, nat_eq,
  filter,
}
use patent_landscapes.Base.Text.{Text, Unicode, text_eq}
use patent_landscapes.Base.Dict.{get, put, set_default, contains}
use patent_landscapes.Base.Result.{Result, ok, err}
use patent_landscapes.Cpc.Scheme
use patent_landscapes.Cpc.Scheme.{CpcScheme, CpcEntry, EntryKind}
use patent_landscapes.Cpc.Within.{CpcCheck, CheckProblem, check}
use patent_landscapes.Taxonomy.Spec.{
  SegmentSpec, TaxonomySpec, ResolvedCpc, Rejected, TaxonomyContent,
}

pub data EditProblem : Type 0 where
  not_accepted : Text → Option CheckProblem → EditProblem
  too_broad : Text → Text → EntryKind → EditProblem

pub data EditError : Type 0 where
  not_valid : EditError
  wrong_codes : List EditProblem → EditError

-- A code's check with a title path and an entry, which are there for a symbol that is listed.
abbrev pub with_entry : Text → Text → Option CpcEntry → Option (Text × Text × CpcEntry)
with_entry symbol path none = none
with_entry symbol path (some e) = some (symbol, path, e)

abbrev pub listed_at : CpcScheme → Option Text → Option Text → Option (Text × Text × CpcEntry)
listed_at s none path = none
listed_at s (some symbol) none = none
listed_at s (some symbol) (some path) = with_entry symbol path (get symbol s.entries)

abbrev pub listed_entry : CpcScheme → CpcCheck → Option (Text × Text × CpcEntry)
listed_entry s c = listed_at s c.symbol c.title_path

abbrev pub is_broad : EntryKind → Bool
is_broad Scheme.section = true
is_broad Scheme.class = true
is_broad Scheme.subclass = false
is_broad Scheme.main_group = false
is_broad Scheme.subgroup = false

abbrev pub Resolved : Type 0
Resolved = List (Text × ResolvedCpc)

abbrev pub at_path : Text → Text → ResolvedCpc
at_path symbol path = record { symbol = symbol; title_path = path }

abbrev pub resolve_entry :
    Text
    → Option CheckProblem
    → Option (Text × Text × CpcEntry)
    → Resolved × List EditProblem
    → Resolved × List EditProblem
resolve_entry id problem none (resolved, problems) =
    (resolved, problems ++ (not_accepted id problem ∷ []))
resolve_entry id problem (some (symbol, path, e)) (resolved, problems) =
    if is_broad e.kind
    then (resolved, problems ++ (too_broad id symbol e.kind ∷ []))
    else (set_default symbol (at_path symbol path) resolved, problems)

-- The loop over a segment's codes.
unfoldable pub resolve_codes :
    Unicode
    → CpcScheme
    → Text
    → Resolved × List EditProblem
    → List Text
    → Resolved × List EditProblem
unfolding check get
resolve_codes u s id state [] = state
resolve_codes u s id state (code ∷ codes) =
    let c = check u s code in
    resolve_codes u s id (resolve_entry id c.problem (listed_entry s c) state) codes

abbrev pub resolved_values : Resolved → List ResolvedCpc
resolved_values d = map (λ (p : Text × ResolvedCpc). p.1) d

abbrev pub resolved_symbols : Resolved → List Text
resolved_symbols d = map (λ (p : Text × ResolvedCpc). p.0) d

pub record Editing : Type 0 where
  pub chosen : List (Text × List ResolvedCpc)
  pub segments : List SegmentSpec
  pub problems : List EditProblem

abbrev pub add_edited : Editing → SegmentSpec → Resolved × List EditProblem → Editing
add_edited e segment (resolved, problems) = record {
  chosen = put segment.id (resolved_values resolved) e.chosen;
  segments = e.segments ++ (record segment { cpc = resolved_symbols resolved } ∷ []);
  problems = problems;
}

-- The loop over the segments.
unfoldable pub edit_segments : Unicode → CpcScheme → Editing → List SegmentSpec → Editing
unfolding resolve_codes
edit_segments u s e [] = e
edit_segments u s e (segment ∷ segments) =
    edit_segments u s
      (add_edited e segment (resolve_codes u s segment.id ([], e.problems) segment.cpc)) segments

abbrev pub or_none_held {ℓ} : {A : Type ℓ} → Option (List A) → List A
or_none_held none = []
or_none_held (some xs) = xs

-- The suggestions and choices of the version before, for a segment.
unfoldable pub pool_of : Option TaxonomyContent → Text → List ResolvedCpc
unfolding get
pool_of none id = []
pool_of (some previous) id =
    or_none_held (get id previous.suggestions) ++ or_none_held (get id previous.cpc)

abbrev pub keep_candidate : CpcCheck → Resolved → Resolved
keep_candidate c kept = elim c.symbol [
  | none ↦ kept
  | some symbol ↦ elim c.title_path [
    | none ↦ kept
    | some path ↦ set_default symbol (at_path symbol path) kept
  ]
]

unfoldable pub keep_pool : Unicode → CpcScheme → Resolved → List ResolvedCpc → Resolved
unfolding check
keep_pool u s kept [] = kept
keep_pool u s kept (c ∷ pool) = keep_pool u s (keep_candidate (check u s c.symbol) kept) pool

abbrev pub symbols_chosen : List ResolvedCpc → List Text
symbols_chosen cs = map (λ (c : ResolvedCpc). c.symbol) cs

unfoldable pub suggestions_for :
    Unicode → CpcScheme → Option TaxonomyContent → Text → List ResolvedCpc → List ResolvedCpc
unfolding keep_pool pool_of
suggestions_for u s previous id chosen =
    filter (λ (c : ResolvedCpc). not (contains c.symbol (symbols_chosen chosen)))
      (resolved_values (keep_pool u s [] (pool_of previous id)))

abbrev pub suggest :
    Unicode
    → CpcScheme
    → Option TaxonomyContent
    → List (Text × List ResolvedCpc)
    → List (Text × List ResolvedCpc)
suggest u s previous chosen =
    map (λ (p : Text × List ResolvedCpc). (p.0, suggestions_for u s previous p.0 p.1)) chosen

abbrev pub rejected_before : Option TaxonomyContent → List Rejected
rejected_before none = []
rejected_before (some previous) = previous.rejected

abbrev pub edited_content :
    Unicode → CpcScheme → Option TaxonomyContent → Text → Editing → TaxonomyContent
edited_content u s previous topic e = record {
  spec = record { topic = topic; segments = e.segments };
  cpc_scheme_version = s.version;
  cpc = e.chosen;
  suggestions = suggest u s previous e.chosen;
  rejected = rejected_before previous;
}

abbrev pub unless_problems :
    Unicode
    → CpcScheme
    → Option TaxonomyContent
    → Text
    → Editing
    → List EditProblem
    → Result EditError TaxonomyContent
unless_problems u s previous topic e [] = ok (edited_content u s previous topic e)
unless_problems u s previous topic e (p ∷ ps) = err (wrong_codes (p ∷ ps))

abbrev pub no_edits : Editing
no_edits = record { chosen = []; segments = []; problems = [] }

-- `content_from_edit`, from the validated specification on.
unfoldable pub content_from_edit :
    Unicode
    → CpcScheme
    → Option TaxonomyContent
    → Option TaxonomySpec
    → Result EditError TaxonomyContent
unfolding edit_segments suggestions_for
content_from_edit u s previous none = err not_valid
content_from_edit u s previous (some spec) =
    let e = edit_segments u s no_edits spec.segments in
    unless_problems u s previous spec.topic e e.problems
