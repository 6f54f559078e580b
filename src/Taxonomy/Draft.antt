-- ===== src/Taxonomy/Draft.antt =====
-- `draft_taxonomy` of src/patsquire_plr/landscape/taxonomy.py, with `_subclasses`. The gateway is a
-- parameter: what its two structured calls answer, the second by the number of calls before.
use patent_landscapes.Base.{
  ℕ, Bool, false, not, ◌&&◌, Option, none, some, List, [], ◌∷◌, ◌++◌, map, leb, if◌then◌else◌,
  nat_eq, length, filter, any,
}
use patent_landscapes.Base.Text.{Text, Unicode, Letters, text_eq, codes, join}
use patent_landscapes.Base.Dict.{distinct_from, get, put}
use patent_landscapes.Base.Number.{str}
use patent_landscapes.Base.Result.{Result, ok, err, ◌>>=◌}
use patent_landscapes.Cpc.Scheme.{CpcScheme}
use patent_landscapes.Cpc.Search.{CpcMatch, TermProblem, search_titles, search_term_problems}
use patent_landscapes.Taxonomy.Spec.{
  SegmentSpec, terms, has_unique_ids, ResolvedCpc, resolved_beq, RejectedKind, segment, cpc, term,
  cpc_search, Reason, same_name, no_entry_matched, not_searched, Rejected, TaxonomyContent,
}
use patent_landscapes.Taxonomy.Error.{TaxonomyError, model_failed, wrong_count, not_a_spec, no_end}
use patent_landscapes.Taxonomy.Ids.{segment_id}
use patent_landscapes.Taxonomy.Segment.{DraftSegment, segment_from_draft}
use patent_landscapes.Taxonomy.Pick.{accept_picks}
use patent_landscapes.Taxonomy.Hints.{subclasses, name_key}

-- A value that the model gave, and the cache key of the call.
pub record Answer (A : Type 0) : Type 0 where
  pub value : A
  pub cache_key : Text

-- What `gateway.structured` answers to the two prompts, by the variables; the second also by the
-- number of calls before. A failure carries its message.
pub record StructuredModel : Type 0 where
  pub draft : List (Text × Text) → Result Text (Answer (List DraftSegment))
  pub select : ℕ → List (Text × Text) → Result Text (Answer (List Text))

abbrev pub model_answer : {A : Type 0} → Result Text A → Result TaxonomyError A
model_answer (ok a) = ok a
model_answer (err e) = err (model_failed e)

-- The variables of the loop of `draft_taxonomy`.
pub record Drafting : Type 0 where
  pub calls : List Text
  pub taken : List Text
  pub segments : List SegmentSpec
  pub chosen : List (Text × List ResolvedCpc)
  pub suggestions : List (Text × List ResolvedCpc)
  pub rejected : List Rejected
  pub names : List (Text × Text)

-- The part of the scope that drafting reads, and its limits.
pub record Scope : Type 0 where
  pub topic : Text
  pub notes : Text
  pub cpc_hints : List Text

pub record Limits : Type 0 where
  pub max_segments : ℕ
  pub candidates_per_segment : ℕ
  pub max_cpc_per_segment : ℕ

abbrev pub reject : Text → RejectedKind → Text × Reason → Rejected
reject id kind (value, problem) = record {
  segment_id = id;
  kind = kind;
  value = value;
  problem = problem;
}

abbrev pub unsearched : Text × TermProblem → Text × Reason
unsearched (t, p) = (t, not_searched p)

abbrev pub resolved : CpcMatch → ResolvedCpc
resolved m = record { symbol = m.symbol; title_path = m.title_path }

abbrev pub symbols_of : List ResolvedCpc → List Text
symbols_of cs = map (λ (c : ResolvedCpc). c.symbol) cs

abbrev pub candidate_line : ResolvedCpc → Text
candidate_line c = c.symbol ++ (codes ": " ++ c.title_path)

unfoldable pub select_variables :
    Letters → Limits → SegmentSpec → List ResolvedCpc → List (Text × Text)
unfolding terms str
select_variables l limits spec candidates =
    (codes "name", spec.name)
    ∷ (codes "definition", spec.definition)
    ∷ (codes "keywords", join (codes "; ") (terms l spec))
    ∷ (codes "candidates", join (codes "\n") (map candidate_line candidates))
    ∷ (codes "max_codes", str limits.max_cpc_per_segment)
    ∷ []

-- The picks for the candidates, and the keys of the calls so far: without candidates, no call.
unfoldable pub pick :
    Letters
    → StructuredModel
    → Limits
    → SegmentSpec
    → List Text
    → List ResolvedCpc
    → Result TaxonomyError (List Text × List Text)
unfolding select_variables
pick l model limits spec calls [] = ok ([], calls)
pick l model limits spec calls (c ∷ cs) =
    model_answer (model.select (length calls) (select_variables l limits spec (c ∷ cs)))
    >>= λ answer. ok (answer.value, calls ++ (answer.cache_key ∷ []))

abbrev pub no_candidates : SegmentSpec → List ResolvedCpc → List Rejected
no_candidates spec [] = reject spec.id cpc_search (spec.name, no_entry_matched) ∷ []
no_candidates spec (c ∷ cs) = []

abbrev pub with_cpc : SegmentSpec → List ResolvedCpc → SegmentSpec
with_cpc spec accepted = record spec { cpc = symbols_of accepted }

-- The rest of the loop's body, once the model has picked.
unfoldable pub add_segment :
    Unicode
    → Letters
    → Limits
    → Text
    → Drafting
    → SegmentSpec
    → List (Text × Reason)
    → List ResolvedCpc
    → List Text × List Text
    → Drafting
unfolding accept_picks search_term_problems terms
add_segment u l limits key d spec bad candidates (picks, calls) =
    let picked = accept_picks u picks candidates limits.max_cpc_per_segment in
    record {
      calls = calls;
      taken = spec.id ∷ d.taken;
      segments = d.segments ++ (with_cpc spec picked.0 ∷ []);
      chosen = put spec.id picked.0 d.chosen;
      suggestions =
          put spec.id (filter (λ c. not (any (resolved_beq c) picked.0)) candidates) d.suggestions;
      rejected =
          d.rejected
          ++ (map (reject spec.id term) bad
              ++ (map (reject spec.id cpc_search)
                    (map unsearched (search_term_problems u l (terms l spec)))
                  ++ (no_candidates spec candidates ++ map (reject spec.id cpc) picked.1)));
      names = put key spec.id d.names;
    }

abbrev pub found_candidates : Option (List CpcMatch) → Result TaxonomyError (List ResolvedCpc)
found_candidates none = err no_end
found_candidates (some ms) = ok (map resolved ms)

abbrev pub named : Option Text → Result TaxonomyError Text
named none = err no_end
named (some id) = ok id

-- What the loop reads and does not change.
pub record Setting : Type 0 where
  pub unicode : Unicode
  pub letters : Letters
  pub to_ascii : Text → Text
  pub model : StructuredModel
  pub scheme : CpcScheme
  pub limits : Limits
  pub within : List Text

-- The body of the loop for a segment with a new name.
unfoldable pub draft_new : Setting → Text → Drafting → DraftSegment → Result TaxonomyError Drafting
unfolding segment_id segment_from_draft search_titles pick add_segment terms
draft_new g key d drafted = named (segment_id g.letters g.to_ascii drafted.name d.taken) >>= λ id.
    segment_from_draft g.unicode g.letters drafted id >>= λ made.
    found_candidates (
      search_titles g.unicode g.letters g.scheme (terms g.letters made.0) g.within
        g.limits.candidates_per_segment)
    >>= λ candidates. pick g.letters g.model g.limits made.0 d.calls candidates >>= λ picks.
        ok (add_segment g.unicode g.letters g.limits key d made.0 made.1 candidates picks)

abbrev pub reject_name : Drafting → Text → Text → Drafting
reject_name d id name = record d {
  rejected = d.rejected ++ (reject id segment (name, same_name) ∷ []);
}

abbrev pub draft_named :
    Setting → Text → Drafting → DraftSegment → Option Text → Result TaxonomyError Drafting
draft_named g key d drafted none = draft_new g key d drafted
draft_named g key d drafted (some id) = ok (reject_name d id drafted.name)

-- The body of the loop.
unfoldable pub draft_one : Setting → Drafting → DraftSegment → Result TaxonomyError Drafting
unfolding draft_new name_key
draft_one g d drafted =
    let key = name_key g.unicode g.letters drafted.name in
    draft_named g key d drafted (get key d.names)

unfoldable pub draft_all : Setting → Drafting → List DraftSegment → Result TaxonomyError Drafting
unfolding draft_one
draft_all g d [] = ok d
draft_all g d (s ∷ ss) = draft_one g d s >>= λ e. draft_all g e ss

-- The content, of a `TaxonomySpec` that its validators accept.
abbrev pub drafted_content : Text → CpcScheme → Drafting → TaxonomyContent
drafted_content topic s d = record {
  spec = record { topic = topic; segments = d.segments };
  cpc_scheme_version = s.version;
  cpc = d.chosen;
  suggestions = d.suggestions;
  rejected = d.rejected;
}

abbrev pub is_spec : List SegmentSpec → Bool
is_spec [] = false
is_spec (s ∷ ss) = has_unique_ids (s ∷ ss)

unfoldable pub finished :
    Text → CpcScheme → Drafting → Result TaxonomyError (TaxonomyContent × List Text)
unfolding has_unique_ids
finished topic s d =
    if is_spec d.segments then ok (drafted_content topic s d, d.calls) else err not_a_spec

abbrev pub or_nothing : Text → Text
or_nothing [] = codes "(none)"
or_nothing (c ∷ s) = c ∷ s

unfoldable pub draft_variables : Scope → Limits → List (Text × Text)
unfolding str
draft_variables scope limits =
    (codes "topic", scope.topic)
    ∷ (codes "notes", or_nothing scope.notes)
    ∷ (codes "max_segments", str limits.max_segments)
    ∷ []

abbrev pub start_drafting : Text → Drafting
start_drafting cache_key = record {
  calls = cache_key ∷ [];
  taken = [];
  segments = [];
  chosen = [];
  suggestions = [];
  rejected = [];
  names = [];
}

-- The number of distinct names.
unfoldable pub count_names : Unicode → Letters → List DraftSegment → ℕ
unfolding name_key
count_names u l ss = length (distinct_from [] (map (λ (s : DraftSegment). name_key u l s.name) ss))

abbrev pub check_count : ℕ → ℕ → Result TaxonomyError ℕ
check_count count most =
    if leb 2 count && leb count most then ok count else err (wrong_count count most)

-- `draft_taxonomy`.
unfoldable pub draft_taxonomy :
    Unicode
    → Letters
    → (Text → Text)
    → StructuredModel
    → CpcScheme
    → Scope
    → Limits
    → Result TaxonomyError (TaxonomyContent × List Text)
unfolding draft_variables count_names subclasses draft_all finished
draft_taxonomy u l to_ascii model s scope limits =
    model_answer (model.draft (draft_variables scope limits)) >>= λ answer.
    check_count (count_names u l answer.value) limits.max_segments >>= λ count.
    subclasses u s scope.cpc_hints >>= λ within.
    draft_all
      (record {
        unicode = u;
        letters = l;
        to_ascii = to_ascii;
        model = model;
        scheme = s;
        limits = limits;
        within = within;
      })
      (start_drafting answer.cache_key) answer.value
    >>= λ d. finished scope.topic s d
