-- ===== src/Taxonomy/Content.antt =====
-- What `draft_taxonomy` of src/patsquire_plr/landscape/taxonomy.py returns, and what it never raises.
use patent_landscapes.Base.{
  inr, inl, ℕ, ◌≤◌, ◌≡◌, subst, true, List, [], ◌∷◌, arith, nat_eq, length, All,
}
use patent_landscapes.Taxonomy.Error.{not_a_spec}
use patent_landscapes.Taxonomy.Segment.{DraftSegment}
use patent_landscapes.Base.Result.{ok, err, bind-ok, bind-err}
use patent_landscapes.Cpc.Scheme.{CpcScheme}
use patent_landscapes.Taxonomy.Spec.{SegmentSpec, TaxonomyContent, has_unique_ids}
use patent_landscapes.Taxonomy.Draft.{
  Setting, Drafting, Limits, Scope, StructuredModel, Answer, model_answer, draft_all,
  start_drafting, finished, drafted_content, is_spec, check_count, count_names, draft_variables,
  draft_taxonomy,
}
use patent_landscapes.Taxonomy.Hints.{subclasses}
use patent_landscapes.Base.Text.{Text, Unicode, Letters, text_eq}
use patent_landscapes.Taxonomy.Drafted.{IsFilled, IsBegun, drafted-IsDrafted, begun-is_spec}
use patent_landscapes.Taxonomy.Errors.{model_answer_lem, subclasses-error, draft_all-error}

abbrev pub setting :
    Unicode → Letters → (Text → Text) → StructuredModel → CpcScheme → Limits → List Text → Setting
setting u l to_ascii model s limits within = record {
  unicode = u;
  letters = l;
  to_ascii = to_ascii;
  model = model;
  scheme = s;
  limits = limits;
  within = within;
}

count_lem :
    (u : Unicode) (l : Letters) (ss : List DraftSegment) (most count : ℕ)
    → check_count (count_names u l ss) most ≡ ok count
    → 1 ≤ length ss
unfolding count_names
count_lem u l [] most count h = ground arith
count_lem u l (s ∷ ss) most count h = omega arith

module _ (u : Unicode) (l : Letters) (to_ascii : Text → Text) (model : StructuredModel)
    (s : CpcScheme) (scope : Scope) (limits : Limits) where
  -- A draft that is returned went through its steps.
  begun_lem :
      (within : List Text) (answer : Answer (List DraftSegment)) (count : ℕ) (d : Drafting)
      → check_count (count_names u l answer.value) limits.max_segments ≡ ok count
      → draft_all
          (setting u l to_ascii model s limits within)
          (start_drafting answer.cache_key)
          answer.value
        ≡ ok d
      → IsBegun (setting u l to_ascii model s limits within) d
  begun_lem within answer count d h k =
      drafted-IsDrafted (setting u l to_ascii model s limits within) answer.cache_key d answer.value
        (count_lem u l answer.value limits.max_segments count h) k

  -- A taxonomy that is drafted has at least one segment, and segments with different identifiers,
  -- each of which its validator accepted before its codes were filled in. The codes of each, which
  -- are also held under its identifier, are those that the model's picks for it name, in order, once
  -- each and up to the limit, of the candidates that the title search finds for its terms in the
  -- hinted subclasses.
  pub draft_taxonomy-IsFilled :
      (content : TaxonomyContent) (calls : List Text)
      → draft_taxonomy u l to_ascii model s scope limits ≡ ok (content, calls)
      → (within : List Text) × (subclasses u s scope.cpc_hints ≡ ok within)
        × (has_unique_ids content.spec.segments ≡ true)
        × (1 ≤ length content.spec.segments)
        × All
            (IsFilled (setting u l to_ascii model s limits within) content.cpc)
            content.spec.segments
  unfolding draft_taxonomy finished
  draft_taxonomy-IsFilled content calls h =
      let (answer, a, h1) =
        bind-ok (model_answer (model.draft (draft_variables scope limits))) _ (content, calls) h in
      let (count, b, h2) =
        bind-ok (check_count (count_names u l answer.value) limits.max_segments) _ (content, calls)
          h1 in
      let (within, c, h3) = bind-ok (subclasses u s scope.cpc_hints) _ (content, calls) h2 in
      let g = setting u l to_ascii model s limits within in
      let (d, e, h4) =
        bind-ok (draft_all g (start_drafting answer.cache_key) answer.value) _ (content, calls)
          h3 in
      let begun = begun_lem within answer count d b e in
      let spec = begun-is_spec g d begun in
      let same : drafted_content scope.topic s d ≡ content = ground arith in
      let holds = λ (t : TaxonomyContent).
        (has_unique_ids t.spec.segments ≡ true)
        × (1 ≤ length t.spec.segments)
        × All (IsFilled g t.cpc) t.spec.segments in
      let rest : holds content = subst holds same (unique d.segments spec, begun.1, begun.0.2) in
      (within, c, rest.0, rest.1, rest.2)
    where
      unique : (ss : List SegmentSpec) → is_spec ss ≡ true → has_unique_ids ss ≡ true
      unique [] q = cc
      unique (t ∷ ts) q = q

  -- Drafting never fails at the validators of `TaxonomySpec`: identifiers are never repeated, and
  -- there is a segment.
  pub draft_taxonomy-validators :
      ¬ (draft_taxonomy u l to_ascii model s scope limits ≡ err not_a_spec)
  unfolding draft_taxonomy finished
  draft_taxonomy-validators h =
      elim (bind-err (model_answer (model.draft (draft_variables scope limits))) _ not_a_spec h) [
        | inl q ↦ model_answer_lem (model.draft (draft_variables scope limits)) q
        | inr (answer, a, h1) ↦
            elim (bind-err (check_count (count_names u l answer.value) limits.max_segments) _
              not_a_spec h1) [
                | inl q ↦ ground arith
                | inr (count, b, h2) ↦
                    elim (bind-err (subclasses u s scope.cpc_hints) _ not_a_spec h2) [
                      | inl q ↦ subclasses-error u s scope.cpc_hints q
                      | inr (within, c, h3) ↦
                          let g = setting u l to_ascii model s limits within in
                          elim (bind-err
                            (draft_all g (start_drafting answer.cache_key) answer.value) _
                            not_a_spec h3) [
                              | inl q ↦
                                  draft_all-error g (start_drafting answer.cache_key) answer.value q
                              | inr (d, e, h4) ↦
                                  let spec =
                                    begun-is_spec g d (begun_lem within answer count d b e) in
                                  ground arith
                            ]
                    ]
              ]
      ]
