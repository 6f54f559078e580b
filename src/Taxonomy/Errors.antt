-- ===== src/Taxonomy/Errors.antt =====
-- The errors that the steps of `draft_taxonomy` in src/patsquire_plr/landscape/taxonomy.py raise before
-- its specification is built: none is that of the validators of `TaxonomySpec`.
use patent_landscapes.Base.{
  take, Bool-cases, some, none, Option, inr, inl, ◌≡◌, List, [], ◌∷◌, arith, nat_eq, length,
}
use patent_landscapes.Taxonomy.Error.{unknown_hint, not_a_spec}
use patent_landscapes.Taxonomy.Ids.{segment_id}
use patent_landscapes.Cpc.Search.{CpcMatch, search_titles}
use patent_landscapes.Taxonomy.Segment.{DraftSegment, segment_from_draft, drafted_spec, groups_of}
use patent_landscapes.Base.Result.{Result, ok, err, bind-err}
use patent_landscapes.Base.Dict.{get}
use patent_landscapes.Cpc.Scheme.{CpcScheme}
use patent_landscapes.Cpc.Within.{CpcCheck, check}
use patent_landscapes.Taxonomy.Spec.{SegmentSpec, ResolvedCpc, is_segment, terms}
use patent_landscapes.Taxonomy.Draft.{
  Setting, Drafting, Limits, StructuredModel, model_answer, pick, named, found_candidates,
  draft_new, draft_named, draft_one, draft_all, select_variables,
}
use patent_landscapes.Taxonomy.Hints.{subclasses, subclasses_of, subclass_of, name_key}
use patent_landscapes.Base.Text.{Text, Unicode, Letters, text_eq}

pub model_answer_lem : {A : Type 0} (r : Result Text A) → ¬ (model_answer r ≡ err not_a_spec)
model_answer_lem (ok a) = λ h. ground arith
model_answer_lem (err e) = λ h. ground arith

subclasses_of-error :
    (u : Unicode) (s : CpcScheme) (hints : List Text) → ¬ (subclasses_of u s hints ≡ err not_a_spec)
unfolding subclasses_of
subclasses_of-error u s [] = λ h. ground arith
subclasses_of-error u s (hint ∷ hints) =
    let rest = subclasses_of-error u s hints in
    λ h. elim (bind-err (subclass_of (check u s hint)) _ not_a_spec h) [
      | inl q ↦ hint_error (check u s hint) q
      | inr (c, a, h1) ↦ elim (bind-err (subclasses_of u s hints) _ not_a_spec h1) [
        | inl q ↦ rest q
        | inr (cs, b, h2) ↦ ground arith
      ]
    ]
  where
    hint_error_at :
        (o : Option Text) (c : CpcCheck)
        → ¬ (
            (elim o [ none ↦ err (unknown_hint c.problem) | some t ↦ ok (take 4 t) ])
            ≡ err not_a_spec)
    hint_error_at none c = λ h. ground arith
    hint_error_at (some t) c = λ h. ground arith

    hint_error : (c : CpcCheck) → ¬ (subclass_of c ≡ err not_a_spec)
    hint_error c = hint_error_at c.symbol c

pub subclasses-error :
    (u : Unicode) (s : CpcScheme) (hints : List Text) → ¬ (subclasses u s hints ≡ err not_a_spec)
unfolding subclasses
subclasses-error u s hints h = elim (bind-err (subclasses_of u s hints) _ not_a_spec h) [
  | inl q ↦ subclasses_of-error u s hints q
  | inr (cs, a, h1) ↦ ground arith
]

segment-error :
    (u : Unicode) (l : Letters) (d : DraftSegment) (id : Text)
    → ¬ (segment_from_draft u l d id ≡ err not_a_spec)
unfolding segment_from_draft
segment-error u l d id h =
    let found = groups_of u l d.keywords in
    elim (Bool-cases (is_segment u l (drafted_spec u d id found.0))) [
      | inl e ↦ ground arith
      | inr e ↦ ground arith
    ]

pick-error :
    (l : Letters) (model : StructuredModel) (limits : Limits) (spec : SegmentSpec)
    (calls : List Text) (candidates : List ResolvedCpc)
    → ¬ (pick l model limits spec calls candidates ≡ err not_a_spec)
unfolding pick
pick-error l model limits spec calls [] = λ h. ground arith
pick-error l model limits spec calls (c ∷ cs) = λ h.
    elim (bind-err
      (model_answer (model.select (length calls) (select_variables l limits spec (c ∷ cs)))) _
      not_a_spec h) [
        | inl q ↦
            model_answer_lem (model.select (length calls) (select_variables l limits spec (c ∷ cs)))
              q
        | inr (answer, a, h1) ↦ ground arith
      ]

named-error : (o : Option Text) → ¬ (named o ≡ err not_a_spec)
named-error none = λ h. ground arith
named-error (some id) = λ h. ground arith

found-error : (o : Option (List CpcMatch)) → ¬ (found_candidates o ≡ err not_a_spec)
found-error none = λ h. ground arith
found-error (some ms) = λ h. ground arith

draft_new-error :
    (g : Setting) (key : Text) (d : Drafting) (drafted : DraftSegment)
    → ¬ (draft_new g key d drafted ≡ err not_a_spec)
unfolding draft_new
draft_new-error g key d drafted h =
    elim (bind-err (named (segment_id g.letters g.to_ascii drafted.name d.taken)) _ not_a_spec h) [
      | inl q ↦ named-error _ q
      | inr (id, a, h1) ↦
          elim (bind-err (segment_from_draft g.unicode g.letters drafted id) _ not_a_spec h1) [
            | inl q ↦ segment-error g.unicode g.letters drafted id q
            | inr (made, b, h2) ↦
                elim (bind-err
                  (found_candidates (
                    search_titles g.unicode g.letters g.scheme (terms g.letters made.0) g.within
                      g.limits.candidates_per_segment))
                  _ not_a_spec h2) [
                    | inl q ↦ found-error _ q
                    | inr (candidates, c, h3) ↦
                        elim (bind-err (pick g.letters g.model g.limits made.0 d.calls candidates) _
                          not_a_spec h3) [
                            | inl q ↦
                                pick-error g.letters g.model g.limits made.0 d.calls candidates q
                            | inr (picks, e, h4) ↦ ground arith
                          ]
                  ]
          ]
    ]

pub draft_all-error :
    (g : Setting) (d : Drafting) (ss : List DraftSegment) → ¬ (draft_all g d ss ≡ err not_a_spec)
unfolding draft_all draft_one
draft_all-error g d [] = λ h. ground arith
draft_all-error g d (x ∷ ss) = λ h. elim (bind-err (draft_one g d x) _ not_a_spec h) [
  | inl q ↦ one_error (get (name_key g.unicode g.letters x.name) d.names) q
  | inr (e, a, h1) ↦ draft_all-error g e ss h1
]
  where
    one_error :
        (o : Option Text)
        → ¬ (draft_named g (name_key g.unicode g.letters x.name) d x o ≡ err not_a_spec)
    one_error none = draft_new-error g (name_key g.unicode g.letters x.name) d x
    one_error (some id) = λ h. ground arith
