-- ===== src/Pipeline/Stages.antt =====
-- `build_pipeline` of app/services/pipeline.py: the stages of a view.
use document_intelligence_mv.Prelude.{
  ℕ, ◌≡◌, ◌+◌, refl, Bool, true, arith, List, [], ◌∷◌, map, ◌==◌, Text, Option, All, Pairs,
  if◌then◌else◌,
}
use document_intelligence_mv.Models.{Document, IngestionJob}
use document_intelligence_mv.Pipeline.{
  Stage, uploaded, parsed, chunked, embedded, indexed, ready, PipelineStage, PipelineView,
  build_pipeline, done, first_open, pipeline_stages, stage_eq,
}

-- A later stage that is complete makes every earlier one complete.
abbrev pub InLine : List PipelineStage → Type 0
InLine stages = Pairs (λ a b. b.complete ≡ true → a.complete ≡ true) stages

-- How many stages are marked as the current one.
abbrev pub marked : List PipelineStage → ℕ
marked [] = 0
marked (s ∷ stages) = (if s.current then 1 else 0) + marked stages

-- The current stage is marked, is the stage that the view names, and is open unless all is complete.
abbrev pub CurrentIs : PipelineView → PipelineStage → Type 0
CurrentIs v s =
    s.current ≡ true
    → (s.id ≡ v.current_stage) × (s.complete ≡ true → All (λ t. t.complete ≡ true) v.stages)

-- A dict of stages, from the facts of a document.
abbrev Chain : (Stage → Bool) → Type 0
Chain f =
    (f uploaded ≡ true)
    × (f chunked ≡ true → f parsed ≡ true)
    × (f embedded ≡ true → f chunked ≡ true)
    × (f indexed ≡ true → f embedded ≡ true)
    × (f ready ≡ true → f indexed ≡ true)

done-Chain : (d : Document) (chunks : ℕ) → Chain (done d chunks)
unfolding done
done-Chain d chunks =
    (refl, λ h. ground arith, λ h. ground arith, λ h. ground arith, λ h. ground arith)

stages_of : (Stage → Bool) → List PipelineStage
stages_of f =
    map
      (λ stage. record {
        id = stage;
        complete = f stage;
        current = stage == first_open f pipeline_stages;
      })
      pipeline_stages

InLine-stages_of : (f : Stage → Bool) → Chain f → InLine (stages_of f)
unfolding stages_of first_open
InLine-stages_of f c = ground arith

marked-stages_of : (f : Stage → Bool) → Chain f → marked (stages_of f) ≡ 1
unfolding stages_of first_open stage_eq
marked-stages_of f c = ground arith

current-stages_of :
    (f : Stage → Bool)
    → Chain f
    → All
        (λ s.
          s.current ≡ true
          → (s.id ≡ first_open f pipeline_stages)
            × (s.complete ≡ true → All (λ t. t.complete ≡ true) (stages_of f)))
        (stages_of f)
unfolding stages_of first_open stage_eq
current-stages_of f c = ground arith

-- In every view a completed stage has only completed stages before it, exactly one stage is current,
-- and the current one is not complete unless all six are.
pub build_pipeline-stages :
    (lower : Text → Text) (d : Document) (chunks : ℕ) (job : Option IngestionJob)
    → let v = build_pipeline lower d chunks job in
      InLine v.stages × (marked v.stages ≡ 1) × All (CurrentIs v) v.stages
build_pipeline-stages lower d chunks job =
    unfold build_pipeline stages_of in
    (
      InLine-stages_of (done d chunks) (done-Chain d chunks),
      marked-stages_of (done d chunks) (done-Chain d chunks),
      current-stages_of (done d chunks) (done-Chain d chunks),
    )
