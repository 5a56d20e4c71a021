-- ===== src/Model/Enums.antt =====
-- backend/app/models/enums.py: the statuses, the pipeline's stages and their canonical order.
use doc_mind_ai.Base.{ℕ, zero, suc, String, Bool, true, false, Option, none, some, List, [], ◌∷◌}

pub data DocumentStatus : Type 0 where
  pending processing indexed failed : DocumentStatus

pub data JobStage : Type 0 where
  extract clean chunk embed index : JobStage

pub data JobStatus : Type 0 where
  queued running done failed : JobStatus

unfoldable pub stage_value : JobStage → String
stage_value extract = "extract"
stage_value clean = "clean"
stage_value chunk = "chunk"
stage_value embed = "embed"
stage_value index = "index"

-- `_STAGE_ORDER`
abbrev pub stage_order : List JobStage
stage_order = extract ∷ clean ∷ chunk ∷ embed ∷ index ∷ []

-- `_STAGE_SEQUENCE`
abbrev pub stage_sequence : List (JobStage × String)
stage_sequence =
    (extract, "process_extract")
    ∷ (clean, "process_clean")
    ∷ (chunk, "process_chunk")
    ∷ (embed, "process_embed")
    ∷ (index, "process_index")
    ∷ []

abbrev pub same_stage : JobStage → JobStage → Bool
same_stage extract extract = true
same_stage clean clean = true
same_stage chunk chunk = true
same_stage embed embed = true
same_stage index index = true
same_stage _ _ = false

abbrev pub same_job_status : JobStatus → JobStatus → Bool
same_job_status queued queued = true
same_job_status running running = true
same_job_status done done = true
same_job_status failed failed = true
same_job_status _ _ = false

abbrev pub same_document_status : DocumentStatus → DocumentStatus → Bool
same_document_status pending pending = true
same_document_status processing processing = true
same_document_status indexed indexed = true
same_document_status failed failed = true
same_document_status _ _ = false

-- `{stage: i for i, (stage, _) in enumerate(_STAGE_SEQUENCE)}`, at the position of the stage.
position : JobStage → List (JobStage × String) → ℕ
position s [] = 0
position s ((t, name) ∷ rest) = elim (same_stage t s) [ true ↦ 0 | false ↦ suc (position s rest) ]

unfoldable pub stage_index : JobStage → ℕ
unfolding position
stage_index s = position s stage_sequence

entry : ℕ → List (JobStage × String) → Option (JobStage × String)
entry n [] = none
entry zero (x ∷ rest) = some x
entry (suc n) (x ∷ rest) = entry n rest

-- `_STAGE_SEQUENCE[i]`
unfoldable pub sequence_at : ℕ → Option (JobStage × String)
unfolding entry
sequence_at n = entry n stage_sequence

-- `_STAGE_TASK.get(stage)`
task_in : JobStage → List (JobStage × String) → Option String
task_in s [] = none
task_in s ((t, name) ∷ rest) = elim (same_stage t s) [ true ↦ some name | false ↦ task_in s rest ]

unfoldable pub stage_task : JobStage → Option String
unfolding task_in
stage_task s = task_in s stage_sequence
