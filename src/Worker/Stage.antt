-- ===== src/Worker/Stage.antt =====
-- backend/app/workers/tasks.py: `run_stage` and what it calls, around the body of a stage.
-- Each `async with AsyncSessionLocal()` block is one transaction. Between two of them other
-- workers, the sweeper and the API may change the world: `before_body` and `before_end`.
use doc_mind_ai.Base.{
  ℕ, ◌+◌, ◌*◌, ◌^◌, ◌-◌, min, Bool, true, false, Option, none, some, List, [], ◌∷◌, ◌++◌, String,
  if◌then◌else◌, ◌==◌, leb, length,
}
use doc_mind_ai.Model.Enums.{JobStage, stage_sequence, stage_index, sequence_at}
use doc_mind_ai.Model.Errors.{
  ErrorClass, object_not_found, document_not_found, job_not_found, job_already_done,
  job_already_failed, invalid_transition, type_error, value_error, key_error, attribute_error,
  connection_error, timeout_error, runtime_error, retry, cancelled, is_permanent_error, number,
  Text, Error, error, describe, exhausted, Result, ok, raise,
}
use doc_mind_ai.Model.Details.{Details}
use doc_mind_ai.Model.Rows.{Job, Db}
use doc_mind_ai.Repositories.Session.{transaction}
use doc_mind_ai.Ingester.Methods.{start_stage, fail_stage, complete_stage, record_attempt}

-- The database, the storage backend and the queue of arq, as (task, job id).
pub record World : Type 0 where
  pub db : Db
  pub storage : List (String × List ℕ)
  pub queue : List (String × ℕ)

-- `StageFn`, applied to `ctx`: the body of a stage, with the document's id.
abbrev pub StageFn : Type 0
StageFn = ℕ → World → Result Details × World

-- What `redis.enqueue_job` does: a job, `None` for a known `_job_id`, or an exception.
pub data Reply : Type 0 where
  accepted duplicate : Reply
  fails : Error → Reply

pub record Env : Type 0 where
  pub job_try : ℕ  -- `ctx["job_try"]`
  pub max_tries : ℕ  -- `settings.job_settings.max_tries`
  pub start_time : ℕ
  pub end_time : ℕ
  pub new_id : Db → ℕ  -- `uuid4`, for the row of the next job
  pub redis : World → ℕ → Reply
  pub before_body : World → World
  pub before_end : World → World

-- `isinstance(exc, _PERMANENT_ERRORS)`
unfoldable pub is_permanent : ErrorClass → Bool
unfolding is_permanent_error
is_permanent object_not_found = true
is_permanent document_not_found = true
is_permanent job_not_found = true
is_permanent type_error = true
is_permanent value_error = true
is_permanent key_error = true
is_permanent attribute_error = true
is_permanent c = is_permanent_error c

unfoldable pub backoff : ℕ → ℕ
backoff job_try = min (5 * 2 ^ job_try) 300

abbrev pub fail : ℕ → ℕ → Text → World → World
fail now job_id reason w = record w { db = fail_stage now job_id reason w.db }

-- The handlers of the first block. `none`: `run_stage` has returned. What is not committed is
-- rolled back to `before`.
unfoldable pub start_handlers : ErrorClass → Error → ℕ → ℕ → Db → Db → Result (Option ℕ) × Db
start_handlers job_not_found e now job_id before after = (ok none, before)
start_handlers job_already_done e now job_id before after = (ok none, before)
start_handlers job_already_failed e now job_id before after = (ok none, before)
start_handlers document_not_found e now job_id before after =
    (ok none, fail_stage now job_id (describe e) after)
start_handlers invalid_transition e now job_id before after =
    (ok none, fail_stage now job_id (describe e) after)
start_handlers _ e now job_id before after = (raise e, before)

-- The first block: the id of the document, where the stage is to run.
unfoldable pub open_stage : ℕ → ℕ → JobStage → Db → Result (Option ℕ) × Db
unfolding start_handlers
open_stage now job_id stage db =
    let (r, db') = start_stage now job_id (some stage) db in
    elim r [
      | ok job ↦ (ok (some job.document_id), db')
      | raise e ↦ start_handlers e.class e now job_id db db'
    ]

-- The body in its own session. A raise rolls the rows back, and leaves the storage as it is.
unfoldable pub run_body : StageFn → ℕ → World → Result Details × World
run_body fn document_id w =
    let (r, w') = fn document_id w in
    elim r [ ok details ↦ (ok details, w') | raise e ↦ (raise e, record w' { db = w.db }) ]

-- `Retry(defer=_backoff(job_try))`
abbrev pub retry_later : ℕ → Error
retry_later job_try = error retry (number (backoff job_try) ∷ [])

-- The last handler, below `max_tries`.
unfoldable pub retry_stage : Env → ℕ → Error → World → Result (Unit {0}) × World
retry_stage env job_id e w =
    let (r, db') = transaction (record_attempt job_id (describe e) env.job_try) w.db in
    elim r [
      | ok _ ↦ (raise (retry_later env.job_try), record w { db = db' })
      | raise x ↦ (raise x, record w { db = db' })
    ]

abbrev pub is_cancelled : ErrorClass → Bool
is_cancelled cancelled = true
is_cancelled _ = false

-- The handlers of the body's block. A cancellation is not caught.
unfoldable pub body_failed : Env → ℕ → Error → World → Result (Unit {0}) × World
unfolding is_permanent retry_stage
body_failed env job_id e w =
    if is_cancelled e.class
    then (raise e, w)
    else if is_permanent e.class
    then (ok tt, fail env.end_time job_id (describe e) w)
    else if leb env.max_tries env.job_try
    then (ok tt, fail env.end_time job_id (exhausted e) w)
    else retry_stage env job_id e w

-- `idx == len(_STAGE_SEQUENCE) - 1`
unfoldable pub is_last : JobStage → Bool
unfolding stage_index
is_last stage = stage_index stage == length stage_sequence - 1

unfoldable pub after : JobStage → Option (JobStage × String)
unfolding is_last sequence_at stage_index
after stage = if is_last stage then none else sequence_at (stage_index stage + 1)

abbrev pub stage_of : Option (JobStage × String) → Option JobStage
stage_of none = none
stage_of (some (stage, name)) = some stage

abbrev pub is_queue_error : ErrorClass → Bool
is_queue_error connection_error = true
is_queue_error timeout_error = true
is_queue_error runtime_error = true
is_queue_error _ = false

-- After the commit: the next task.
unfoldable pub enqueue_next :
    Env → Option (JobStage × String) → Option (ℕ × Job) → World → Result (Unit {0}) × World
enqueue_next env (some (stage, task)) (some (id, job)) w = elim (env.redis w id) [
  | accepted ↦ (ok tt, record w { queue = w.queue ++ (task, id) ∷ [] })
  | duplicate ↦ (ok tt, w)
  | fails e ↦ if is_queue_error e.class then (ok tt, w) else (raise e, w)
]
enqueue_next env _ _ w = (ok tt, w)

-- The handlers of the last block.
unfoldable pub end_handlers : ErrorClass → Error → ℕ → ℕ → World → Result (Unit {0}) × World
end_handlers job_already_done e now job_id w = (ok tt, w)
end_handlers document_not_found e now job_id w = (ok tt, fail now job_id (describe e) w)
end_handlers invalid_transition e now job_id w = (ok tt, fail now job_id (describe e) w)
end_handlers _ e now job_id w = (raise e, w)

unfoldable pub finish_stage : Env → ℕ → JobStage → Details → World → Result (Unit {0}) × World
finish_stage env job_id stage details w =
    let (r, db') =
      transaction
        (complete_stage env.end_time (env.new_id w.db) job_id details (stage_of (after stage)))
        w.db in
    elim r [
      | ok created ↦ enqueue_next env (after stage) created (record w { db = db' })
      | raise e ↦ end_handlers e.class e env.end_time job_id w
    ]

unfoldable pub end_stage : Env → ℕ → JobStage → Result Details → World → Result (Unit {0}) × World
unfolding body_failed finish_stage
end_stage env job_id stage (ok details) w = finish_stage env job_id stage details w
end_stage env job_id stage (raise e) w = body_failed env job_id e w

unfoldable pub continue_stage :
    Env → ℕ → JobStage → StageFn → Result (Option ℕ) → World → Result (Unit {0}) × World
unfolding run_body end_stage
continue_stage env job_id stage fn (raise e) w = (raise e, w)
continue_stage env job_id stage fn (ok none) w = (ok tt, w)
continue_stage env job_id stage fn (ok (some document_id)) w =
    let (result, w') = run_body fn document_id (env.before_body w) in
    end_stage env job_id stage result (env.before_end w')

unfoldable pub run_stage : Env → ℕ → JobStage → StageFn → World → Result (Unit {0}) × World
unfolding open_stage continue_stage
run_stage env job_id stage fn w =
    let (r, db') = open_stage env.start_time job_id stage w.db in
    continue_stage env job_id stage fn r (record w { db = db' })
