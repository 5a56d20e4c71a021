-- ===== src/Worker/Outcomes.antt =====
-- What `run_stage` does on each of its branches.
use doc_mind_ai.Base.{
  ◌⊎◌, ℕ, ◌≤◌, ◌<◌, ap, ◌≡◌, refl, ◌∙◌, true, false, none, some, List, [], ◌∷◌, Bool-cases, inl,
  inr, arith, leb,
}
use doc_mind_ai.Model.Enums.{JobStage, JobStatus, queued, running, done}
use doc_mind_ai.Model.Errors.{job_not_found, uuid, Error, error, describe, exhausted, ok, raise}
use doc_mind_ai.Model.Details.{Attempt, get}
use doc_mind_ai.Model.Rows.{Document, Job, Db, get_job, get_document, set_job}
use doc_mind_ai.Repositories.Jobs.{attempts_of}
use doc_mind_ai.Repositories.Session.{transaction, transaction-ok}
use doc_mind_ai.Ingester.Methods.{
  start_status, start_stage, is_finished, is_startable, is_other_stage, wrong_stage, record_attempt,
}
use doc_mind_ai.Ingester.Machine.{IsActive}
use doc_mind_ai.Ingester.Effects.{
  failed_job, failed_document, start_stage-starts, fail_stage-job, fail_stage-document,
  fail_stage-finished,
}
use doc_mind_ai.Ingester.Completion.{attempted, record_attempt-running}
use doc_mind_ai.Worker.Stage.{
  World, StageFn, Env, open_stage, run_body, is_permanent, is_cancelled, end_stage, continue_stage,
  run_stage, start_handlers, retry_later, retry_stage, body_failed,
}

open_stage-raise :
    (now i : ℕ) (stage : JobStage) (db db' : Db) (e : Error)
    → start_stage now i (some stage) db ≡ (raise e, db')
    → open_stage now i stage db ≡ start_handlers e.class e now i db db'
unfolding open_stage
open_stage-raise now i stage db db' e q =
    let raised : (start_stage now i (some stage) db).0 ≡ raise e = ap (λ t. t.0) q in
    let left : (start_stage now i (some stage) db).1 ≡ db' = ap (λ t. t.1) q in
    rw (raised, left, open_stage)

start_status-finished :
    (s : JobStatus) (now i : ℕ) (stage : JobStage) (job : Job) (db : Db)
    → is_finished s ≡ true
    → start_stage now i (some stage) db ≡ start_status s now i job db
    → open_stage now i stage db ≡ (ok none, db)
unfolding start_status start_handlers
start_status-finished done now i stage job db over e = open_stage-raise now i stage db db _ e
start_status-finished JobStatus.failed now i stage job db over e =
    open_stage-raise now i stage db db _ e
start_status-finished queued now i stage job db over e = cc
start_status-finished running now i stage job db over e = cc

open_stage-finished :
    (now i : ℕ) (stage : JobStage) (job : Job) (db : Db)
    → get_job i db ≡ some job
    → is_finished job.status ≡ true
    → open_stage now i stage db ≡ (ok none, db)
unfolding start_stage start_handlers
open_stage-finished now i stage job db there over =
    elim (Bool-cases (is_other_stage (some stage) job.stage)) [
      | inl other ↦
          open_stage-raise now i stage db db (wrong_stage i job.stage (some stage))
            (rw (there, start_stage) (rw other))
          ∙ ap (λ t. (ok none, t)) (fail_stage-finished now i _ job db there over)
      | inr same ↦
          start_status-finished job.status now i stage job db over
            (rw (there, start_stage) (rw same))
    ]

-- For a job that is DONE or FAILED run_stage returns at once and changes nothing, whatever the
-- stage and its body: a duplicate delivery has no effect.
pub run_stage-finished :
    (env : Env) (i : ℕ) (stage : JobStage) (fn : StageFn) (w : World) (job : Job)
    → get_job i w.db ≡ some job
    → is_finished job.status ≡ true
    → run_stage env i stage fn w ≡ (ok tt, w)
unfolding run_stage continue_stage
run_stage-finished env i stage fn w job there over =
    rw (open_stage-finished env.start_time i stage job w.db there over)

-- For a job whose row does not exist run_stage returns at once and changes nothing.
pub run_stage-absent :
    (env : Env) (i : ℕ) (stage : JobStage) (fn : StageFn) (w : World)
    → get_job i w.db ≡ none
    → run_stage env i stage fn w ≡ (ok tt, w)
unfolding run_stage continue_stage start_stage start_handlers
run_stage-absent env i stage fn w e = rw (
    open_stage-raise env.start_time i stage w.db w.db (error job_not_found (uuid i ∷ []))
      (rw (e, start_stage)))

-- For a job whose row does not exist, or is DONE or FAILED, run_stage returns at once and changes
-- nothing, whatever the stage and its body: a duplicate delivery has no effect.
pub run_stage-idle :
    (env : Env) (i : ℕ) (stage : JobStage) (fn : StageFn) (w : World)
    → (get_job i w.db ≡ none)
      ⊎ ((job : Job) × (get_job i w.db ≡ some job) × (is_finished job.status ≡ true))
    → run_stage env i stage fn w ≡ (ok tt, w)
run_stage-idle env i stage fn w (inl gone) = run_stage-absent env i stage fn w gone
run_stage-idle env i stage fn w (inr (job, there, over)) =
    run_stage-finished env i stage fn w job there over

-- A job that another worker or a first delivery may take up, with its document.
pub record Ready (i : ℕ) (db : Db) (job : Job) (doc : Document) : Type 0 where
  pub there : get_job i db ≡ some job
  pub owner : get_document job.document_id db ≡ some doc
  pub active : IsActive job.status
  pub startable : is_startable doc.status ≡ true

module _ (env : Env) (i : ℕ) (fn : StageFn) (w : World) (job : Job) (doc : Document)
    (ready : Ready i w.db job doc) where
  -- The world in which the body runs, and the one in which the last transaction begins.
  abbrev pub body_world : World
  body_world =
      env.before_body (record w { db = (start_stage env.start_time i (some job.stage) w.db).1 })

  abbrev pub end_world : World
  end_world = env.before_end (run_body fn job.document_id body_world).1

  pub run_stage-end_stage :
      run_stage env i job.stage fn w
      ≡ end_stage env i job.stage (run_body fn job.document_id body_world).0 end_world
  unfolding run_stage continue_stage open_stage
  run_stage-end_stage =
      let (r, jobs, docs) =
        start_stage-starts env.start_time i job doc w.db ready.there ready.owner ready.active
          ready.startable in
      rw (r, open_stage)

  -- If the body of a startable job raises a permanent error and the job is still unfinished at the
  -- end, run_stage returns, the job is FAILED with the described error, and its document is FAILED
  -- with it if it was still open and unchanged otherwise.
  pub run_stage-permanent :
      (e : Error) (late : Job) (owner : Document)
      → (fn job.document_id body_world).0 ≡ raise e
      → is_cancelled e.class ≡ false
      → is_permanent e.class ≡ true
      → get_job i end_world.db ≡ some late
      → get_document late.document_id end_world.db ≡ some owner
      → is_finished late.status ≡ false
      → let (r, w') = run_stage env i job.stage fn w in
        (r ≡ ok tt)
        × (get_job i w'.db ≡ some (failed_job env.end_time (describe e) late))
        × (get_document late.document_id w'.db ≡ some (failed_document (describe e) owner))
  unfolding end_stage body_failed
  run_stage-permanent e late owner raised caught permanent there owned unfinished =
      let body : (run_body fn job.document_id body_world).0 ≡ raise e =
        unfold run_body in rw (raised, run_body) in
      rw run_stage-end_stage (
        rw (body, end_stage)
          (rw caught (
            rw permanent (
              refl,
              fail_stage-job env.end_time i (describe e) late end_world.db there unfinished,
              fail_stage-document env.end_time i (describe e) late end_world.db there unfinished
                  owner owned,
            ))))

  -- If the body of a startable job raises an error that is neither permanent nor a cancellation,
  -- job_try has reached max_tries, and the job is still unfinished at the end, run_stage returns,
  -- and the job is FAILED, and so is its document if it was open, with the text "retries
  -- exhausted".
  pub run_stage-exhausted :
      (e : Error) (late : Job) (owner : Document)
      → (fn job.document_id body_world).0 ≡ raise e
      → is_cancelled e.class ≡ false
      → is_permanent e.class ≡ false
      → env.max_tries ≤ env.job_try
      → get_job i end_world.db ≡ some late
      → get_document late.document_id end_world.db ≡ some owner
      → is_finished late.status ≡ false
      → let (r, w') = run_stage env i job.stage fn w in
        (r ≡ ok tt)
        × (get_job i w'.db ≡ some (failed_job env.end_time (exhausted e) late))
        × (get_document late.document_id w'.db ≡ some (failed_document (exhausted e) owner))
  unfolding end_stage body_failed
  run_stage-exhausted e late owner raised caught transient last there owned unfinished =
      let body : (run_body fn job.document_id body_world).0 ≡ raise e =
        unfold run_body in rw (raised, run_body) in
      let used_up : leb env.max_tries env.job_try ≡ true = ground arith in
      rw run_stage-end_stage (
        rw (body, end_stage)
          (rw caught (
            rw transient (
              rw used_up (
                refl,
                fail_stage-job env.end_time i (exhausted e) late end_world.db there unfinished,
                fail_stage-document env.end_time i (exhausted e) late end_world.db there unfinished
                    owner owned,
              )))))

  -- If the body of a startable job raises an error that is neither permanent nor a cancellation,
  -- job_try is below max_tries, and the job still runs at the end with a readable history, the
  -- attempt is appended to the job's history, no other row changes, and Retry is raised with the
  -- delay of this attempt.
  pub run_stage-retry :
      (e : Error) (late : Job) (past : List Attempt)
      → (fn job.document_id body_world).0 ≡ raise e
      → is_cancelled e.class ≡ false
      → is_permanent e.class ≡ false
      → env.job_try < env.max_tries
      → get_job i end_world.db ≡ some late
      → late.status ≡ running
      → attempts_of (get "attempt" late.details) ≡ ok past
      → run_stage env i job.stage fn w ≡ (
        raise (retry_later env.job_try),
        record end_world {
          db = set_job i (attempted env.job_try (describe e) past late) end_world.db;
        },
      )
  unfolding end_stage body_failed retry_stage transaction
  run_stage-retry e late past raised caught transient more there going attempts =
      let body : (run_body fn job.document_id body_world).0 ≡ raise e =
        unfold run_body in rw (raised, run_body) in
      let left : leb env.max_tries env.job_try ≡ false = ground arith in
      let noted =
        record_attempt-running i (describe e) env.job_try past late end_world.db there going
          attempts in
      rw run_stage-end_stage (
        rw (body, end_stage)
          (rw caught (
            rw transient (
              rw left (
                rw
                  (
                    transaction-ok (record_attempt i (describe e) env.job_try) end_world.db tt
                        (ap (λ t. t.0) noted),
                    retry_stage,
                  )
                  (rw noted))))))
