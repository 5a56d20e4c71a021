-- ===== src/Worker/Success.antt =====
-- What `run_stage` does when the body of the stage returns.
use doc_mind_ai.Base.{ℕ, ap, ◌≡◌, refl, Option, none, some, String, [], ◌∷◌, ◌++◌}
use doc_mind_ai.Model.Enums.{
  JobStage, queued, running, processing, extract, clean, chunk, embed, index,
}
use doc_mind_ai.Model.Errors.{job_not_found, uuid, error, ok, raise}
use doc_mind_ai.Model.Details.{Details}
use doc_mind_ai.Model.Rows.{Document, Job, get_job, get_document}
use doc_mind_ai.Repositories.Jobs.{new_job}
use doc_mind_ai.Repositories.Session.{Session, transaction-ok, transaction-raise}
use doc_mind_ai.Ingester.Methods.{complete_stage}
use doc_mind_ai.Ingester.Completion.{
  done_job, counted, published, complete_stage-last, complete_stage-next, complete_stage-absent,
}
use doc_mind_ai.Worker.Stage.{
  World, StageFn, Env, accepted, run_body, after, stage_of, finish_stage, end_stage, run_stage,
  end_handlers, enqueue_next,
}
use doc_mind_ai.Worker.Outcomes.{Ready, body_world, end_world, run_stage-end_stage}

-- The stages follow each other in the canonical order, and `index` is the last.
pub after-stage_order :
    (after extract ≡ some (clean, "process_clean"))
    × (after clean ≡ some (chunk, "process_chunk"))
    × (after chunk ≡ some (embed, "process_embed"))
    × (after embed ≡ some (index, "process_index"))
    × (after index ≡ none)
unfolding after
after-stage_order = (refl, refl, refl, refl, refl)

finish_stage-ok :
    (env : Env) (i : ℕ) (stage : JobStage) (details : Details) (w : World)
    (created : Option (ℕ × Job))
    → (complete_stage env.end_time (env.new_id w.db) i details (stage_of (after stage)) w.db).0
      ≡ ok created
    → finish_stage env i stage details w
      ≡ enqueue_next env (after stage) created (record w {
        db =
            (complete_stage env.end_time
              (env.new_id w.db)
              i
              details
              (stage_of (after stage))
              w.db).1;
      })
unfolding finish_stage
finish_stage-ok env i stage details w created e =
    let committed =
      transaction-ok
        (complete_stage env.end_time (env.new_id w.db) i details (stage_of (after stage))) w.db
        created e in
    rw (committed, finish_stage) (rw committed)

module _ (env : Env) (i : ℕ) (stage : JobStage) (details : Details) (w : World) (late : Job)
    (owner : Document) (there : get_job i w.db ≡ some late) (going : late.status ≡ running)
    (owned : get_document late.document_id w.db ≡ some owner)
    (moving : owner.status ≡ processing) where
  finish_stage-last :
      after stage ≡ none
      → let (r, w') = finish_stage env i stage details w in
        (r ≡ ok tt)
        × (get_job i w'.db ≡ some (done_job env.end_time details late))
        × (get_document late.document_id w'.db
            ≡ some (published env.end_time late.stage details owner))
        × (w'.queue ≡ w.queue)
        × (w'.storage ≡ w.storage)
  unfolding enqueue_next
  finish_stage-last last =
      let n = env.new_id w.db in
      let (r, jobs, docs) =
        complete_stage-last env.end_time n i late owner details w.db there owned going moving in
      rw (finish_stage-ok env i stage details w none (rw last r))
        (rw last (refl, jobs, docs, refl, refl))

  finish_stage-next :
      (next : JobStage) (task : String)
      → after stage ≡ some (next, task)
      → get_job (env.new_id w.db) w.db ≡ none
      → env.redis
          (record w {
            db =
                (complete_stage env.end_time
                  (env.new_id w.db)
                  i
                  details
                  (stage_of (after stage))
                  w.db).1;
          })
          (env.new_id w.db)
        ≡ accepted
      → let (r, w') = finish_stage env i stage details w in
        (r ≡ ok tt)
        × (get_job i w'.db ≡ some (done_job env.end_time details late))
        × (get_job (env.new_id w.db) w'.db
            ≡ some (new_job env.end_time late.document_id next queued))
        × (get_document late.document_id w'.db ≡ some (counted late.stage details owner))
        × (w'.queue ≡ w.queue ++ (task, env.new_id w.db) ∷ [])
        × (w'.storage ≡ w.storage)
  unfolding enqueue_next
  finish_stage-next next task follows fresh taken =
      let n = env.new_id w.db in
      let (r, jobs, created, docs) =
        complete_stage-next env.end_time n i late owner details w.db there owned going moving next
          fresh in
      let job' : ℕ × Job = (n, new_job env.end_time late.document_id next queued) in
      let taken' = rw follows at taken in
      rw (finish_stage-ok env i stage details w (some job') (rw follows r))
        (rw follows (rw (taken', enqueue_next) (refl, jobs, created, docs, refl, refl)))

module _ (env : Env) (i : ℕ) (fn : StageFn) (w : World) (job : Job) (doc : Document)
    (ready : Ready i w.db job doc) (details : Details)
    (returned : (fn job.document_id (body_world env i fn w job doc ready)).0 ≡ ok details) where
  -- The world in which the last transaction begins.
  abbrev last_world : World
  last_world = end_world env i fn w job doc ready

  abbrev next_id : ℕ
  next_id = env.new_id last_world.db

  -- The last transaction.
  abbrev completion : Session (Option (ℕ × Job))
  completion = complete_stage env.end_time next_id i details (stage_of (after job.stage))

  run_stage-finish_stage :
      run_stage env i job.stage fn w ≡ finish_stage env i job.stage details last_world
  unfolding end_stage
  run_stage-finish_stage =
      let body : (run_body fn job.document_id (body_world env i fn w job doc ready)).0
          ≡ ok details =
        unfold run_body in rw (returned, run_body) in
      rw (run_stage-end_stage env i fn w job doc ready) (rw (body, end_stage))

  -- If the body of a startable job returns and the row of the job is gone by then, run_stage
  -- raises JobNotFound and leaves the world as it is.
  pub run_stage-deleted :
      get_job i last_world.db ≡ none
      → run_stage env i job.stage fn w ≡ (raise (error job_not_found (uuid i ∷ [])), last_world)
  unfolding finish_stage end_handlers
  run_stage-deleted gone =
      let absent =
        complete_stage-absent env.end_time next_id i details (stage_of (after job.stage))
          last_world.db gone in
      rw run_stage-finish_stage (
        rw (
          transaction-raise completion last_world.db (error job_not_found (uuid i ∷ []))
              (ap (λ t. t.0) absent),
          finish_stage,
        ))

  module _ (late : Job) (owner : Document) (there : get_job i last_world.db ≡ some late)
      (going : late.status ≡ running)
      (owned : get_document late.document_id last_world.db ≡ some owner)
      (moving : owner.status ≡ processing) where
    -- A run of the last stage whose body returns, for a startable job that still runs with its
    -- document in PROCESSING at the end, returns; the job is DONE, the document is INDEXED with
    -- the time of the end and the chunk count of the details, and nothing is enqueued.
    pub run_stage-last :
        after job.stage ≡ none
        → let (r, w') = run_stage env i job.stage fn w in
          (r ≡ ok tt)
          × (get_job i w'.db ≡ some (done_job env.end_time details late))
          × (get_document late.document_id w'.db
              ≡ some (published env.end_time late.stage details owner))
          × (w'.queue ≡ last_world.queue)
          × (w'.storage ≡ last_world.storage)
    run_stage-last last = rw run_stage-finish_stage (
        finish_stage-last env i job.stage details last_world late owner there going owned moving
          last)

    -- A run of a stage other than the last one whose body returns, for a startable job that still
    -- runs with its document in PROCESSING at the end, returns; the job is DONE with the merged
    -- details, one QUEUED job of the next stage exists under the fresh id, the document has its
    -- page count, and the queue has the task of the new job, if redis accepts it.
    pub run_stage-next :
        (next : JobStage) (task : String)
        → after job.stage ≡ some (next, task)
        → get_job next_id last_world.db ≡ none
        → env.redis (record last_world { db = (completion last_world.db).1 }) next_id ≡ accepted
        → let (r, w') = run_stage env i job.stage fn w in
          (r ≡ ok tt)
          × (get_job i w'.db ≡ some (done_job env.end_time details late))
          × (get_job next_id w'.db ≡ some (new_job env.end_time late.document_id next queued))
          × (get_document late.document_id w'.db ≡ some (counted late.stage details owner))
          × (w'.queue ≡ last_world.queue ++ (task, next_id) ∷ [])
          × (w'.storage ≡ last_world.storage)
    run_stage-next next task follows fresh taken = rw run_stage-finish_stage (
        finish_stage-next env i job.stage details last_world late owner there going owned moving
          next task follows fresh taken)
