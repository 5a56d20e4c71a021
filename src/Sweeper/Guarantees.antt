-- ===== src/Sweeper/Guarantees.antt =====
-- What holds through a whole run of `sweep_pipeline`, if the others keep it in between.
use doc_mind_ai.Base.{ℕ, ◌≡◌, ◌≤◌, true, some, length}
use doc_mind_ai.Model.Rows.{Job, get_job}
use doc_mind_ai.Ingester.Methods.{is_finished}
use doc_mind_ai.Ingester.Invariant.{IsValid, Steps-IsValid}
use doc_mind_ai.Ingester.Frozen.{Steps-finished_job}
use doc_mind_ai.Worker.Stage.{World, Reply}
use doc_mind_ai.Sweeper.Pipeline.{stuck_jobs, sweep_pipeline}
use doc_mind_ai.Sweeper.Recovery.{sweep_pipeline-keeps, sweep_pipeline-begins}

module _ (redis : World → ℕ → Reply) (before_each : World → World) (now : ℕ) (w : World) where
  -- A sweep of the pipeline keeps the rows valid, if the other processes keep them valid between
  -- two jobs.
  pub sweep_pipeline-IsValid :
      ((v : World) → IsValid v.db → IsValid (before_each v).db)
      → IsValid w.db
      → IsValid (sweep_pipeline redis before_each now w).2.db
  sweep_pipeline-IsValid others valid =
      sweep_pipeline-keeps redis before_each now IsValid (λ a b s v. Steps-IsValid s v) others w
        valid

  -- A job that others finish, DONE or FAILED, after the list of the stuck jobs was read and before
  -- the first of them is handled is not failed: its row is at the end of the sweep as they left
  -- it, also where the list still has the job as QUEUED or RUNNING; and the rows are valid at the
  -- end. Condition: there is a stuck job, the rows are valid when the list is read, and the others
  -- keep them valid and leave the finished job alone.
  pub sweep_pipeline-keeps_rows :
      (k : ℕ) (job : Job)
      → is_finished job.status ≡ true
      → 1 ≤ length (stuck_jobs now w.db)
      → get_job k (before_each w).db ≡ some job
      → ((v : World) → get_job k v.db ≡ some job → get_job k (before_each v).db ≡ some job)
      → ((v : World) → IsValid v.db → IsValid (before_each v).db)
      → IsValid w.db
      → let w' = (sweep_pipeline redis before_each now w).2 in
        IsValid w'.db × (get_job k w'.db ≡ some job)
  sweep_pipeline-keeps_rows k job over listed finished others valid_others valid = (
    sweep_pipeline-IsValid valid_others valid,
    sweep_pipeline-begins redis before_each now (λ db. get_job k db ≡ some job)
        (λ a b s e. Steps-finished_job k job s e over) others w listed finished,
  )
