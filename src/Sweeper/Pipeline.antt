-- ===== src/Sweeper/Pipeline.antt =====
-- backend/app/workers/sweeper.py: `sweep_pipeline`. Each failed job has a transaction of its own;
-- between two jobs others may change the world: `before_each`.
use doc_mind_ai.Base.{
  ℕ, suc, ◌+◌, ◌-◌, String, Bool, ◌||◌, Option, none, some, [], ◌∷◌, ◌++◌, Table, if◌then◌else◌,
  ltb,
}
use doc_mind_ai.Model.Enums.{queued, running, stage_task, same_job_status}
use doc_mind_ai.Model.Errors.{str, Text, Result, ok, raise}
use doc_mind_ai.Model.Rows.{Job, Db}
use doc_mind_ai.Repositories.Jobs.{list_stuck}
use doc_mind_ai.Ingester.Methods.{fail_stage}
use doc_mind_ai.Worker.Stage.{World, Reply, accepted, duplicate, fails}

-- The limits, in seconds.
abbrev pub stuck_queue_after : ℕ
stuck_queue_after = 1200

abbrev pub stuck_running_after : ℕ
stuck_running_after = 10800

abbrev pub give_up_after : ℕ
give_up_after = 43200

pub record Sweep : Type 0 where
  pub requeued : ℕ
  pub failed : ℕ
  pub skipped : ℕ

-- `job.started_at or job.created_at`
abbrev pub age_anchor : Job → ℕ
age_anchor job = elim job.started_at [ none ↦ job.created_at | some s ↦ s ]

-- `_aware(age_anchor) < now - GIVE_UP_AFTER`
unfoldable pub too_old : ℕ → Job → Bool
too_old now job = ltb (age_anchor job + give_up_after) now

unfoldable pub reason : Bool → Text
reason old =
    if old then str "sweep: retries/age exhausted" ∷ [] else str "sweep: worker presumed dead" ∷ []

-- An exception of redis is not caught.
unfoldable pub requeue : Reply → String → ℕ → Sweep → World → Result (Unit {0}) × Sweep × World
requeue accepted task job_id s w = (
  ok tt,
  record s { requeued = suc s.requeued },
  record w { queue = w.queue ++ (task, job_id) ∷ [] },
)
requeue duplicate task job_id s w = (ok tt, record s { skipped = suc s.skipped }, w)
requeue (fails e) task job_id s w = (raise e, s, w)

-- One job of the list, which was read before the loop.
unfoldable pub sweep_task :
    (World → ℕ → Reply)
    → ℕ
    → Option String
    → ℕ
    → Job
    → Sweep
    → World
    → Result (Unit {0}) × Sweep × World
unfolding requeue too_old reason
sweep_task redis now none job_id job s w = (ok tt, record s { skipped = suc s.skipped }, w)
sweep_task redis now (some task) job_id job s w =
    if same_job_status job.status running || too_old now job
    then (
      ok tt,
      record s { failed = suc s.failed },
      record w { db = fail_stage now job_id (reason (too_old now job)) w.db },
    )
    else if same_job_status job.status queued
    then requeue (redis w job_id) task job_id s w
    else (ok tt, record s { skipped = suc s.skipped }, w)

unfoldable pub sweep_job :
    (World → ℕ → Reply) → ℕ → ℕ → Job → Sweep → World → Result (Unit {0}) × Sweep × World
unfolding sweep_task stage_task
sweep_job redis now job_id job s w = sweep_task redis now (stage_task job.stage) job_id job s w

unfoldable pub sweep_jobs :
    (World → ℕ → Reply)
    → (World → World)
    → ℕ
    → Table Job
    → Sweep
    → World
    → Result (Unit {0}) × Sweep × World
unfolding sweep_job
sweep_jobs redis before_each now [] s w = (ok tt, s, w)
sweep_jobs redis before_each now ((job_id, job) ∷ rest) s w =
    let (r, s', w') = sweep_job redis now job_id job s (before_each w) in
    let later = sweep_jobs redis before_each now rest s' w' in
    elim r [ ok _ ↦ later | raise e ↦ (raise e, s', w') ]

-- The list of the jobs to look at. An instant before the epoch has no row.
abbrev pub stuck_jobs : ℕ → Db → Table Job
stuck_jobs now db = list_stuck (now - stuck_queue_after) (now - stuck_running_after) db

unfoldable pub sweep_pipeline :
    (World → ℕ → Reply) → (World → World) → ℕ → World → Result (Unit {0}) × Sweep × World
unfolding sweep_jobs
sweep_pipeline redis before_each now w =
    sweep_jobs redis before_each now (stuck_jobs now w.db)
      (record { requeued = 0; failed = 0; skipped = 0 }) w
