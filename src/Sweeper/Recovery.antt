-- ===== src/Sweeper/Recovery.antt =====
-- What `sweep_pipeline` does to the jobs, the documents and the queue.
use doc_mind_ai.Base.{
  ℕ, suc, ◌+◌, ◌≤◌, ◌≡◌, refl, ◌∙◌, ◌⊎◌, inl, inr, String, true, false, ◌||◌, Option, none, some,
  [], ◌∷◌, Table, length, Bool-cases, arith,
}
use doc_mind_ai.Model.Enums.{JobStage, queued, running, stage_task, same_job_status}
use doc_mind_ai.Model.Errors.{ok, Result-cases}
use doc_mind_ai.Model.Rows.{Job, Document, Db, get_job, get_document}
use doc_mind_ai.Ingester.Methods.{is_finished}
use doc_mind_ai.Ingester.Machine.{Steps, here}
use doc_mind_ai.Ingester.Starts.{fail_stage-Steps}
use doc_mind_ai.Ingester.Effects.{failed_job, failed_document, fail_stage-job, fail_stage-document}
use doc_mind_ai.Worker.Stage.{World, Reply, accepted, duplicate, fails}
use doc_mind_ai.Sweeper.Pipeline.{
  Sweep, too_old, reason, requeue, sweep_task, sweep_job, sweep_jobs, stuck_jobs, sweep_pipeline,
}

total : Sweep → ℕ
total s = s.requeued + s.failed + s.skipped

stage_task-some : (s : JobStage) → (task : String) × (stage_task s ≡ some task)
unfolding stage_task
stage_task-some JobStage.extract = (_, refl)
stage_task-some JobStage.clean = (_, refl)
stage_task-some JobStage.chunk = (_, refl)
stage_task-some JobStage.embed = (_, refl)
stage_task-some JobStage.index = (_, refl)

module _ (redis : World → ℕ → Reply) (now : ℕ) where
  requeue-counts :
      (r : Reply) (task : String) (i : ℕ) (s : Sweep) (w : World) (u : Unit)
      → (requeue r task i s w).0 ≡ ok u
      → total (requeue r task i s w).1 ≡ suc (total s)
  unfolding requeue total
  requeue-counts accepted task i s w u e = omega arith
  requeue-counts duplicate task i s w u e = omega arith
  requeue-counts (fails x) task i s w u e = absurd (ground (arith, e))

  requeue-db :
      (r : Reply) (task : String) (i : ℕ) (s : Sweep) (w : World)
      → (requeue r task i s w).2.db ≡ w.db
  unfolding requeue
  requeue-db accepted task i s w = refl
  requeue-db duplicate task i s w = refl
  requeue-db (fails x) task i s w = refl

  sweep_task-Steps :
      (o : Option String) (i : ℕ) (job : Job) (s : Sweep) (w : World)
      → Steps w.db (sweep_task redis now o i job s w).2.db
  unfolding sweep_task
  sweep_task-Steps none i job s w = here
  sweep_task-Steps (some task) i job s w =
      elim (Bool-cases (same_job_status job.status running || too_old now job)) [
        | inl d ↦ rw d (fail_stage-Steps now i _ w.db)
        | inr d ↦ rw d (elim (Bool-cases (same_job_status job.status queued)) [
          | inl q ↦ rw q (rw (requeue-db (redis w i) task i s w) here)
          | inr q ↦ rw q here
        ])
      ]

  sweep_task-counts :
      (o : Option String) (i : ℕ) (job : Job) (s : Sweep) (w : World) (u : Unit)
      → (sweep_task redis now o i job s w).0 ≡ ok u
      → total (sweep_task redis now o i job s w).1 ≡ suc (total s)
  unfolding sweep_task total
  sweep_task-counts none i job s w u = λ e. omega arith
  sweep_task-counts (some task) i job s w u =
      elim (Bool-cases (same_job_status job.status running || too_old now job)) [
        | inl d ↦ rw d (λ e. omega arith)
        | inr d ↦ rw d (elim (Bool-cases (same_job_status job.status queued)) [
          | inl q ↦ rw q (requeue-counts (redis w i) task i s w u)
          | inr q ↦ rw q (λ e. omega arith)
        ])
      ]

  sweep_job-counts :
      (i : ℕ) (job : Job) (s : Sweep) (w : World) (u : Unit)
      → (sweep_job redis now i job s w).0 ≡ ok u
      → total (sweep_job redis now i job s w).1 ≡ suc (total s)
  unfolding sweep_job
  sweep_job-counts i job s w u = sweep_task-counts (stage_task job.stage) i job s w u

  sweep_job-Steps :
      (i : ℕ) (job : Job) (s : Sweep) (w : World) → Steps w.db (sweep_job redis now i job s w).2.db
  unfolding sweep_job
  sweep_job-Steps i job s w = sweep_task-Steps (stage_task job.stage) i job s w

  -- A listed job that was RUNNING or is past the age limit is failed with its open document, if
  -- its row is still unfinished; it is counted as failed and nothing is enqueued for it.
  pub sweep_job-fails :
      (i : ℕ) (job row : Job) (doc : Document) (s : Sweep) (w : World)
      → (job.status ≡ running) ⊎ (too_old now job ≡ true)
      → get_job i w.db ≡ some row
      → is_finished row.status ≡ false
      → get_document row.document_id w.db ≡ some doc
      → let (r, s', w') = sweep_job redis now i job s w in
        (r ≡ ok tt)
        × (s'.failed ≡ suc s.failed)
        × (w'.queue ≡ w.queue)
        × (get_job i w'.db ≡ some (failed_job now (reason (too_old now job)) row))
        × (get_document row.document_id w'.db
            ≡ some (failed_document (reason (too_old now job)) doc))
  unfolding sweep_job sweep_task
  sweep_job-fails i job row doc s w why there active owner =
      let (task, named) = stage_task-some job.stage in
      let dead : (same_job_status job.status running || too_old now job) ≡ true =
        ground (arith, why) in
      rw (named, sweep_task)
        (rw dead (
          refl,
          refl,
          refl,
          fail_stage-job now i (reason (too_old now job)) row w.db there active,
          fail_stage-document now i (reason (too_old now job)) row w.db there active doc owner,
        ))

one_longer : (a b c l : ℕ) → a ≡ b + l → b ≡ suc c → a ≡ c + suc l
one_longer a b c l h e = omega arith

module _ (redis : World → ℕ → Reply) (before_each : World → World) (now : ℕ) where
  sweep_jobs-counts :
      (jobs : Table Job) (s : Sweep) (w : World) (u : Unit)
      → (sweep_jobs redis before_each now jobs s w).0 ≡ ok u
      → total (sweep_jobs redis before_each now jobs s w).1 ≡ total s + length jobs
  unfolding sweep_jobs total
  sweep_jobs-counts [] s w u = λ e. omega arith
  sweep_jobs-counts ((i, job) ∷ rest) s w u =
      elim (Result-cases (sweep_job redis now i job s (before_each w)).0) [
        | inl (v, q) ↦
            rw (q, sweep_jobs)
              (λ e.
                let once = sweep_job-counts redis now i job s (before_each w) v q in
                let rest_of = sweep_jobs-counts rest _ _ u e in one_longer _ _ _ _ rest_of once)
        | inr (x, q) ↦ rw (q, sweep_jobs) (λ e. absurd (ground (arith, e)))
      ]

  -- If redis raises nothing, the counts of requeued, failed and skipped jobs add up to the number
  -- of stuck jobs.
  pub sweep_pipeline-counts :
      (w : World) (u : Unit)
      → (sweep_pipeline redis before_each now w).0 ≡ ok u
      → let s = (sweep_pipeline redis before_each now w).1 in
        s.requeued + s.failed + s.skipped ≡ length (stuck_jobs now w.db)
  unfolding sweep_pipeline total
  sweep_pipeline-counts w u e = sweep_jobs-counts (stuck_jobs now w.db) _ w u e ∙ omega arith

  module _ (P : Db → Type 0) (steps : (a b : Db) → Steps a b → P a → P b)
      (others : (w : World) → P w.db → P (before_each w).db) where
    sweep_jobs-keeps :
        (jobs : Table Job) (s : Sweep) (w : World)
        → P w.db
        → P (sweep_jobs redis before_each now jobs s w).2.db
    unfolding sweep_jobs
    sweep_jobs-keeps [] s w p = p
    sweep_jobs-keeps ((i, job) ∷ rest) s w p =
        let first = steps _ _ (sweep_job-Steps redis now i job s (before_each w)) (others w p) in
        elim (Result-cases (sweep_job redis now i job s (before_each w)).0) [
          | inl (v, q) ↦ rw (q, sweep_jobs) (sweep_jobs-keeps rest _ _ first)
          | inr (x, q) ↦ rw (q, sweep_jobs) first
        ]

    -- What the legal changes of rows keep, and what the others keep, a sweep of the pipeline keeps.
    pub sweep_pipeline-keeps :
        (w : World) → P w.db → P (sweep_pipeline redis before_each now w).2.db
    unfolding sweep_pipeline
    sweep_pipeline-keeps w p = sweep_jobs-keeps (stuck_jobs now w.db) _ w p

    sweep_jobs-begins :
        (jobs : Table Job) (s : Sweep) (w : World)
        → 1 ≤ length jobs
        → P (before_each w).db
        → P (sweep_jobs redis before_each now jobs s w).2.db
    unfolding sweep_jobs
    sweep_jobs-begins [] s w h p = absurd (omega (arith, h))
    sweep_jobs-begins ((i, job) ∷ rest) s w h p =
        let first = steps _ _ (sweep_job-Steps redis now i job s (before_each w)) p in
        elim (Result-cases (sweep_job redis now i job s (before_each w)).0) [
          | inl (v, q) ↦ rw (q, sweep_jobs) (sweep_jobs-keeps rest _ _ first)
          | inr (x, q) ↦ rw (q, sweep_jobs) first
        ]

    -- The same of what the others establish between the reading of the list and its first job.
    pub sweep_pipeline-begins :
        (w : World)
        → 1 ≤ length (stuck_jobs now w.db)
        → P (before_each w).db
        → P (sweep_pipeline redis before_each now w).2.db
    unfolding sweep_pipeline
    sweep_pipeline-begins w h p = sweep_jobs-begins (stuck_jobs now w.db) _ w h p
