-- ===== src/Stages/Pipeline.antt =====
-- The stages run one after the other: what each leaves for the next, and what becomes of the document.
use doc_mind_ai.Base.{
  ℕ, ◌≡◌, refl, ap, ◌∙◌, true, Option, none, some, String, [], ◌∷◌, ◌++◌, if◌then◌else◌, Bool-cases,
  inl, inr, arith,
}
use doc_mind_ai.Model.Enums.{
  DocumentStatus, JobStage, queued, pending, processing, same_document_status,
}
use doc_mind_ai.Model.Errors.{ok}
use doc_mind_ai.Model.Details.{Details}
use doc_mind_ai.Model.Rows.{Document, Job, get_job, get_document}
use doc_mind_ai.Repositories.Jobs.{new_job}
use doc_mind_ai.Ingester.Methods.{is_startable, start_stage}
use doc_mind_ai.Ingester.Effects.{started, taken_up, start_stage-starts}
use doc_mind_ai.Ingester.Completion.{counted, published}
use doc_mind_ai.Storage.Backend.{Objects}
use doc_mind_ai.Worker.Keeps.{IsFresh}
use doc_mind_ai.Worker.Stage.{World, StageFn, Env, accepted, after, run_body, run_stage}
use doc_mind_ai.Worker.Outcomes.{Ready, end_world}
use doc_mind_ai.Worker.Success.{run_stage-last, run_stage-next}

-- No one else changes anything between the transactions of a run.
abbrev pub alone : Env → Env
alone env = record env { before_body = λ w. w; before_end = λ w. w }

-- What the stages read of a document: the hash of its content, and the keys of its objects.
abbrev pub Source : Type 0
Source = Option String × Option String × Option String

abbrev pub source_of : Document → Source
source_of doc = (doc.content_hash, doc.storage_key, doc.parsed_key)

-- What a stage finds in the storage.
abbrev pub Artifacts : Type 1
Artifacts = ℕ → Source → Objects → Type 0

-- The body returned, the document is still PROCESSING, no job has changed, and what it leaves is there.
pub record Outcome (fn : StageFn) (d : ℕ) (w : World) (left : Artifacts) : Type 0 where
  pub details : Details
  pub doc : Document
  pub result : (fn d w).0 ≡ ok details
  pub there : get_document d (fn d w).1.db ≡ some doc
  pub still : doc.status ≡ processing
  pub jobs : (fn d w).1.db.jobs ≡ w.db.jobs
  pub queue : (fn d w).1.queue ≡ w.queue
  pub artifacts : left d (source_of doc) (fn d w).1.storage

abbrev pub Delivers : StageFn → Artifacts → Artifacts → Type 0
Delivers fn found left =
    (d : ℕ) (w : World) (doc : Document)
    → get_document d w.db ≡ some doc
    → doc.status ≡ processing
    → found d (source_of doc) w.storage
    → Outcome fn d w left

startable-processing :
    (s : DocumentStatus)
    → is_startable s ≡ true
    → (if same_document_status s pending then processing else s) ≡ processing
startable-processing s h = ground (arith, h)

taken_up-processing :
    (doc : Document) → is_startable doc.status ≡ true → (taken_up doc).status ≡ processing
taken_up-processing doc h = elim (Bool-cases (same_document_status doc.status pending)) [
  | inl e ↦ rw e refl
  | inr e ↦ rw e (ground (arith, e, h))
]

taken_up-source : (doc : Document) → source_of (taken_up doc) ≡ source_of doc
taken_up-source doc = elim (Bool-cases (same_document_status doc.status pending)) [
  | inl e ↦ rw e refl
  | inr e ↦ rw e refl
]

-- A document waits in the queue for a stage, under the job `i`, with what the stage needs.
pub record Waits (found : Artifacts) (s : JobStage) (d i : ℕ) (w : World) : Type 0 where
  pub job : Job
  pub doc : Document
  pub ready : Ready i w.db job doc
  pub at : job.stage ≡ s
  pub owned : job.document_id ≡ d
  pub artifacts : found job.document_id (source_of doc) w.storage

run_body-ok :
    (fn : StageFn) (d : ℕ) (w : World) (details : Details)
    → (fn d w).0 ≡ ok details
    → run_body fn d w ≡ (ok details, (fn d w).1)
unfolding run_body
run_body-ok fn d w details e = rw (e, run_body) refl

module _ (env : Env) (fn : StageFn) (found left : Artifacts) (delivers : Delivers fn found left)
    (i : ℕ) (w : World) (job : Job) (doc : Document) (ready : Ready i w.db job doc)
    (needed : found job.document_id (source_of doc) w.storage) where
  abbrev begun : World
  begun = record w { db = (start_stage env.start_time i (some job.stage) w.db).1 }

  -- The body of a stage that a document waits for.
  pub run_body-delivers : Outcome fn job.document_id begun left
  run_body-delivers =
      let (r, jobs, docs) =
        start_stage-starts env.start_time i job doc w.db ready.there ready.owner ready.active
          ready.startable in
      delivers job.document_id begun (taken_up doc) docs (taken_up-processing doc ready.startable)
        (rw (taken_up-source doc) needed)

  -- The world at the end of the body, in which the last transaction begins.
  abbrev body_left : World
  body_left = (fn job.document_id begun).1

  late : get_job i body_left.db ≡ some (started env.start_time job)
  late =
      let (r, jobs, docs) =
        start_stage-starts env.start_time i job doc w.db ready.there ready.owner ready.active
          ready.startable in
      rw run_body-delivers.jobs jobs

  end-body_left : end_world (alone env) i fn w job doc ready ≡ body_left
  end-body_left =
      ap (λ t. t.1)
        (run_body-ok fn job.document_id begun run_body-delivers.details run_body-delivers.result)

  pub run_stage-Waits :
      (fresh : IsFresh env.new_id) (accepts : (v : World) (n : ℕ) → env.redis v n ≡ accepted)
      (next : JobStage) (task : String)
      → after job.stage ≡ some (next, task)
      → let (r, w') = run_stage (alone env) i job.stage fn w in
        (n : ℕ) × (r ≡ ok tt)
        × (w'.queue ≡ w.queue ++ (task, n) ∷ [])
        × Waits left next job.document_id n w'
  unfolding new_job
  run_stage-Waits fresh accepts next task follows =
      let out = run_body-delivers in
      let (r, done, created, docs, queue, storage) =
        run_stage-next (alone env) i fn w job doc ready out.details out.result
          (started env.start_time job) out.doc (rw end-body_left late) refl
          (rw end-body_left out.there) out.still next task follows (fresh _) (accepts _ _) in
      (
        env.new_id (end_world (alone env) i fn w job doc ready).db,
        r,
        queue
            ∙ ap
                (λ v.
                  v.queue
                  ++ (task, env.new_id (end_world (alone env) i fn w job doc ready).db) ∷ [])
                end-body_left
            ∙ ap (λ q. q ++ (task, env.new_id (end_world (alone env) i fn w job doc ready).db) ∷ [])
                out.queue,
        record {
          job = new_job env.end_time job.document_id next queued;
          doc = counted job.stage out.details out.doc;
          ready = record {
            there = created;
            owner = docs;
            active = inl refl;
            startable = ap is_startable out.still;
          };
          at = refl;
          owned = refl;
          artifacts = rw storage (rw end-body_left out.artifacts);
        },
      )

  pub run_stage-Indexed :
      after job.stage ≡ none
      → let (r, w') = run_stage (alone env) i job.stage fn w in
        (r ≡ ok tt)
        × (w'.queue ≡ w.queue)
        × (get_document job.document_id w'.db
            ≡ some
                (published env.end_time job.stage run_body-delivers.details run_body-delivers.doc))
  run_stage-Indexed last =
      let out = run_body-delivers in
      let (r, done, docs, queue, _) =
        run_stage-last (alone env) i fn w job doc ready out.details out.result
          (started env.start_time job) out.doc (rw end-body_left late) refl
          (rw end-body_left out.there) out.still last in
      (r, queue ∙ ap (λ v. v.queue) end-body_left ∙ out.queue, docs)
