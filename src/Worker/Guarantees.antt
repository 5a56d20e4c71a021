-- ===== src/Worker/Guarantees.antt =====
-- What holds through a whole run of `run_stage`, whatever its body, the other workers, the sweeper
-- and the API do in between, as long as these keep it too.
use doc_mind_ai.Base.{ℕ, ◌≡◌, true, false, some}
use doc_mind_ai.Model.Enums.{JobStage}
use doc_mind_ai.Model.Rows.{Db, Document, Job, get_job, get_document}
use doc_mind_ai.Ingester.Methods.{is_finished, is_startable}
use doc_mind_ai.Ingester.Invariant.{IsValid, Steps-IsValid}
use doc_mind_ai.Ingester.Frozen.{Steps-finished_job, Steps-closed_document}
use doc_mind_ai.Worker.Stage.{World, StageFn, Env, run_stage}
use doc_mind_ai.Worker.Keeps.{IsFresh, run_stage-keeps}

-- A row of a job and one of a document.
abbrev pub AreThere : ℕ → Job → ℕ → Document → Db → Type 0
AreThere k job d doc db = (get_job k db ≡ some job) × (get_document d db ≡ some doc)

module _ (env : Env) (fresh : IsFresh env.new_id) (i : ℕ) (stage : JobStage) (fn : StageFn)
    (w : World) where
  -- If the stage body and the other processes keep the rows valid, and no new id is in use,
  -- run_stage keeps them valid: each job has the time stamps that belong to its status and a
  -- document that exists, and a document has indexed_at exactly while it is indexed.
  pub run_stage-IsValid :
      ((v : World) → IsValid v.db → IsValid (env.before_body v).db)
      → ((v : World) → IsValid v.db → IsValid (env.before_end v).db)
      → ((d : ℕ) (v : World) → IsValid v.db → IsValid (fn d v).1.db)
      → IsValid w.db
      → IsValid (run_stage env i stage fn w).1.db
  run_stage-IsValid others_first others_last body valid =
      run_stage-keeps IsValid (λ a b s v. Steps-IsValid s v) env fresh i stage fn others_first
        others_last body w valid

  -- The rows of a DONE or FAILED job and of an INDEXED or FAILED document stay as they are through
  -- every run of run_stage, for this or another job, if the body and the other processes leave the
  -- two alone and no new id is in use.
  pub run_stage-settled_rows :
      (k : ℕ) (job : Job) (d : ℕ) (doc : Document)
      → is_finished job.status ≡ true
      → is_startable doc.status ≡ false
      → ((v : World) → AreThere k job d doc v.db → AreThere k job d doc (env.before_body v).db)
      → ((v : World) → AreThere k job d doc v.db → AreThere k job d doc (env.before_end v).db)
      → ((e : ℕ) (v : World) → AreThere k job d doc v.db → AreThere k job d doc (fn e v).1.db)
      → AreThere k job d doc w.db
      → AreThere k job d doc (run_stage env i stage fn w).1.db
  run_stage-settled_rows k job d doc over closed others_first others_last body there =
      run_stage-keeps (AreThere k job d doc)
        (λ a b s e. (Steps-finished_job k job s e.0 over, Steps-closed_document d doc s e.1 closed))
        env fresh i stage fn others_first others_last body w there
