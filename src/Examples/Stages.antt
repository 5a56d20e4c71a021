-- ===== src/Examples/Stages.antt =====
-- Runs of stages.
use doc_mind_ai.Base.{
  ◌≡◌, ◌==◌, Bool-cases, refl, inl, inr, none, some, [], ◌∷◌, find, update, arith,
}
use doc_mind_ai.Model.Enums.{DocumentStatus, extract, clean, index, queued, running, failed}
use doc_mind_ai.Model.Errors.{describe, exhausted, ok, raise}
use doc_mind_ai.Model.Rows.{Db, Job, get_job, get_document, set_job}
use doc_mind_ai.Repositories.Jobs.{new_job, attempts_of}
use doc_mind_ai.Model.Details.{get}
use doc_mind_ai.Ingester.Methods.{record_attempt, start_stage, fail_stage, complete_stage}
use doc_mind_ai.Ingester.Invariant.{IsValid}
use doc_mind_ai.Ingester.Machine.{Steps}
use doc_mind_ai.Ingester.Effects.{failed_job, failed_document}
use doc_mind_ai.Ingester.Completion.{done_job, counted, published, attempted}
use doc_mind_ai.Ingester.Refinement.{methods-Steps}
use doc_mind_ai.Worker.Stage.{Env, is_permanent, run_body, after, retry_later, run_stage}
use doc_mind_ai.Worker.Outcomes.{
  run_stage-idle, Ready, run_stage-permanent, run_stage-exhausted, run_stage-retry,
}
use doc_mind_ai.Worker.Success.{run_stage-last, run_stage-next}
use doc_mind_ai.Worker.Guarantees.{AreThere, run_stage-settled_rows, run_stage-IsValid}
use doc_mind_ai.Examples.Samples.{
  next_id-IsFresh, document, job, rows, waiting, waiting_last, over, try, pages, works, bad_value,
  no_network, raises,
}

abbrev pub going : Job
going = job extract running (some 110) none

abbrev going_last : Job
going_last = job index running (some 110) none

Ready-waiting : Ready 5 waiting.db (job extract queued none none) (document DocumentStatus.pending)
unfolding find
Ready-waiting = record { there = refl; owner = refl; active = inl refl; startable = refl }

Ready-waiting_last :
    Ready 5 waiting_last.db (job index queued none none) (document DocumentStatus.processing)
unfolding find
Ready-waiting_last = record { there = refl; owner = refl; active = inl refl; startable = refl }

run_stage-permanent_example :
    let (r, w') = run_stage (try 1) 5 extract (raises bad_value) waiting in
    (r ≡ ok tt)
    × (get_job 5 w'.db ≡ some (failed_job 120 (describe bad_value) going))
    × (get_document 1 w'.db
        ≡ some (failed_document (describe bad_value) (document DocumentStatus.processing)))
unfolding find start_stage is_permanent run_body update
run_stage-permanent_example =
    run_stage-permanent (try 1) 5 (raises bad_value) waiting (job extract queued none none)
      (document DocumentStatus.pending) Ready-waiting bad_value going
      (document DocumentStatus.processing) refl refl refl refl refl refl

run_stage-exhausted_example :
    let (r, w') = run_stage (try 3) 5 extract (raises no_network) waiting in
    (r ≡ ok tt)
    × (get_job 5 w'.db ≡ some (failed_job 120 (exhausted no_network) going))
    × (get_document 1 w'.db
        ≡ some (failed_document (exhausted no_network) (document DocumentStatus.processing)))
unfolding find start_stage is_permanent run_body update
run_stage-exhausted_example =
    run_stage-exhausted (try 3) 5 (raises no_network) waiting (job extract queued none none)
      (document DocumentStatus.pending) Ready-waiting no_network going
      (document DocumentStatus.processing) refl refl refl (omega arith) refl refl refl

-- The rows once the job runs.
abbrev pub started_rows : Db
started_rows = rows (document DocumentStatus.processing) going

run_stage-retry_example : run_stage (try 2) 5 extract (raises no_network) waiting ≡ (
  raise (retry_later 2),
  record waiting { db = set_job 5 (attempted 2 (describe no_network) [] going) started_rows },
)
unfolding find start_stage is_permanent run_body update attempts_of get
run_stage-retry_example =
    run_stage-retry (try 2) 5 (raises no_network) waiting (job extract queued none none)
      (document DocumentStatus.pending) Ready-waiting no_network going [] refl refl refl
      (omega arith) refl refl refl

run_stage-last_example :
    let (r, w') = run_stage (try 1) 5 index works waiting_last in
    (r ≡ ok tt)
    × (get_job 5 w'.db ≡ some (done_job 120 pages going_last))
    × (get_document 1 w'.db ≡ some (published 120 index pages (document DocumentStatus.processing)))
    × (w'.queue ≡ [])
    × (w'.storage ≡ [])
unfolding find start_stage run_body update after
run_stage-last_example =
    run_stage-last (try 1) 5 works waiting_last (job index queued none none)
      (document DocumentStatus.processing) Ready-waiting_last pages refl going_last
      (document DocumentStatus.processing) refl refl refl refl refl

run_stage-next_example :
    let (r, w') = run_stage (try 1) 5 extract works waiting in
    (r ≡ ok tt)
    × (get_job 5 w'.db ≡ some (done_job 120 pages going))
    × (get_job 6 w'.db ≡ some (new_job 120 1 clean queued))
    × (get_document 1 w'.db ≡ some (counted extract pages (document DocumentStatus.processing)))
    × (w'.queue ≡ ("process_clean", 6) ∷ [])
    × (w'.storage ≡ [])
unfolding find start_stage run_body update after
run_stage-next_example =
    run_stage-next (try 1) 5 works waiting (job extract queued none none)
      (document DocumentStatus.pending) Ready-waiting pages refl going
      (document DocumentStatus.processing) refl refl refl refl clean "process_clean" refl refl refl

-- The document and its job are deleted while the body runs.
abbrev deleting : Env
deleting = record (try 1) {
  before_end = λ w. record w { db = record { documents = []; jobs = []; chunks = [] } };
}

pub IsValid-waiting : IsValid waiting.db
unfolding find
IsValid-waiting = record {
  jobs_stamped = λ i. elim (Bool-cases (5 == i)) [ inl e ↦ rw e (tt, tt) | inr e ↦ rw e tt ];
  documents_dated = λ i. elim (Bool-cases (1 == i)) [ inl e ↦ rw e tt | inr e ↦ rw e tt ];
  jobs_owned = λ i. elim (Bool-cases (5 == i)) [ inl e ↦ rw e tt | inr e ↦ rw e tt ];
}

pub IsValid-over : IsValid over.db
unfolding find
IsValid-over = record {
  jobs_stamped = λ i. elim (Bool-cases (5 == i)) [ inl e ↦ rw e tt | inr e ↦ rw e tt ];
  documents_dated = λ i. elim (Bool-cases (1 == i)) [ inl e ↦ rw e tt | inr e ↦ rw e tt ];
  jobs_owned = λ i. elim (Bool-cases (5 == i)) [ inl e ↦ rw e tt | inr e ↦ rw e tt ];
}

run_stage-IsValid_example : IsValid (run_stage (try 1) 5 extract works waiting).1.db
run_stage-IsValid_example =
    run_stage-IsValid (try 1) next_id-IsFresh 5 extract works waiting (λ v p. p) (λ v p. p)
      (λ d v p. p) IsValid-waiting

methods-Steps_example :
    Steps started_rows (start_stage 120 5 (some extract) started_rows).1
    × Steps started_rows (complete_stage 120 6 5 pages (some clean) started_rows).1
    × Steps started_rows (fail_stage 120 5 (describe bad_value) started_rows)
    × Steps started_rows (record_attempt 5 (describe bad_value) 1 started_rows).1
unfolding find
methods-Steps_example =
    methods-Steps 120 6 5 (some extract) pages (some clean) (describe bad_value) 1 started_rows refl

run_stage-idle_example : run_stage (try 1) 5 extract works over ≡ (ok tt, over)
unfolding find
run_stage-idle_example =
    run_stage-idle (try 1) 5 extract works over
      (inr (job extract failed (some 101) (some 102), refl, refl))

run_stage-settled_rows_example :
    AreThere 5
      (job extract failed (some 101) (some 102))
      1
      (document DocumentStatus.failed)
      (run_stage (try 1) 5 extract works over).1.db
unfolding find
run_stage-settled_rows_example =
    run_stage-settled_rows (try 1) next_id-IsFresh 5 extract works over 5
      (job extract failed (some 101) (some 102)) 1 (document DocumentStatus.failed) refl refl
      (λ v p. p) (λ v p. p) (λ d v p. p) (refl, refl)
