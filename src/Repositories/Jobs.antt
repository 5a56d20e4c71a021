-- ===== src/Repositories/Jobs.antt =====
-- backend/app/db/repositories/jobs.py. The clock `now` and the UUID of a new row are arguments.
use doc_mind_ai.Base.{
  ℕ, ◌≡◌, Bool, true, false, ◌&&◌, ◌||◌, Option, none, some, List, [], ◌∷◌, ◌++◌, Table, insert,
  if◌then◌else◌, ◌==◌, ltb, leb,
}
use doc_mind_ai.Model.Enums.{
  JobStage, JobStatus, queued, running, done, failed, same_job_status, same_stage,
}
use doc_mind_ai.Model.Errors.{
  not_found_error, type_error, str, uuid, job_status, Text, error, Result, ok, raise,
}
use doc_mind_ai.Model.Details.{Attempt, Value, text, history, Details, get, put, merge}
use doc_mind_ai.Model.Rows.{Job, Db, get_job, set_job}
use doc_mind_ai.Repositories.Session.{Session, ◌>>=◌, ◌>>◌, pure, throw, modify}

-- A new row, as `ProcessingJob(...)` and the column defaults make it.
unfoldable pub new_job : ℕ → ℕ → JobStage → JobStatus → Job
new_job now document_id stage status = record {
  document_id = document_id;
  stage = stage;
  status = status;
  started_at = none;
  finished_at = none;
  details = [];
  version = 0;
  created_at = now;
}

-- It returns the id of the new row with the row.
unfoldable pub create_enqueue : ℕ → ℕ → ℕ → JobStage → JobStatus → Session (ℕ × Job)
unfolding new_job
create_enqueue now new_id document_id stage status db =
    let job = new_job now document_id stage status in
    (ok (new_id, job), record db { jobs = insert new_id job db.jobs })

-- The row, or the `NotFoundError` of every write method.
unfoldable pub require_job : ℕ → Session Job
require_job job_id db = elim (get_job job_id db) [
  | none ↦ (raise (error not_found_error (str "Job Not found" ∷ [])), db)
  | some job ↦ (ok job, db)
]

pub require_job-some :
    (i : ℕ) (db : Db) (job : Job) → get_job i db ≡ some job → require_job i db ≡ (ok job, db)
unfolding require_job
require_job-some i db job e = rw (e, require_job)

abbrev pub save : ℕ → Job → Session Job
save job_id job = do modify (set_job job_id job); pure job

unfoldable pub mark_running : ℕ → ℕ → Session Job
unfolding require_job
mark_running now job_id = do
  job ← require_job job_id
  if same_job_status job.status queued || same_job_status job.status running
      then save job_id (record job { status = running; started_at = some now })
      else throw (
          error not_found_error (
            str "Job "
            ∷ uuid job_id
            ∷ str " cannot transition to running from "
            ∷ job_status job.status
            ∷ []))

unfoldable pub mark_done : ℕ → ℕ → Details → Session Job
unfolding require_job merge
mark_done now job_id details = do
  job ← require_job job_id
  save job_id
      (record job { status = done; finished_at = some now; details = merge job.details details })

unfoldable pub mark_failed : ℕ → ℕ → Text → Details → Session Job
unfolding require_job merge
mark_failed now job_id reason details = do
  job ← require_job job_id
  save job_id (record job {
    status = failed;
    finished_at = some now;
    details = merge (put "error" (text reason) job.details) details;
  })

-- `list(details.get("attempt", []))`. Only `record_attempt` writes that key, always a list; of the
-- other values a number, a flag and `None` raise `TypeError`, and so does, here, a text.
unfoldable pub attempts_of : Option Value → Result (List Attempt)
attempts_of none = ok []
attempts_of (some (history h)) = ok h
attempts_of (some _) = raise (error type_error (str "object is not iterable" ∷ []))

unfoldable pub record_attempt : ℕ → Text → ℕ → Session (Unit {0})
unfolding require_job attempts_of get put
record_attempt job_id reason attempt = do
  job ← require_job job_id
  past ← λ db. (attempts_of (get "attempt" job.details), db)
  let entry : Attempt = record { attempt = attempt; error = reason }
  modify (
      set_job job_id
        (record job { details = put "attempt" (history (past ++ entry ∷ [])) job.details }))

-- The rows that a query selects, in the order of the table.
unfoldable pub where_job : (Job → Bool) → Table Job → Table Job
where_job p [] = []
where_job p ((i, job) ∷ t) = let rest = where_job p t in if p job then (i, job) ∷ rest else rest

-- `ORDER BY created_at`, for rows of equal time in the order of the table.
place : ℕ × Job → Table Job → Table Job
place (i, job) [] = (i, job) ∷ []
place (i, job) ((j, other) ∷ t) =
    if ltb job.created_at other.created_at
    then (i, job) ∷ (j, other) ∷ t
    else (j, other) ∷ place (i, job) t

oldest_first_onto : Table Job → Table Job → Table Job
oldest_first_onto out [] = out
oldest_first_onto out (row ∷ t) = oldest_first_onto (place row out) t

unfoldable pub oldest_first : Table Job → Table Job
unfolding place oldest_first_onto
oldest_first t = oldest_first_onto [] t

unfoldable pub list_for_document : ℕ → Db → Table Job
unfolding where_job oldest_first
list_for_document document_id db =
    oldest_first (where_job (λ job. job.document_id == document_id) db.jobs)

-- `ORDER BY created_at DESC LIMIT 1`: of rows of equal time the last of the table.
newest_of : Option (ℕ × Job) → Table Job → Option (ℕ × Job)
newest_of best [] = best
newest_of none (row ∷ t) = newest_of (some row) t
newest_of (some (i, b)) ((j, job) ∷ t) =
    newest_of (some (if leb b.created_at job.created_at then (j, job) else (i, b))) t

unfoldable pub latest_by_document : ℕ → Db → Option (ℕ × Job)
unfolding where_job newest_of
latest_by_document document_id db =
    newest_of none (where_job (λ job. job.document_id == document_id) db.jobs)

-- The dict of `latest_by_stage`, as the function `latest.get`.
unfoldable pub latest_by_stage : ℕ → Db → JobStage → Option (ℕ × Job)
unfolding where_job newest_of
latest_by_stage document_id db stage =
    newest_of none
      (where_job (λ job. job.document_id == document_id && same_stage job.stage stage) db.jobs)

abbrev pub is_active : JobStatus → Bool
is_active queued = true
is_active running = true
is_active _ = false

unfoldable pub has_job : (Job → Bool) → Table Job → Bool
has_job p [] = false
has_job p ((i, job) ∷ t) = p job || has_job p t

unfoldable pub has_active_job : ℕ → Db → Bool
unfolding has_job
has_active_job document_id db =
    has_job (λ job. job.document_id == document_id && is_active job.status) db.jobs

unfoldable pub list_queued : ℕ → JobStatus → Db → Table Job
unfolding where_job oldest_first
list_queued cutoff status db =
    oldest_first
      (where_job (λ job. same_job_status job.status status && ltb job.created_at cutoff) db.jobs)

-- `started_at < t` in SQL, where `NULL < t` does not hold
abbrev pub before : Option ℕ → ℕ → Bool
before none t = false
before (some s) t = ltb s t

unfoldable pub is_stuck : ℕ → ℕ → Job → Bool
is_stuck queued_before running_before job =
    same_job_status job.status queued && ltb job.created_at queued_before
    || same_job_status job.status running && before job.started_at running_before

unfoldable pub list_stuck : ℕ → ℕ → Db → Table Job
unfolding where_job is_stuck
list_stuck queued_before running_before db =
    where_job (is_stuck queued_before running_before) db.jobs
