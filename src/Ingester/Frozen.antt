-- ===== src/Ingester/Frozen.antt =====
-- What no sequence of legal changes undoes.
use doc_mind_ai.Base.{ℕ, ◌≡◌, true, false, some, arith, find-update, find-insert}
use doc_mind_ai.Model.Rows.{Document, Job, Db, get_job, get_document}
use doc_mind_ai.Ingester.Methods.{is_finished, is_startable}
use doc_mind_ai.Ingester.Machine.{
  JobStep, begin, note, finish, give_up, DocumentStep, process, reject, count, publish, Step,
  job_step, document_step, enqueue, Steps, here, next,
}

JobStep-unfinished : (old new : Job) → JobStep old new → is_finished old.status ≡ false
JobStep-unfinished old new (begin t s active e e') = ground arith
JobStep-unfinished old new (note d e e') = ground arith
JobStep-unfinished old new (finish t d e e') = ground arith
JobStep-unfinished old new (give_up t d active e) = ground arith

DocumentStep-open : (old new : Document) → DocumentStep old new → is_startable old.status ≡ true
DocumentStep-open old new (process e e') = ground arith
DocumentStep-open old new (reject reason o e) = ground arith
DocumentStep-open old new (count pages e e') = ground arith
DocumentStep-open old new (publish t pages m e e') = ground arith

Step-finished_job :
    {a b : Db} (i : ℕ) (job : Job)
    → Step a b
    → get_job i a ≡ some job
    → is_finished job.status ≡ true
    → get_job i b ≡ some job
Step-finished_job {a} i job (job_step j old new e s e') there over =
    ground (arith, find-update j i new a.jobs old, JobStep-unfinished old new s)
Step-finished_job {a} i job (document_step j old new e s e') there over = ground arith
Step-finished_job {a} i job (enqueue j new doc e o q st fi e') there over =
    ground (arith, find-insert j i new a.jobs)

pub Steps-finished_job :
    {a b : Db} (i : ℕ) (job : Job)
    → Steps a b
    → get_job i a ≡ some job
    → is_finished job.status ≡ true
    → get_job i b ≡ some job
Steps-finished_job i job here there over = there
Steps-finished_job i job (next p s) there over =
    Step-finished_job i job s (Steps-finished_job i job p there over) over

Step-closed_document :
    {a b : Db} (i : ℕ) (doc : Document)
    → Step a b
    → get_document i a ≡ some doc
    → is_startable doc.status ≡ false
    → get_document i b ≡ some doc
Step-closed_document {a} i doc (job_step j old new e s e') there over = ground arith
Step-closed_document {a} i doc (document_step j old new e s e') there over =
    ground (arith, find-update j i new a.documents old, DocumentStep-open old new s)
Step-closed_document {a} i doc (enqueue j new d e o q st fi e') there over = ground arith

pub Steps-closed_document :
    {a b : Db} (i : ℕ) (doc : Document)
    → Steps a b
    → get_document i a ≡ some doc
    → is_startable doc.status ≡ false
    → get_document i b ≡ some doc
Steps-closed_document i doc here there over = there
Steps-closed_document i doc (next p s) there over =
    Step-closed_document i doc s (Steps-closed_document i doc p there over) over
