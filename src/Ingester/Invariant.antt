-- ===== src/Ingester/Invariant.antt =====
-- What holds of the rows between two transactions.
use doc_mind_ai.Base.{
  ℕ, Option-cases, inl, inr, insert, ◌≡◌, Option, none, some, arith, find-update, find-insert,
}
use doc_mind_ai.Model.Enums.{DocumentStatus, JobStatus, queued, running, done, indexed}
use doc_mind_ai.Model.Rows.{Document, Job, Db, get_job, get_document, set_job, set_document}
use doc_mind_ai.Ingester.Machine.{
  JobStep, begin, note, finish, give_up, DocumentStep, process, reject, count, publish, Step,
  job_step, document_step, enqueue, Steps, here, next,
}

abbrev pub IsPresent : Option ℕ → Type 0
IsPresent none = ⊥
IsPresent (some t) = Unit

abbrev pub IsUnset : Option ℕ → Type 0
IsUnset none = Unit
IsUnset (some t) = ⊥

-- The time stamps that each status of a job goes with.
abbrev pub Stamped : JobStatus → Option ℕ → Option ℕ → Type 0
Stamped queued s f = IsUnset s × IsUnset f
Stamped running s f = IsPresent s × IsUnset f
Stamped done s f = IsPresent s × IsPresent f
Stamped JobStatus.failed s f = IsPresent f

abbrev pub IsStamped : Job → Type 0
IsStamped job = Stamped job.status job.started_at job.finished_at

-- `indexed_at` is there exactly while the document is indexed.
abbrev pub Dated : DocumentStatus → Option ℕ → Type 0
Dated indexed t = IsPresent t
Dated _ t = IsUnset t

abbrev pub IsDated : Document → Type 0
IsDated doc = Dated doc.status doc.indexed_at

-- What holds of a row that may be there.
abbrev pub Holds {ℓ} : {A : Type ℓ} → (A → Type 0) → Option A → Type 0
Holds P none = Unit
Holds P (some a) = P a

abbrev pub Exists {ℓ} : {A : Type ℓ} → Option A → Type 0
Exists none = ⊥
Exists (some a) = Unit

pub record IsValid (db : Db) : Type 0 where
  pub jobs_stamped : (i : ℕ) → Holds IsStamped (get_job i db)
  pub documents_dated : (i : ℕ) → Holds IsDated (get_document i db)
  -- the foreign key of `processing_jobs`
  pub jobs_owned : (i : ℕ) → Holds (λ job. Exists (get_document job.document_id db)) (get_job i db)

module _ (a : Db) (v : IsValid a) where
  job_step-IsValid :
      (i : ℕ) (old new : Job)
      → get_job i a ≡ some old
      → new.document_id ≡ old.document_id
      → IsStamped new
      → IsValid (set_job i new a)
  job_step-IsValid i old new e d s = record {
    jobs_stamped = λ j. ground (arith, find-update i j new a.jobs old, v.jobs_stamped j);
    documents_dated = v.documents_dated;
    jobs_owned =
        λ j. ground (arith, find-update i j new a.jobs old, v.jobs_owned j, v.jobs_owned i);
  }

  document_step-IsValid :
      (i : ℕ) (old new : Document)
      → get_document i a ≡ some old
      → IsDated new
      → IsValid (set_document i new a)
  document_step-IsValid i old new e d = record {
    jobs_stamped = v.jobs_stamped;
    documents_dated = λ j. ground (arith, find-update i j new a.documents old, v.documents_dated j);
    jobs_owned = λ j. elim (Option-cases (get_job j a)) [
      | inl absent ↦ rw absent tt
      | inr (job, there) ↦
          ground (arith, find-update i job.document_id new a.documents old, v.jobs_owned j)
    ];
  }

  enqueue-IsValid :
      (i : ℕ) (job : Job) (doc : Document)
      → get_job i a ≡ none
      → get_document job.document_id a ≡ some doc
      → IsStamped job
      → IsValid (record a { jobs = insert i job a.jobs })
  enqueue-IsValid i job doc e o s = record {
    jobs_stamped = λ j. ground (arith, find-insert i j job a.jobs, v.jobs_stamped j);
    documents_dated = v.documents_dated;
    jobs_owned = λ j. ground (arith, find-insert i j job a.jobs, v.jobs_owned j);
  }

JobStep-IsStamped : (old new : Job) → JobStep old new → IsStamped old → IsStamped new
JobStep-IsStamped old new (begin t s active e e') h = ground arith
JobStep-IsStamped old new (note d e e') h = ground arith
JobStep-IsStamped old new (finish t d e e') h = ground arith
JobStep-IsStamped old new (give_up t d active e) h = ground arith

same_document : (old new : Job) → JobStep old new → new.document_id ≡ old.document_id
same_document old new (begin t s active e e') = ground arith
same_document old new (note d e e') = ground arith
same_document old new (finish t d e e') = ground arith
same_document old new (give_up t d active e) = ground arith

DocumentStep-IsDated : (old new : Document) → DocumentStep old new → IsDated old → IsDated new
DocumentStep-IsDated old new (process e e') h = ground arith
DocumentStep-IsDated old new (reject reason o e) h = ground arith
DocumentStep-IsDated old new (count pages e e') h = ground arith
DocumentStep-IsDated old new (publish t pages m e e') h = ground arith

-- A legal change keeps the invariant.
pub Step-IsValid : {a b : Db} → Step a b → IsValid a → IsValid b
Step-IsValid {a} {b} (job_step i old new e s e') v = rw e' (
    job_step-IsValid a v i old new e (same_document old new s)
      (JobStep-IsStamped old new s (ground (arith, v.jobs_stamped i))))
Step-IsValid {a} {b} (document_step i old new e s e') v = rw e' (
    document_step-IsValid a v i old new e
      (DocumentStep-IsDated old new s (ground (arith, v.documents_dated i))))
Step-IsValid {a} {b} (enqueue i job doc e o q st fi e') v =
    rw e' (enqueue-IsValid a v i job doc e o (ground arith))

pub Steps-IsValid : {a b : Db} → Steps a b → IsValid a → IsValid b
Steps-IsValid here v = v
Steps-IsValid (next p s) v = Step-IsValid s (Steps-IsValid p v)
