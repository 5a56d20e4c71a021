-- ===== src/Examples/Samples.antt =====
-- Rows, worlds and environments for the examples.
use doc_mind_ai.Base.{ℕ, suc, ◌<◌, max, ◌≡◌, refl, Option, none, some, [], ◌∷◌, Table, find, arith}
use doc_mind_ai.Model.Enums.{DocumentStatus, JobStage, extract, index, JobStatus, queued, failed}
use doc_mind_ai.Model.Errors.{value_error, connection_error, str, Error, error, ok, raise}
use doc_mind_ai.Model.Details.{null, num, Details}
use doc_mind_ai.Model.Rows.{Document, Job, Db}
use doc_mind_ai.Worker.Keeps.{IsFresh}
use doc_mind_ai.Worker.Stage.{World, StageFn, Reply, accepted, Env}

-- A new id above all that are in use.
abbrev top {ℓ} : {A : Type ℓ} → Table A → ℕ
top [] = 0
top ((i, row) ∷ t) = max i (top t)

find-above {ℓ} : {A : Type ℓ} (i : ℕ) (t : Table A) → top t < i → find i t ≡ none
unfolding find
find-above i [] h = refl
find-above i ((j, row) ∷ t) h = ground (arith, find-above i t, h)

abbrev pub next_id : Db → ℕ
next_id db = suc (top db.jobs)

pub next_id-IsFresh : IsFresh next_id
next_id-IsFresh db = find-above (next_id db) db.jobs (omega arith)

abbrev pub document : DocumentStatus → Document
document status = record {
  user_id = 7;
  status = status;
  filename = "report.pdf";
  mime_type = "application/pdf";
  doc_type = none;
  storage_key = some "7/ab/report.pdf";
  content_hash = some "abcd";
  size_bytes = 2048;
  page_count = null;
  current_version = 1;
  parsed_key = none;
  error_message = none;
  metadata = [];
  indexed_at = none;
  created_at = 100;
}

abbrev pub job : JobStage → JobStatus → Option ℕ → Option ℕ → Job
job stage status started finished = record {
  document_id = 1;
  stage = stage;
  status = status;
  started_at = started;
  finished_at = finished;
  details = [];
  version = 0;
  created_at = 100;
}

-- One document with one job, whose id is 5.
abbrev pub rows : Document → Job → Db
rows doc j = record { documents = (1, doc) ∷ []; jobs = (5, j) ∷ []; chunks = [] }

abbrev pub world : Db → World
world db = record { db = db; storage = []; queue = [] }

abbrev pub waiting : World
waiting = world (rows (document DocumentStatus.pending) (job extract queued none none))

abbrev pub waiting_last : World
waiting_last = world (rows (document DocumentStatus.processing) (job index queued none none))

abbrev pub over : World
over = world (rows (document DocumentStatus.failed) (job extract failed (some 101) (some 102)))

abbrev pub accepting : World → ℕ → Reply
accepting w id = accepted

abbrev pub try : ℕ → Env
try n = record {
  job_try = n;
  max_tries = 3;
  start_time = 110;
  end_time = 120;
  new_id = next_id;
  redis = accepting;
  before_body = λ w. w;
  before_end = λ w. w;
}

-- Bodies of a stage.
abbrev pub pages : Details
pages = ("pages", num 12) ∷ []

abbrev pub works : StageFn
works document_id w = (ok pages, w)

abbrev pub bad_value : Error
bad_value = error value_error (str "no text" ∷ [])

abbrev pub no_network : Error
no_network = error connection_error (str "refused" ∷ [])

abbrev pub raises : Error → StageFn
raises e document_id w = (raise e, w)
