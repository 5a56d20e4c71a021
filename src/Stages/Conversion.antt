-- ===== src/Stages/Conversion.antt =====
-- What the stages need of the storage and of the tools, and the outcome of a body.
use package.text.Mathlib.Text.{◌==◌ as str_eq}
use doc_mind_ai.Base.{
  ℕ, ◌≡◌, refl, true, false, some, String, List, [], ◌∷◌, map, length, ◌≤◌, arith,
}
use doc_mind_ai.Model.Enums.{JobStage, processing}
use doc_mind_ai.Repositories.Chunks.{has_repeat}
use doc_mind_ai.Model.Errors.{ok}
use doc_mind_ai.Model.Details.{Details}
use doc_mind_ai.Model.Rows.{PreparedChunk, Document, get_document}
use doc_mind_ai.Storage.Backend.{Objects}
use doc_mind_ai.Worker.Stage.{World, StageFn}
use doc_mind_ai.Stages.Artifacts.{Store, asdict}
use doc_mind_ai.Stages.Bodies.{Tools, require_rows, first_dimension}
use doc_mind_ai.Stages.Task.{pure}
use doc_mind_ai.Stages.Index.{is_indexable}
use doc_mind_ai.Stages.Pipeline.{source_of, Artifacts, Outcome}

-- A storage that takes the artifact of each stage under its key: what is put can be read, and it
-- makes no other artifact appear.
pub record IsReliable (store : Store) (key : JobStage → String) : Type 0 where
  pub put_ok :
      (s : JobStage) (bytes : List ℕ) (o : Objects) → (store.put_bytes (key s) bytes o).0 ≡ ok tt
  pub get-put :
      (s : JobStage) (bytes : List ℕ) (o : Objects)
      → store.get_bytes (key s) (store.put_bytes (key s) bytes o).1 ≡ ok bytes
  pub exists-put_missing :
      (s t : JobStage) (bytes : List ℕ) (o : Objects)
      → str_eq (key s) (key t) ≡ false
      → store.exists (key t) o ≡ ok false
      → store.exists (key t) (store.put_bytes (key s) bytes o).1 ≡ ok false

abbrev pub stored : Store → String → List ℕ → World → World
stored store key bytes w = record w { storage = (store.put_bytes key bytes w.storage).1 }

pub outcome :
    (fn : StageFn) (d : ℕ) (w w' : World) (left : Artifacts) (details : Details) (doc : Document)
    → fn d w ≡ (ok details, w')
    → get_document d w'.db ≡ some doc
    → doc.status ≡ processing
    → w'.db.jobs ≡ w.db.jobs
    → w'.queue ≡ w.queue
    → left d (source_of doc) w'.storage
    → Outcome fn d w left
outcome fn d w w' left details doc e there still jobs queue artifacts = record {
  details = details;
  doc = doc;
  result = rw e refl;
  there = rw e there;
  still = still;
  jobs = rw e jobs;
  queue = rw e queue;
  artifacts = rw e artifacts;
}

-- What the tools make of the bytes of a file.
pub record Conversion {Parsed : Type 0} (tools : Tools Parsed) (expected : ℕ) : Type 0 where
  pub bytes : List ℕ
  pub parsed : Parsed
  pub cleaned : Parsed
  pub stats : Details
  pub rows : List PreparedChunk
  pub vectors : List PreparedChunk
  pub extracts : tools.extract_document bytes ≡ ok parsed
  pub parsed_readable : tools.validate (tools.dump parsed) ≡ ok parsed
  pub cleans : tools.clean_document parsed ≡ ok (cleaned, stats)
  pub cleaned_readable : tools.validate (tools.dump cleaned) ≡ ok cleaned
  pub chunks : tools.chunk_document cleaned ≡ ok rows
  pub some_rows : 1 ≤ length rows
  pub rows_readable : tools.codec.unpack (tools.codec.pack (map asdict rows)) ≡ ok (map asdict rows)
  pub embeds : tools.embed_rows rows ≡ ok vectors
  pub vectors_readable :
      tools.codec.unpack (tools.codec.pack (map asdict vectors)) ≡ ok (map asdict vectors)
  pub fits : is_indexable expected vectors ≡ true
  pub single : has_repeat vectors ≡ false

pub enough_rows :
    (message : String) (rows : List PreparedChunk)
    → 1 ≤ length rows
    → require_rows message rows ≡ pure tt
enough_rows message [] h = absurd (omega (arith, h))
enough_rows message (r ∷ rows) h = refl

pub first_dimension-ok :
    (expected : ℕ) (rows : List PreparedChunk)
    → is_indexable expected rows ≡ true
    → (n : ℕ) × (first_dimension rows ≡ ok n)
first_dimension-ok expected [] h = absurd (ground (arith, h))
first_dimension-ok expected (r ∷ rows) h = (_, refl)
