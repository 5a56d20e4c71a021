-- ===== src/Stages/Delivery.antt =====
-- Each body leaves what the body of the next stage reads.
use package.text.Mathlib.Text.{◌==◌ as str_eq}
use doc_mind_ai.Base.{find, ℕ, ◌≡◌, refl, ap, ◌∙◌, false, some, String, [], ◌∷◌, map, length}
use doc_mind_ai.Model.Enums.{JobStage, extract, clean, chunk, embed, index}
use doc_mind_ai.Model.Errors.{ok}
use doc_mind_ai.Model.Details.{num, flag, string, merge}
use doc_mind_ai.Model.Rows.{Document, Db, get_document, set_document}
use doc_mind_ai.Repositories.Documents
use doc_mind_ai.Ingester.Effects.{find-set_document}
use doc_mind_ai.Storage.Keys.{Config, Digest, cache_key}
use doc_mind_ai.Worker.Stage.{World}
use doc_mind_ai.Stages.Artifacts.{Store, asdict, save_rows}
use doc_mind_ai.Stages.Bodies.{
  Tools, extracted, first_dimension, save_parsed_document, load_parsed_document, do_extract,
  do_clean, do_chunk, do_embed, do_index,
}
use doc_mind_ai.Stages.RoundTrip.{HasRows, load_rows-HasRows}
use doc_mind_ai.Stages.Index.{load_document-there, do_index-replaces}
use doc_mind_ai.Stages.Pipeline.{Artifacts, Delivers}
use doc_mind_ai.Stages.Conversion.{
  IsReliable, Conversion, stored, outcome, enough_rows, first_dimension-ok,
}

module _ {Parsed : Type 0} (digest : Digest) (config : Config) (store : Store)
    (tools : Tools Parsed) (fresh : ℕ → ℕ) (expected : ℕ) (hash file : String)
    (reliable : IsReliable store (cache_key digest config hash))
    (it : Conversion tools expected) where
  abbrev pub key : JobStage → String
  key s = cache_key digest config hash s

  abbrev pub needs : JobStage → Artifacts
  needs extract d (h, f, p) o =
      (h ≡ some hash)
      × (f ≡ some file)
      × (store.exists (key extract) o ≡ ok false)
      × (store.exists (key clean) o ≡ ok false)
      × (store.materialize file o ≡ ok it.bytes)
  needs clean d (h, f, p) o =
      (h ≡ some hash)
      × (p ≡ some (key extract))
      × (store.exists (key clean) o ≡ ok false)
      × (store.get_bytes (key extract) o ≡ ok (tools.dump it.parsed))
  needs chunk d (h, f, p) o =
      (h ≡ some hash) × (store.get_bytes (key clean) o ≡ ok (tools.dump it.cleaned))
  needs embed d (h, f, p) o = (h ≡ some hash) × HasRows store tools.codec (key chunk) it.rows o
  needs index d (h, f, p) o = (h ≡ some hash) × HasRows store tools.codec (key embed) it.vectors o

  do_chunk-run :
      (d : ℕ) (w : World) (doc : Document)
      → get_document d w.db ≡ some doc
      → doc.content_hash ≡ some hash
      → store.get_bytes (key clean) w.storage ≡ ok (tools.dump it.cleaned)
      → do_chunk digest config store tools d w ≡ (
        ok (("chunk_count", num (length it.rows)) ∷ ("chunks_key", string (key chunk)) ∷ []),
        stored store (key chunk) (tools.codec.pack (map asdict it.rows)) w,
      )
  unfolding do_chunk load_parsed_document save_rows
  do_chunk-run d w doc there hashed saved = rw (load_document-there d "chunk" w.db doc there) (
      rw hashed (
        rw saved (
          rw it.cleaned_readable (
            rw it.chunks (
              rw (reliable.put_ok chunk (tools.codec.pack (map asdict it.rows)) w.storage) refl)))))

  pub do_chunk-Delivers : Delivers (do_chunk digest config store tools) (needs chunk) (needs embed)
  do_chunk-Delivers d w doc there still (hashed, saved) =
      outcome (do_chunk digest config store tools) d w _ (needs embed) _ doc
        (do_chunk-run d w doc there hashed saved) there still refl refl
        (hashed, (_, reliable.get-put chunk _ _, it.rows_readable))

  do_embed-run :
      (d n : ℕ) (w : World) (doc : Document)
      → get_document d w.db ≡ some doc
      → doc.content_hash ≡ some hash
      → HasRows store tools.codec (key chunk) it.rows w.storage
      → first_dimension it.vectors ≡ ok n
      → do_embed digest config store tools d w ≡ (
        ok (
            ("chunk_count", num (length it.vectors))
            ∷ ("dimension", num n)
            ∷ ("embedded_chunks_key", string (key embed))
            ∷ []),
        stored store (key embed) (tools.codec.pack (map asdict it.vectors)) w,
      )
  unfolding do_embed save_rows
  do_embed-run d n w doc there hashed saved dimension =
      rw (load_document-there d "embed" w.db doc there) (
        rw hashed (
          rw (load_rows-HasRows store tools.codec _ it.rows w saved) (
            rw (enough_rows "no chunks to embed" it.rows it.some_rows) (
              rw it.embeds (
                rw dimension (
                  rw (reliable.put_ok embed (tools.codec.pack (map asdict it.vectors)) w.storage)
                    refl))))))

  pub do_embed-Delivers : Delivers (do_embed digest config store tools) (needs embed) (needs index)
  do_embed-Delivers d w doc there still (hashed, saved) =
      let (n, dimension) = first_dimension-ok expected it.vectors it.fits in
      outcome (do_embed digest config store tools) d w _ (needs index) _ doc
        (do_embed-run d n w doc there hashed saved dimension) there still refl refl
        (hashed, (_, reliable.get-put embed _ _, it.vectors_readable))

  do_clean-run :
      (d : ℕ) (w : World) (doc : Document)
      → get_document d w.db ≡ some doc
      → doc.content_hash ≡ some hash
      → doc.parsed_key ≡ some (key extract)
      → store.exists (key clean) w.storage ≡ ok false
      → store.get_bytes (key extract) w.storage ≡ ok (tools.dump it.parsed)
      → do_clean digest config store tools d w ≡ (
        ok (merge (("parsed_key", string (key clean)) ∷ ("cached", flag false) ∷ []) it.stats),
        stored store (key clean) (tools.dump it.cleaned) w,
      )
  unfolding do_clean load_parsed_document save_parsed_document
  do_clean-run d w doc there hashed parsed missing saved =
      rw (load_document-there d "clean" w.db doc there) (
        rw hashed (
          rw missing (
            rw parsed (
              rw saved (
                rw it.parsed_readable (
                  rw it.cleans
                    (rw (reliable.put_ok clean (tools.dump it.cleaned) w.storage) refl)))))))

  pub do_clean-Delivers : Delivers (do_clean digest config store tools) (needs clean) (needs chunk)
  do_clean-Delivers d w doc there still (hashed, parsed, missing, saved) =
      outcome (do_clean digest config store tools) d w _ (needs chunk) _ doc
        (do_clean-run d w doc there hashed parsed missing saved) there still refl refl
        (hashed, reliable.get-put clean _ _)

  set_parsed_key-ok :
      (d : ℕ) (k : String) (db : Db) (doc : Document)
      → get_document d db ≡ some doc
      → Documents.set_parsed_key d k db
        ≡ (ok tt, set_document d (record doc { parsed_key = some k }) db)
  unfolding Documents.set_parsed_key
  set_parsed_key-ok d k db doc there = rw (Documents.require_document-some d db doc there) refl

  do_extract-run :
      (d : ℕ) (w : World) (doc : Document) (db' : Db)
      → get_document d w.db ≡ some doc
      → doc.content_hash ≡ some hash
      → doc.storage_key ≡ some file
      → store.exists (key extract) w.storage ≡ ok false
      → store.materialize file w.storage ≡ ok it.bytes
      → Documents.set_parsed_key d (key extract) w.db ≡ (ok tt, db')
      → do_extract digest config store tools d w ≡ (
        ok (extracted digest config store tools (key extract) false it.parsed),
        record (stored store (key extract) (tools.dump it.parsed) w) { db = db' },
      )
  unfolding do_extract save_parsed_document
  do_extract-run d w doc db' there hashed uploaded missing found marked =
      rw (load_document-there d "extract" w.db doc there) (
        rw hashed (
          rw missing (
            rw uploaded (
              rw found (
                rw it.extracts (
                  rw (reliable.put_ok extract (tools.dump it.parsed) w.storage)
                    (rw marked refl)))))))

  pub do_extract-Delivers :
      str_eq (key extract) (key clean) ≡ false
      → Delivers (do_extract digest config store tools) (needs extract) (needs clean)
  do_extract-Delivers distinct d w doc there still (hashed, uploaded, missing, uncleaned, found) =
      outcome (do_extract digest config store tools) d w _ (needs clean) _
        (record doc { parsed_key = some (key extract) })
        (do_extract-run d w doc _ there hashed uploaded missing found
          (set_parsed_key-ok d (key extract) w.db doc there))
        (find-set_document d _ doc w.db there) still refl refl
        (
          hashed,
          refl,
          reliable.exists-put_missing extract clean _ _ distinct uncleaned,
          reliable.get-put extract _ _,
        )

  -- Nothing is left for another stage.
  abbrev pub nothing : Artifacts
  nothing d source o = Unit {0}

  pub do_index-Delivers :
      Delivers (do_index digest config store tools fresh expected) (needs index) nothing
  do_index-Delivers d w doc there still (hashed, saved) =
      let (r, mine, others, documents, jobs, storage, queue) =
        do_index-replaces digest config store tools fresh expected d it.vectors w doc there
          (rw hashed saved) it.fits it.single in
      record {
        details = _;
        doc = doc;
        result = r;
        there = ap (find d) documents ∙ there;
        still = still;
        jobs = jobs;
        queue = queue;
        artifacts = tt;
      }
