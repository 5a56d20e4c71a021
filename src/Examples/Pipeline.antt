-- ===== src/Examples/Pipeline.antt =====
-- A new document that goes through the five stages, and runs of the last one.
use doc_mind_ai.Base.{
  ℕ, String, ◌≡◌, refl, map, not, none, some, List, [], ◌∷◌, inl, find, rows_where,
}
use doc_mind_ai.Model.Enums.{DocumentStatus, extract, embed, queued, stage_value}
use doc_mind_ai.Model.Errors.{ok}
use doc_mind_ai.Model.Details.{num}
use doc_mind_ai.Model.Rows.{PreparedChunk, Document}
use doc_mind_ai.Repositories.Chunks.{has_repeat, is_chunk_of, payload, count_for_document}
use doc_mind_ai.Storage.Keys.{Digest, cache_key, join_bars, stage_config}
use doc_mind_ai.Storage.Backend.{object_at}
use doc_mind_ai.Worker.Stage.{World}
use doc_mind_ai.Stages.Artifacts.{asdict, save_rows, load_rows}
use doc_mind_ai.Stages.Bodies.{key_of, do_index, body_of}
use doc_mind_ai.Stages.Local.{load_rows-save_rows_local, local_store-IsReliable}
use doc_mind_ai.Stages.Conversion.{IsReliable}
use doc_mind_ai.Storage.Keys.{cache_key}
use doc_mind_ai.Storage.Validation.{matches, times, characters, validate_key, key_for}
use doc_mind_ai.Storage.Local.{resolve_key}
use doc_mind_ai.Storage.Files.{local_store, exists, get_bytes}
use doc_mind_ai.Examples.Uploads.{platform, owner}
use doc_mind_ai.Stages.Index.{do_index-replaces}
use doc_mind_ai.Stages.Pipeline.{alone, Waits}
use doc_mind_ai.Stages.Liveness.{runs, all_stages, IsComplete}
use doc_mind_ai.Stages.Delivery.{needs}
use doc_mind_ai.Stages.Complete.{body_of-IsComplete}
use doc_mind_ai.Examples.Samples.{world, rows, next_id-IsFresh, document, job, waiting, try}
use doc_mind_ai.Examples.Sweeps.{settings, same_text}
use doc_mind_ai.Examples.Artifacts.{packed, unpacked, store, tools, conversion, embedded}

abbrev digits : Digest
digits material = "0123456789abcdef"

abbrev hash : String
hash = platform.sha256 []

abbrev file : String
unfolding key_for characters
file = key_for owner hash ".pdf"

-- A document of the storage on files.
abbrev pdf : Document
pdf = record (document DocumentStatus.pending) { content_hash = some hash; storage_key = some file }

abbrev uploaded : World
uploaded = record (world (rows pdf (job extract queued none none))) {
  storage = (file, 37 ∷ []) ∷ [];
}

abbrev ids : ℕ → ℕ
ids n = n

reliable : IsReliable (local_store platform) (cache_key digits (settings "small") hash)
unfolding matches times characters
reliable =
    local_store-IsReliable platform digits (settings "small") hash (λ material. refl) refl
      (λ s. refl)

Waits-uploaded :
    Waits
      (needs digits
        (settings "small")
        (local_store platform)
        tools
        ids
        2
        hash
        file
        reliable
        conversion
        extract)
      extract
      1
      5
      uploaded
unfolding find object_at conversion cache_key join_bars stage_config stage_value exists get_bytes
    matches times characters validate_key resolve_key file
Waits-uploaded = record {
  job = job extract queued none none;
  doc = pdf;
  ready = record { there = refl; owner = refl; active = inl refl; startable = refl };
  at = refl;
  owned = refl;
  artifacts = (refl, refl, refl, refl, refl);
}

body_of-IsComplete_example : IsComplete (try 1) 1 uploaded (
    runs
      (alone (try 1))
      (body_of digits (settings "small") (local_store platform) tools ids 2)
      all_stages
      5
      uploaded)
unfolding cache_key join_bars stage_config stage_value
body_of-IsComplete_example =
    body_of-IsComplete digits (settings "small") (local_store platform) tools ids 2 hash file
      reliable conversion (try 1) next_id-IsFresh (λ v n. refl) refl 1 5 uploaded Waits-uploaded

load_rows-save_rows_local_example :
    let digest : String → String = λ material. "0123456789abcdef" in
    let key = cache_key digest (settings "small") (platform.sha256 []) embed in
    let (r, w') = save_rows (local_store platform) tools.codec key embedded waiting in
    (r ≡ ok tt)
    × (load_rows (local_store platform) tools.codec key w' ≡ (ok embedded, w'))
    × (w'.db ≡ waiting.db)
unfolding asdict unpacked packed matches times characters
load_rows-save_rows_local_example =
    load_rows-save_rows_local platform tools.codec (λ material. "0123456789abcdef")
      (settings "small") (platform.sha256 []) embed embedded waiting (λ material. refl) refl refl
      refl

-- A world in which the embed stage has left the rows.
abbrev left_by_embed : List PreparedChunk → World
left_by_embed l =
    let key =
      key_of same_text (settings "small") store tools embed (document DocumentStatus.pending) in
    record waiting { storage = (key, tools.codec.pack (map asdict l)) ∷ [] }

do_index-replaces_example :
    let (r, w') =
      do_index same_text (settings "small") store tools ids 2 1 (left_by_embed embedded) in
    (r ≡ ok (("inserted", num 1) ∷ ("replaced", num 0) ∷ []))
    × (rows_where (is_chunk_of 1) w'.db.chunks ≡ payload ids 1 embedded)
    × (rows_where (λ c. not (is_chunk_of 1 c)) w'.db.chunks ≡ [])
    × (w'.db.documents ≡ waiting.db.documents)
    × (w'.db.jobs ≡ waiting.db.jobs)
    × (w'.storage ≡ (left_by_embed embedded).storage)
    × (w'.queue ≡ [])
unfolding asdict unpacked packed object_at find cache_key join_bars stage_config stage_value
    count_for_document has_repeat
do_index-replaces_example =
    do_index-replaces same_text (settings "small") store tools ids 2 1 embedded
      (left_by_embed embedded) (document DocumentStatus.pending) refl (_, refl, refl) refl refl
