-- ===== src/Storage/Uploads.antt =====
-- What an upload leaves on the disk of backend/app/services/storage/local.py, whether it is stored or fails.
use mathlib.Core.List.{append-nil}
use package.text.Mathlib.TextEquality.{eq_iff}
use doc_mind_ai.Base.{
  ℕ, ◌≤◌, ◌<◌, ◌≡◌, refl, String, Bool, true, false, none, List, [], ◌∷◌, ◌++◌, map, take, length,
  if◌then◌else◌, leb, Bool-cases, inl, inr, arith,
}
use doc_mind_ai.Model.Errors.{ok, raise}
use doc_mind_ai.Storage.Backend.{
  StoredObject, object_at, put_object, object_at-put_object, remove_object-put_object,
}
use doc_mind_ai.Storage.Signatures.{Bytes}
use doc_mind_ai.Storage.Mime.{extension_for}
use doc_mind_ai.Storage.Validation.{key_for, is_match, uuid_pattern, times, is_hex}
use doc_mind_ai.Storage.Accepted.{key_for-accepted}
use doc_mind_ai.Storage.Local.{
  Disk, Platform, bytes, head_bytes, detect, flush_rest, known_or_detected, resolve_key, is_stored,
  place_upload, start, finish_upload, receive, put_stream, upload_too_large,
}
use doc_mind_ai.Storage.Streaming.{
  joined, during, progress, uploads-append, take_stream-progress, take_stream-too_large,
}

start-progress : (platform : Platform) (m : String) → start platform ≡ progress m [] []
unfolding head_bytes
start-progress platform m = refl

pub flush_rest-during :
    (name : String) (disk : Disk) (w buf : Bytes)
    → flush_rest name buf (during name disk w) ≡ (ok tt, during name disk (w ++ buf))
flush_rest-during name disk w [] = rw append-nil refl
flush_rest-during name disk w (b ∷ rest) = rw (uploads-append name disk.uploads w (b ∷ rest)) refl

module _ (platform : Platform) (filename m : String) where
  known_or_detected-progress :
      (done buf : Bytes)
      → detect platform (take head_bytes done) filename ≡ ok m
      → known_or_detected platform (progress m done buf) filename ≡ ok m
  known_or_detected-progress done buf h = elim (Bool-cases (leb head_bytes (length done))) [
    | inl e ↦ rw e refl
    | inr e ↦ rw e h
  ]

  module _ (name user_id : String) (max_bytes : ℕ) (disk : Disk)
      (unused : object_at name disk.uploads ≡ none) (cs : List Bytes) where
    abbrev pub key : String
    key = key_for user_id (platform.sha256 (joined cs)) (extension_for platform.mime m)

    abbrev pub stored : Bool → StoredObject
    stored deduplicated = record {
      key = key;
      content_hash = platform.sha256 (joined cs);
      mime_type = m;
      size_bytes = length (joined cs);
      deduplicated = deduplicated;
      filename = filename;
    }

    place-during : place_upload platform name (stored false) (during name disk (joined cs)) ≡ (
      ok (stored (is_stored platform key disk.objects)),
      record disk {
        objects =
            if is_stored platform key disk.objects
            then disk.objects
            else put_object key (joined cs) disk.objects;
      },
    )
    place-during = elim (Bool-cases (is_stored platform key disk.objects)) [
      | inl e ↦ rw e (rw (remove_object-put_object name (joined cs) disk.uploads unused) refl)
      | inr e ↦ rw e (
          rw (remove_object-put_object name (joined cs) disk.uploads unused) (
            rw (object_at-put_object name name (joined cs) disk.uploads)
              (rw ((eq_iff name name).1 refl) refl)))
    ]

    -- An upload whose stream ends, with at most max_bytes bytes and a type that is accepted, is
    -- stored: the result has the digest of all bytes, the type and the number of bytes; the object
    -- of its key holds the bytes, or stays as it was if there was one, which the result says; and
    -- no other file changes. Condition: the id of the user and the digest have their forms, the
    -- path of the key is inside the root, and the name of the upload is not in use.
    pub put_stream-stores :
        length (joined cs) ≤ max_bytes
        → detect platform (take head_bytes (joined cs)) filename ≡ ok m
        → is_match uuid_pattern user_id ≡ true
        → is_match (times 64 is_hex) (platform.sha256 (joined cs)) ≡ true
        → platform.is_inside key ≡ true
        → put_stream platform name user_id (map bytes cs) filename max_bytes disk ≡ (
          ok (stored (is_stored platform key disk.objects)),
          record disk {
            objects =
                if is_stored platform key disk.objects
                then disk.objects
                else put_object key (joined cs) disk.objects;
          },
        )
    unfolding put_stream receive finish_upload resolve_key
    put_stream-stores small h u x inside =
        let (w, buf, took, split) =
          take_stream-progress platform filename m name max_bytes disk cs [] [] [] small h refl in
        let valid = key_for-accepted platform.mime user_id (platform.sha256 (joined cs)) m u x in
        rw (start-progress platform m) (
          rw took (
            rw (flush_rest-during name disk w buf, split)
              (rw (known_or_detected-progress (joined cs) buf h)
                (rw valid (rw inside (rw place-during refl))))))

    -- A stream that ends with more than max_bytes bytes, of a type that is accepted, is refused for its size, and no
    -- file changes.
    pub put_stream-too_large :
        max_bytes < length (joined cs)
        → detect platform (take head_bytes (joined cs)) filename ≡ ok m
        → put_stream platform name user_id (map bytes cs) filename max_bytes disk
          ≡ (raise (upload_too_large max_bytes), disk)
    unfolding put_stream receive
    put_stream-too_large large h =
        let (w, took) =
          take_stream-too_large platform filename m name max_bytes disk cs [] [] [] (omega arith)
            large h refl in
        rw (start-progress platform m)
          (rw took (rw (remove_object-put_object name w disk.uploads unused) refl))
