-- ===== src/Examples/Uploads.antt =====
-- Uploads to the storage on files, and the artifacts of the stages there.
use doc_mind_ai.Base.{
  ◌≤◌, ◌≡◌, refl, String, Bool, true, false, none, List, [], ◌∷◌, All, length, arith,
}
use doc_mind_ai.Model.Errors.{connection_error, str, Error, error, ok, raise}
use doc_mind_ai.Storage.Backend.{StoredObject, object_at, put_object, remove_object}
use doc_mind_ai.Storage.Signatures.{Bytes}
use doc_mind_ai.Storage.Mime.{detect_mime, extension_for}
use doc_mind_ai.Storage.Validation.{key_for, matches, characters, times}
use doc_mind_ai.Storage.Local.{
  Disk, Platform, bytes, broken, head_bytes, write_buffer, put_stream, upload_too_large,
}
use doc_mind_ai.Storage.Streaming.{joined}
use doc_mind_ai.Storage.Uploads.{put_stream-stores, put_stream-too_large}
use doc_mind_ai.Storage.Failures.{put_stream-raises}
use doc_mind_ai.Storage.Files.{open_stream}
use doc_mind_ai.Storage.Downloads.{open_stream-put_stream}

abbrev pub platform : Platform
platform = record {
  mime = record {
    from_buffer = λ head. "application/octet-stream";
    decode = λ bytes. none;
    suffix = λ filename. ".pdf";
  };
  sha256 = λ b. "0123456789abcdef0123456789abcdef0123456789abcdef0123456789abcdef";
  is_inside = λ key. true;
}

abbrev pub owner : String
owner = "123e4567-e89b-12d3-a456-426614174000"

abbrev disk : Disk
disk = record { objects = ("other", 1 ∷ []) ∷ []; uploads = ("busy", 2 ∷ []) ∷ [] }

-- `%PDF-1.7` in two chunks.
abbrev chunks : List Bytes
chunks = (37 ∷ 80 ∷ 68 ∷ []) ∷ (70 ∷ 45 ∷ 49 ∷ 46 ∷ 55 ∷ []) ∷ []

abbrev report_key : String
unfolding key_for extension_for characters
report_key = key_for owner (platform.sha256 []) ".pdf"

abbrev report : Bool → StoredObject
unfolding key_for extension_for characters
report deduplicated = record {
  key = report_key;
  content_hash = platform.sha256 [];
  mime_type = "application/pdf";
  size_bytes = 8;
  deduplicated = deduplicated;
  filename = "report.pdf";
}

open_stream-put_stream_example :
    let (r, disk') =
      put_stream platform "upload" owner
        (bytes (37 ∷ 80 ∷ 68 ∷ []) ∷ bytes (70 ∷ 45 ∷ 49 ∷ 46 ∷ 55 ∷ []) ∷ [])
        "report.pdf"
        100
        disk in
    (result : StoredObject) × (pieces : List Bytes) × (r ≡ ok result)
    × (result.size_bytes ≡ length (joined chunks))
    × (open_stream platform 4 result.key disk'.objects ≡ ok pieces)
    × (joined pieces ≡ joined chunks)
    × All (λ b. length b ≤ 4) pieces
unfolding head_bytes detect_mime matches times characters key_for extension_for object_at
open_stream-put_stream_example =
    open_stream-put_stream platform "upload" owner "report.pdf" "application/pdf" 100 disk chunks 3
      refl (omega arith) refl refl refl refl refl

put_stream-stores_example :
    put_stream platform "upload" owner
      (bytes (37 ∷ 80 ∷ 68 ∷ []) ∷ bytes (70 ∷ 45 ∷ 49 ∷ 46 ∷ 55 ∷ []) ∷ [])
      "report.pdf"
      100
      disk
    ≡ (
      ok (report false),
      record disk {
        objects = ("other", 1 ∷ []) ∷ (report_key, 37 ∷ 80 ∷ 68 ∷ 70 ∷ 45 ∷ 49 ∷ 46 ∷ 55 ∷ []) ∷ [];
      },
    )
unfolding head_bytes detect_mime matches times characters key_for extension_for object_at put_object
    report report_key
put_stream-stores_example =
    put_stream-stores platform "report.pdf" "application/pdf" "upload" owner 100 disk refl chunks
      (omega arith) refl refl refl refl

put_stream-too_large_example :
    put_stream platform "upload" owner
      (bytes (37 ∷ 80 ∷ 68 ∷ []) ∷ bytes (70 ∷ 45 ∷ 49 ∷ 46 ∷ 55 ∷ []) ∷ [])
      "report.pdf"
      7
      disk
    ≡ (raise (upload_too_large 7), disk)
unfolding head_bytes detect_mime object_at
put_stream-too_large_example =
    put_stream-too_large platform "report.pdf" "application/pdf" "upload" owner 7 disk refl chunks
      (omega arith) refl

abbrev lost : Error
lost = error connection_error (str "client disconnected" ∷ [])

put_stream-raises_example : disk ≡ disk
unfolding put_stream head_bytes write_buffer object_at put_object remove_object
put_stream-raises_example =
    put_stream-raises platform "upload" owner (bytes (37 ∷ 80 ∷ []) ∷ broken lost ∷ []) "report.pdf"
      100 disk lost disk refl refl
