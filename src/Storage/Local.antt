-- ===== src/Storage/Local.antt =====
-- backend/app/services/storage/local.py with the helpers of _fn.py: the files below a root directory, and
-- those of its folder for uploads. The digest, and whether a path resolves inside the root, are parameters; errors
-- of the operating system, the creation and removal of folders and log calls are left out.
use doc_mind_ai.Base.{
  ℕ, ◌+◌, ◌-◌, String, Bool, true, false, Option, none, some, List, [], ◌∷◌, ◌++◌, take, length,
  if◌then◌else◌, leb, ltb,
}
use doc_mind_ai.Model.Errors.{
  permanent_error, invalid_key, str, number, Error, error, Result, ok, raise,
}
use doc_mind_ai.Storage.Backend.{Objects, StoredObject, object_at, put_object, remove_object}
use doc_mind_ai.Storage.Signatures
use doc_mind_ai.Storage.Signatures.{Bytes, allowed_mimes}
use doc_mind_ai.Storage.Mime.{detect_mime, extension_for}
use doc_mind_ai.Storage.Validation.{validate_key, key_for}

-- The objects by their keys, and the uploads in flight by their names in the folder `tmp`.
pub record Disk : Type 0 where
  pub objects : Objects
  pub uploads : Objects

pub record Platform : Type 0 where
  pub mime : Signatures.Libraries
  pub sha256 : Bytes → String
  pub is_inside : String → Bool  -- `(root / key).resolve().is_relative_to(root)`

-- What an upload's stream yields: bytes, or an error such as a lost connection.
pub data Event : Type 0 where
  bytes : Bytes → Event
  broken : Error → Event

unfoldable pub head_bytes : ℕ
head_bytes = 8192

unfoldable pub write_buffer : ℕ
write_buffer = 4194304

-- The variables of the loop of `put_stream`. What the hasher has taken is kept as bytes.
pub record Progress : Type 0 where
  pub hashed : Bytes
  pub size : ℕ
  pub head : Bytes
  pub mime_type : Option String
  pub buf : Bytes

abbrev pub Action {ℓ} : Type ℓ → Type ℓ
Action A = Disk → Result A × Disk

abbrev pub continue {ℓ κ} : {A : Type ℓ} {B : Type κ} → Result A → (A → Action B) → Action B
continue (ok a) f disk = f a disk
continue (raise e) f disk = (raise e, disk)

infixl 5 ◌>>=◌ ◌>>◌
abbrev pub ◌>>=◌ {ℓ κ} : {A : Type ℓ} {B : Type κ} → Action A → (A → Action B) → Action B
◌>>=◌ m f disk = let (r, disk') = m disk in continue r f disk'

abbrev pub ◌>>◌ {ℓ κ} : {A : Type ℓ} {B : Type κ} → Action A → Action B → Action B
m >> n = m >>= λ _. n

abbrev pub pure {ℓ} : {A : Type ℓ} → A → Action A
pure a disk = (ok a, disk)

abbrev pub call {ℓ} : {A : Type ℓ} → Result A → Action A
call r disk = (r, disk)

abbrev pub bytes_or_empty : Option Bytes → Bytes
bytes_or_empty none = []
bytes_or_empty (some b) = b

-- `fh.write` on the file of an upload.
abbrev pub append_upload : String → Bytes → Action (Unit {0})
append_upload name b disk = (
  ok tt,
  record disk {
    uploads = put_object name (bytes_or_empty (object_at name disk.uploads) ++ b) disk.uploads;
  },
)

abbrev pub open_upload : String → Action (Unit {0})
open_upload name disk = (ok tt, record disk { uploads = put_object name [] disk.uploads })

abbrev pub unlink_upload : String → Disk → Disk
unlink_upload name disk = record disk { uploads = remove_object name disk.uploads }

abbrev pub upload_too_large : ℕ → Error
upload_too_large max_bytes = error permanent_error (str "upload exceeds " ∷ number max_bytes ∷ [])

abbrev pub to_some : Result String → Result (Option String)
to_some (ok m) = ok (some m)
to_some (raise e) = raise e

-- `if buf: fh.write(buf)`
abbrev pub flush_rest : String → Bytes → Action (Unit {0})
flush_rest name [] = pure tt
flush_rest name (b ∷ rest) = append_upload name (b ∷ rest)

module _ (platform : Platform) where
  abbrev pub detect : Bytes → String → Result String
  detect head filename = detect_mime platform.mime head filename allowed_mimes

  -- The type that the loop knows after a chunk: it is looked for when the head is complete.
  abbrev pub sniffed : Progress → Bytes → String → Result (Option String)
  sniffed p head filename =
      if ltb (length p.head) head_bytes
      then if leb head_bytes (length head) then to_some (detect head filename) else ok p.mime_type
      else ok p.mime_type

  abbrev pub next_head : Progress → Bytes → Bytes
  next_head p chunk =
      if ltb (length p.head) head_bytes
      then p.head ++ take (head_bytes - length p.head) chunk
      else p.head

  -- The end of the loop's body: a full buffer is written.
  abbrev pub flush_full : String → Progress → Action Progress
  flush_full name p =
      if leb write_buffer (length p.buf)
      then append_upload name p.buf >> pure (record p { buf = [] })
      else pure p

  unfoldable pub take_chunk : String → String → ℕ → Bytes → Progress → Action Progress
  unfolding detect_mime object_at put_object
  take_chunk name filename max_bytes chunk p =
      let size = p.size + length chunk in
      if ltb max_bytes size then call (raise (upload_too_large max_bytes)) else do
        mime_type ← call (sniffed p (next_head p chunk) filename)
        flush_full name (record {
          hashed = p.hashed ++ chunk;
          size = size;
          head = next_head p chunk;
          mime_type = mime_type;
          buf = p.buf ++ chunk;
        })

  unfoldable pub take_stream : String → String → ℕ → List Event → Progress → Action Progress
  unfolding take_chunk
  take_stream name filename max_bytes [] p = pure p
  take_stream name filename max_bytes (broken e ∷ events) p = call (raise e)
  take_stream name filename max_bytes (bytes chunk ∷ events) p =
      take_chunk name filename max_bytes chunk p >>= take_stream name filename max_bytes events

  abbrev pub known_or_detected : Progress → String → Result String
  known_or_detected p filename = elim (p.mime_type) [
    | none ↦ detect p.head filename
    | some m ↦ ok m
  ]

  -- `_resolve`
  abbrev pub inside : String → Result (Unit {0}) → Result (Unit {0})
  inside key (raise e) = raise e
  inside key (ok u) =
      if platform.is_inside key
      then ok u
      else raise (error invalid_key (str " key escapes storage root: " ∷ str key ∷ []))

  unfoldable pub resolve_key : String → Result (Unit {0})
  unfolding validate_key
  resolve_key key = inside key (validate_key key)

  abbrev pub is_stored : String → Objects → Bool
  is_stored key o = elim (object_at key o) [ none ↦ false | some b ↦ true ]

  -- `os.replace` of the upload by the object, unless there is one.
  abbrev pub place_upload : String → StoredObject → Action StoredObject
  place_upload name stored disk =
      if is_stored stored.key disk.objects
      then (ok (record stored { deduplicated = true }), unlink_upload name disk)
      else (
        ok stored,
        record disk {
          objects =
              put_object stored.key (bytes_or_empty (object_at name disk.uploads)) disk.objects;
          uploads = remove_object name disk.uploads;
        },
      )

  abbrev pub start : Progress
  start = record { hashed = []; size = 0; head = []; mime_type = none; buf = [] }

  abbrev pub object_of : String → Progress → String → String → StoredObject
  object_of user_id p filename mime_type = record {
    key = key_for user_id (platform.sha256 p.hashed) (extension_for platform.mime mime_type);
    content_hash = platform.sha256 p.hashed;
    mime_type = mime_type;
    size_bytes = p.size;
    deduplicated = false;
    filename = filename;
  }

  abbrev pub place_resolved : String → StoredObject → Action StoredObject
  place_resolved name stored = call (resolve_key stored.key) >> place_upload name stored

  -- What follows the loop.
  unfoldable pub finish_upload : String → String → String → Progress → Action StoredObject
  unfolding detect_mime key_for extension_for resolve_key object_at put_object remove_object
  finish_upload name user_id filename p = do
    flush_rest name p.buf
    mime_type ← call (known_or_detected p filename)
    place_resolved name (object_of user_id p filename mime_type)

  -- The body of `try`.
  unfoldable pub receive : String → String → List Event → String → ℕ → Action StoredObject
  unfolding take_stream finish_upload put_object
  receive name user_id stream filename max_bytes = do
    open_upload name
    p ← take_stream name filename max_bytes stream start
    finish_upload name user_id filename p

  abbrev pub unlink_on_error : String → Result StoredObject × Disk → Result StoredObject × Disk
  unlink_on_error name (ok stored, disk) = (ok stored, disk)
  unlink_on_error name (raise e, disk) = (raise e, unlink_upload name disk)

  -- `name` is `uuid4().hex`.
  unfoldable pub put_stream : String → String → List Event → String → ℕ → Action StoredObject
  unfolding receive
  put_stream name user_id stream filename max_bytes disk =
      unlink_on_error name (receive name user_id stream filename max_bytes disk)
