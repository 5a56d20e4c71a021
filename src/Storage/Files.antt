-- ===== src/Storage/Files.antt =====
-- The operations of backend/app/services/storage/local.py on stored objects. Folders and log calls are
-- left out; the suffix of a path that a key names ends at the end of the key.
use Prim.Native.String.{◌++◌ as append}
use doc_mind_ai.Base.{
  ℕ, zero, suc, String, Bool, Option, none, some, List, [], ◌∷◌, take, drop, length, map,
  if◌then◌else◌,
}
use doc_mind_ai.Model.Errors.{invalid_key, object_not_found, str, error, Result, ok, raise}
use doc_mind_ai.Storage.Backend.{Objects, Backend, object_at, put_object, remove_object}
use doc_mind_ai.Storage.Signatures.{Bytes}
use doc_mind_ai.Storage.Validation.{is_pipeline_key}
use doc_mind_ai.Storage.Local.{Disk, Platform, is_stored, resolve_key}
use doc_mind_ai.Stages.Artifacts.{Store}

-- The pieces that `_iter_file` yields: it ends at the first read that gives no bytes.
unfoldable pub iter_file : ℕ → ℕ → Bytes → List Bytes
iter_file zero chunk_size file = []
iter_file (suc fuel) chunk_size file =
    let rest = iter_file fuel chunk_size (drop chunk_size file) in
    elim (take chunk_size file) [ [] ↦ [] | b ∷ more ↦ (b ∷ more) ∷ rest ]

abbrev pub found_at : String → Option Bytes → Result Bytes
found_at key none = raise (error object_not_found (str "object not found: " ∷ str key ∷ []))
found_at key (some b) = ok b

abbrev pub unlinked : String → Result (Unit {0}) → Objects → Result (Unit {0}) × Objects
unlinked key (raise e) o = (raise e, o)
unlinked key (ok u) o = (ok tt, remove_object key o)

-- The name that `path.with_suffix(path.suffix + ".tmp")` gives to the bytes that are not complete.
abbrev pub partial : String → String
partial key = append key ".tmp"

abbrev pub written : String → Bytes → Result (Unit {0}) → Objects → Result (Unit {0}) × Objects
written key b (raise e) o = (raise e, o)
written key b (ok u) o =
    (ok tt, put_object key b (remove_object (partial key) (put_object (partial key) b o)))

module _ (platform : Platform) where
  abbrev pub after_resolve : String → Result (Unit {0}) → Objects → Result Bytes
  after_resolve key (raise e) o = raise e
  after_resolve key (ok u) o = found_at key (object_at key o)

  -- `get_bytes`, and what stands at the path of `materialize`.
  unfoldable pub get_bytes : String → Objects → Result Bytes
  unfolding resolve_key object_at
  get_bytes key o = after_resolve key (resolve_key platform key) o

  abbrev pub pieces : ℕ → Result Bytes → Result (List Bytes)
  pieces chunk_size (ok file) = ok (iter_file (suc (length file)) chunk_size file)
  pieces chunk_size (raise e) = raise e

  -- `open_stream`, with all that its iterator yields.
  unfoldable pub open_stream : ℕ → String → Objects → Result (List Bytes)
  unfolding get_bytes iter_file
  open_stream chunk_size key o = pieces chunk_size (get_bytes key o)

  abbrev pub whether_stored : String → Result (Unit {0}) → Objects → Result Bool
  whether_stored key (raise e) o = raise e
  whether_stored key (ok u) o = ok (is_stored platform key o)

  unfoldable pub exists : String → Objects → Result Bool
  unfolding resolve_key object_at
  exists key o = whether_stored key (resolve_key platform key) o

  unfoldable pub delete : String → Objects → Result (Unit {0}) × Objects
  unfolding resolve_key remove_object
  delete key o = unlinked key (resolve_key platform key) o

  unfoldable pub put_bytes : String → Bytes → Objects → Result (Unit {0}) × Objects
  unfolding resolve_key put_object remove_object
  put_bytes key b o = written key b (resolve_key platform key) o

  abbrev pub resolve_pipeline_key : String → Result (Unit {0})
  resolve_pipeline_key key =
      if is_pipeline_key key
      then if platform.is_inside key
        then ok tt
        else raise (error invalid_key (str "key escapes root: " ∷ str key ∷ []))
      else raise (error invalid_key (str "not a valid pipeline key: " ∷ str key ∷ []))

  unfoldable pub delete_raw : String → Objects → Result (Unit {0}) × Objects
  unfolding is_pipeline_key remove_object
  delete_raw key o = unlinked key (resolve_pipeline_key key) o

  -- What the sweeper and the stages call of this backend.
  abbrev pub local_backend : Backend
  local_backend = record { delete = delete; delete_raw = delete_raw }

  abbrev pub local_store : Store
  local_store = record {
    exists = exists;
    get_bytes = get_bytes;
    put_bytes = put_bytes;
    materialize = get_bytes;
  }

-- `list_keys`, without the times: the files below the root, but for the uploads in flight.
unfoldable pub list_keys : Disk → List String
list_keys disk = map (λ entry. entry.0) disk.objects
