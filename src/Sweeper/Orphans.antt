-- ===== src/Sweeper/Orphans.antt =====
-- backend/app/workers/sweeper.py: `sweep_orphans` and what it calls. `uuid.UUID` and the regular
-- expression of pipeline keys are parameters, and so are the digest and the settings of the cache keys.
use Prim.Native.Char.{code}
use Prim.Native.String.{[] as end, ◌∷◌ as push, ◌++◌ as append}
use package.text.Mathlib.Text.{◌==◌ as str_eq}
use doc_mind_ai.Base.{
  ℕ, suc, ◌+◌, String, Bool, true, false, ◌&&◌, ◌||◌, Option, none, some, List, [], ◌∷◌, ◌++◌, any,
  Table, if◌then◌else◌, ◌==◌, ltb, leb,
}
use doc_mind_ai.Model.Enums.{extract, clean, chunk, embed}
use doc_mind_ai.Model.Errors.{ErrorClass, object_not_found, invalid_key, Error, Result, ok, raise}
use doc_mind_ai.Model.Rows.{Document, Db}
use doc_mind_ai.Storage.Keys.{Config, Digest, cache_key}
use doc_mind_ai.Storage.Backend.{Objects, Backend}
use doc_mind_ai.Worker.Stage.{is_cancelled}
use doc_mind_ai.Service.Changes.{truthy}

-- `key.split("/")`
abbrev slash : ℕ
slash = 47

onto_first : String → List String → List String
onto_first c [] = c ∷ []
onto_first c (part ∷ rest) = append c part ∷ rest

unfoldable pub split_slash : String → List String
unfolding onto_first
split_slash end = "" ∷ []
split_slash (push c s) =
    let parts = split_slash s in
    if code c == slash then "" ∷ parts else onto_first (push c end) parts

-- The two sets of `_load_live_keys`.
abbrev pub contains : String → List String → Bool
contains key keys = any (str_eq key) keys

abbrev pub contains_pair : ℕ × ℕ → List (ℕ × ℕ) → Bool
contains_pair (a, b) pairs = any (λ p. p.0 == a && p.1 == b) pairs

abbrev pub listed : Option String → List String
listed none = []
listed (some key) = key ∷ []

-- `UUID(text)`: `none` where it raises `ValueError`.
abbrev pub UuidOf : Type 0
UuidOf = String → Option ℕ

unfoldable pub owner_lives : Option ℕ → Option ℕ → List (ℕ × ℕ) → Bool
owner_lives (some user_id) (some document_id) pairs = contains_pair (user_id, document_id) pairs
owner_lives _ _ pairs = false

-- At least four parts, the second one `_pipeline`.
unfoldable pub owned_path : UuidOf → List String → List (ℕ × ℕ) → Bool
unfolding owner_lives
owned_path uuid_of (user ∷ dir ∷ document ∷ file ∷ more) pairs =
    str_eq dir "_pipeline" && owner_lives (uuid_of user) (uuid_of document) pairs
owned_path uuid_of _ pairs = false

unfoldable pub is_live : UuidOf → String → List String → List (ℕ × ℕ) → Bool
unfolding split_slash owned_path
is_live uuid_of key live_keys live_prefixes =
    contains key live_keys || owned_path uuid_of (split_slash key) live_prefixes

-- The comparison `last_modified > cutoff` with `cutoff = now - GRACE_PERIOD`, in seconds.
abbrev pub grace_period : ℕ
grace_period = 7200

unfoldable pub within_grace : Option ℕ → ℕ → Bool
within_grace none now = true
within_grace (some last_modified) now = ltb now (last_modified + grace_period)

abbrev pub max_deletes : ℕ
max_deletes = 1000

pub record Tally : Type 0 where
  pub scanned : ℕ
  pub deleted : ℕ
  pub skipped_grace : ℕ

-- How an iteration ends: `continue`, `break`, or an exception that is not caught.
pub data Flow : Type 0 where
  proceed stop : Flow
  abort : Error → Flow

-- The end of an iteration that is not left by `continue`.
unfoldable pub capped : Tally → Flow
capped t = if leb max_deletes t.deleted then stop else proceed

abbrev is_bad_key : ErrorClass → Bool
is_bad_key object_not_found = true
is_bad_key invalid_key = true
is_bad_key _ = false

module _ (digest : Digest) (config : Config) where
  unfoldable pub cached_keys : Option String → List String
  cached_keys none = []
  cached_keys (some content_hash) =
      cache_key digest config content_hash extract
      ∷ cache_key digest config content_hash clean
      ∷ cache_key digest config content_hash chunk
      ∷ cache_key digest config content_hash embed
      ∷ []

  unfoldable pub keys_of : Document → List String
  unfolding cached_keys
  keys_of doc =
      listed (truthy doc.storage_key)
      ++ listed (truthy doc.parsed_key)
      ++ cached_keys (truthy doc.content_hash)

  unfoldable pub load_live_keys : Table Document → List String × List (ℕ × ℕ)
  unfolding keys_of
  load_live_keys [] = ([], [])
  load_live_keys ((doc_id, doc) ∷ rest) =
      let (live, prefixes) = load_live_keys rest in
      (keys_of doc ++ live, (doc.user_id, doc_id) ∷ prefixes)

module _ (backend : Backend) (is_pipeline_key : String → Bool) where
  abbrev pub delete_orphan : String → Objects → Result (Unit {0}) × Objects
  delete_orphan key objects =
      if is_pipeline_key key then backend.delete_raw key objects else backend.delete key objects

  -- The `try` of an iteration: `ObjectNotFound` and `InvalidKey` go on to the cap, other exceptions
  -- to the next key, and a cancellation is not caught.
  unfoldable pub deleted_key : Result (Unit {0}) → Tally → Flow × Tally
  unfolding capped
  deleted_key (ok _) t = let t' = record t { deleted = suc t.deleted } in (capped t', t')
  deleted_key (raise e) t = (
    if is_cancelled e.class then abort e else if is_bad_key e.class then capped t else proceed,
    t,
  )

  module _ (uuid_of : UuidOf) (now : ℕ) (live_keys : List String)
      (live_prefixes : List (ℕ × ℕ)) where
    unfoldable pub sweep_object : String → Option ℕ → Tally → Objects → Flow × Tally × Objects
    unfolding is_live within_grace deleted_key
    sweep_object key last_modified t objects =
        let t' = record t { scanned = suc t.scanned } in
        if is_live uuid_of key live_keys live_prefixes
        then (proceed, t', objects)
        else if within_grace last_modified now
        then (proceed, record t' { skipped_grace = suc t'.skipped_grace }, objects)
        else let (r, objects') = delete_orphan key objects in
          let (flow, t'') = deleted_key r t' in (flow, t'', objects')

    unfoldable pub sweep_objects :
        List (String × Option ℕ) → Tally → Objects → Result Tally × Tally × Objects
    unfolding sweep_object
    sweep_objects [] t objects = (ok t, t, objects)
    sweep_objects ((key, last_modified) ∷ rest) t objects =
        let (flow, t', objects') = sweep_object key last_modified t objects in
        let later = sweep_objects rest t' objects' in
        elim flow [
          | proceed ↦ later
          | stop ↦ (ok t', t', objects')
          | abort e ↦ (raise e, t', objects')
        ]

-- `listing` is what `storage.list_keys()` yields. The result, and the counts and objects at the end.
unfoldable pub sweep_orphans :
    Digest
    → Config
    → Backend
    → (String → Bool)
    → UuidOf
    → ℕ
    → List (String × Option ℕ)
    → Db
    → Objects
    → Result Tally × Tally × Objects
unfolding load_live_keys sweep_objects
sweep_orphans digest config backend is_pipeline_key uuid_of now listing db objects =
    let (live_keys, live_prefixes) = load_live_keys digest config db.documents in
    sweep_objects backend is_pipeline_key uuid_of now live_keys live_prefixes listing
      (record { scanned = 0; deleted = 0; skipped_grace = 0 }) objects
