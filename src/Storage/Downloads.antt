-- ===== src/Storage/Downloads.antt =====
-- What is read of an object that was uploaded or written.
use package.text.Mathlib.TextEquality.{eq_iff}
use doc_mind_ai.Base.{
  ℕ, zero, suc, ◌≤◌, ◌<◌, ◌≡◌, refl, ap, ◌∙◌, String, true, false, none, some, List, [], ◌∷◌, ◌++◌,
  map, All, take, drop, length, length-take, length-drop, take-append-drop, arith,
}
use doc_mind_ai.Model.Errors.{ok}
use doc_mind_ai.Storage.Backend.{Objects, StoredObject, object_at, put_object, object_at-put_object}
use doc_mind_ai.Storage.Signatures.{Bytes}
use doc_mind_ai.Storage.Mime.{extension_for}
use doc_mind_ai.Storage.Validation.{key_for, validate_key, is_match, uuid_pattern, times, is_hex}
use doc_mind_ai.Storage.Accepted.{key_for-accepted}
use doc_mind_ai.Storage.Local.{
  Disk, Platform, bytes, head_bytes, detect, resolve_key, is_stored, put_stream,
}
use doc_mind_ai.Storage.Streaming.{joined}
use doc_mind_ai.Storage.Uploads.{stored, put_stream-stores}
use doc_mind_ai.Storage.Files.{iter_file, get_bytes, open_stream, put_bytes}

-- The pieces of a file are the file, and none is longer than a chunk.
iter_file-joined :
    (fuel n : ℕ) (file : Bytes)
    → length file < fuel
    → (joined (iter_file fuel (suc n) file) ≡ file)
      × All (λ b. length b ≤ suc n) (iter_file fuel (suc n) file)
unfolding iter_file
iter_file-joined zero n file h = absurd (omega arith)
iter_file-joined (suc fuel) n [] h = (refl, tt)
iter_file-joined (suc fuel) n (b ∷ file) h =
    let rest = iter_file-joined fuel n (drop n file) (omega (arith, length-drop n file)) in
    (
      ap (λ x. b ∷ take n file ++ x) rest.0 ∙ ap (◌∷◌ b) (take-append-drop n file),
      (omega (arith, length-take n file), rest.1),
    )

module _ (platform : Platform) (key : String) (valid : validate_key key ≡ ok tt)
    (inside : platform.is_inside key ≡ true) where
  pub get_bytes-stored :
      (b : Bytes) (o : Objects) → object_at key o ≡ some b → get_bytes platform key o ≡ ok b
  unfolding get_bytes resolve_key
  get_bytes-stored b o e = rw valid (rw inside (rw e refl))

  open_stream-stored :
      (n : ℕ) (b : Bytes) (o : Objects)
      → object_at key o ≡ some b
      → open_stream platform (suc n) key o ≡ ok (iter_file (suc (length b)) (suc n) b)
  unfolding open_stream
  open_stream-stored n b o e = rw (get_bytes-stored b o e) refl

  pub put_bytes-get_bytes :
      (b : Bytes) (o : Objects)
      → ((put_bytes platform key b o).0 ≡ ok tt)
        × (get_bytes platform key (put_bytes platform key b o).1 ≡ ok b)
  unfolding put_bytes resolve_key
  put_bytes-get_bytes b o = rw valid (
      rw inside (
        refl,
        get_bytes-stored b _ (object_at-put_object key key b _ ∙ rw ((eq_iff key key).1 refl) refl),
      ))

module _ (platform : Platform) (name user_id filename m : String) (max_bytes : ℕ) (disk : Disk)
    (cs : List Bytes) where
  abbrev key : String
  key = key_for user_id (platform.sha256 (joined cs)) (extension_for platform.mime m)

  -- What is uploaded is what is downloaded: an upload of at most max_bytes bytes, of a type that
  -- is accepted, for whose key there is no object returns the key and the number of bytes; the
  -- stream of the key then yields pieces that are together the bytes of the upload, none of them
  -- longer than a chunk. Condition: the id of the user and the digest have their forms, the path
  -- of the key is inside the root, the name of the upload is not in use, and the chunk size is not
  -- 0.
  pub open_stream-put_stream :
      (n : ℕ)
      → object_at name disk.uploads ≡ none
      → length (joined cs) ≤ max_bytes
      → detect platform (take head_bytes (joined cs)) filename ≡ ok m
      → is_match uuid_pattern user_id ≡ true
      → is_match (times 64 is_hex) (platform.sha256 (joined cs)) ≡ true
      → platform.is_inside key ≡ true
      → is_stored platform key disk.objects ≡ false
      → let (r, disk') = put_stream platform name user_id (map bytes cs) filename max_bytes disk in
        (result : StoredObject) × (pieces : List Bytes) × (r ≡ ok result)
        × (result.size_bytes ≡ length (joined cs))
        × (open_stream platform (suc n) result.key disk'.objects ≡ ok pieces)
        × (joined pieces ≡ joined cs)
        × All (λ b. length b ≤ suc n) pieces
  open_stream-put_stream n unused small h u x inside new =
      let all = joined cs in
      let valid = key_for-accepted platform.mime user_id (platform.sha256 all) m u x in
      let stores =
        put_stream-stores platform filename m name user_id max_bytes disk unused cs small h u x
          inside in
      let there : object_at key (put_object key all disk.objects) ≡ some all =
        object_at-put_object key key all disk.objects ∙ rw ((eq_iff key key).1 refl) refl in
      let (whole, bounded) = iter_file-joined (suc (length all)) n all (omega arith) in
      (
        stored platform filename m name user_id max_bytes disk unused cs false,
        iter_file (suc (length all)) (suc n) all,
        rw stores (rw new refl),
        refl,
        rw stores (rw new (open_stream-stored platform key valid inside n all _ there)),
        whole,
        bounded,
      )
