-- ===== src/Storage/Failures.antt =====
-- An upload that fails leaves nothing behind.
use doc_mind_ai.Base.{
  ℕ, ◌+◌, ◌≡◌, refl, sym, ap, ◌∙◌, String, Option, none, List, [], ◌∷◌, ◌++◌, length, leb, ltb,
  Bool-cases, inl, inr,
}
use doc_mind_ai.Model.Errors.{Error, Result, ok, raise}
use doc_mind_ai.Storage.Backend.{StoredObject, object_at, remove_object, remove_object-put_object}
use doc_mind_ai.Storage.Signatures.{Bytes}
use doc_mind_ai.Storage.Local.{
  Disk, Platform, Progress, Event, bytes, broken, Action, continue, call, ◌>>=◌, write_buffer,
  sniffed, next_head, flush_full, known_or_detected, resolve_key, is_stored, place_upload, start,
  take_chunk, take_stream, finish_upload, place_resolved, object_of, receive, unlink_on_error,
  put_stream,
}
use doc_mind_ai.Storage.Streaming.{during, uploads-append}
use doc_mind_ai.Storage.Uploads.{flush_rest-during}

module _ (name : String) (disk : Disk) where
  -- An action that changes nothing but the file of the upload.
  abbrev Uploading {ℓ} : {A : Type ℓ} → Action A → Type 0
  Uploading job = (w : Bytes) → (w' : Bytes) × ((job (during name disk w)).1 ≡ during name disk w')

  Uploading-continue {ℓ κ} :
      {A : Type ℓ} {B : Type κ} (r : Result A) (f : A → Action B) (d : Disk) (w : Bytes)
      → d ≡ during name disk w
      → ((a : A) → Uploading (f a))
      → (w' : Bytes) × ((continue r f d).1 ≡ during name disk w')
  Uploading-continue (ok a) f d w e k = let (w', e') = k a w in (w', ap (λ x. (f a x).1) e ∙ e')
  Uploading-continue (raise x) f d w e k = (w, e)

  Uploading->>= {ℓ κ} :
      {A : Type ℓ} {B : Type κ} (m : Action A) (f : A → Action B)
      → Uploading m
      → ((a : A) → Uploading (f a))
      → Uploading (m >>= f)
  Uploading->>= m f h k w =
      let (w', e) = h w in
      Uploading-continue (m (during name disk w)).0 f (m (during name disk w)).1 w' e k

  module _ (platform : Platform) (filename : String) (max_bytes : ℕ) where
    flush_full-Uploading : (p : Progress) → Uploading (flush_full platform name p)
    flush_full-Uploading p w = elim (Bool-cases (leb write_buffer (length p.buf))) [
      | inl e ↦ (w ++ p.buf, rw e (rw (uploads-append name disk.uploads w p.buf) refl))
      | inr e ↦ (w, rw e refl)
    ]

    take_chunk-Uploading :
        (chunk : Bytes) (p : Progress)
        → Uploading (take_chunk platform name filename max_bytes chunk p)
    unfolding take_chunk
    take_chunk-Uploading chunk p w = elim (Bool-cases (ltb max_bytes (p.size + length chunk))) [
      | inl e ↦ (w, rw e refl)
      | inr e ↦
          let rest : Option String → Action Progress = λ mime_type.
            flush_full platform name (record {
              hashed = p.hashed ++ chunk;
              size = p.size + length chunk;
              head = next_head platform p chunk;
              mime_type = mime_type;
              buf = p.buf ++ chunk;
            }) in
          rw e (
            Uploading->>= (call (sniffed platform p (next_head platform p chunk) filename)) rest
              (λ w. (w, refl)) (λ mime_type. flush_full-Uploading _) w)
    ]

    take_stream-Uploading :
        (events : List Event) (p : Progress)
        → Uploading (take_stream platform name filename max_bytes events p)
    unfolding take_stream
    take_stream-Uploading [] p w = (w, refl)
    take_stream-Uploading (broken e ∷ events) p w = (w, refl)
    take_stream-Uploading (bytes chunk ∷ events) p w =
        Uploading->>= (take_chunk platform name filename max_bytes chunk p)
          (take_stream platform name filename max_bytes events) (take_chunk-Uploading chunk p)
          (take_stream-Uploading events) w

-- An action that, where it raises, has changed nothing but the file of the upload.
abbrev Leaves : String → Disk → {A : Type 0} → Result A × Disk → Type 0
Leaves name disk (ok a, d) = Unit {0}
Leaves name disk (raise e, d) = (w : Bytes) × (d ≡ during name disk w)

module _ (platform : Platform) (name user_id : String) (events : List Event) (filename : String)
    (max_bytes : ℕ) (disk : Disk) where
  Leaves-continue :
      {A B : Type 0} (r : Result A) (f : A → Action B) (d : Disk) (w : Bytes)
      → d ≡ during name disk w
      → ((a : A) (w' : Bytes) → Leaves name disk (f a (during name disk w')))
      → Leaves name disk (continue r f d)
  Leaves-continue (ok a) f d w e k = rw e (k a w)
  Leaves-continue (raise x) f d w e k = (w, e)

  place-Leaves :
      (stored : StoredObject) (d : Disk) → Leaves name disk (place_upload platform name stored d)
  place-Leaves stored d = elim (Bool-cases (is_stored platform stored.key d.objects)) [
    | inl e ↦ rw e tt
    | inr e ↦ rw e tt
  ]

  place_resolved-Leaves :
      (stored : StoredObject) (w : Bytes)
      → Leaves name disk (place_resolved platform name stored (during name disk w))
  place_resolved-Leaves stored w =
      Leaves-continue (resolve_key platform stored.key) (λ u. place_upload platform name stored)
        (during name disk w) w refl (λ u w'. place-Leaves stored (during name disk w'))

  finish-Leaves :
      (p : Progress) (w : Bytes)
      → Leaves name disk (finish_upload platform name user_id filename p (during name disk w))
  unfolding finish_upload
  finish-Leaves p w =
      let next : String → Action StoredObject =
        λ m. place_resolved platform name (object_of platform user_id p filename m) in
      rw (flush_rest-during name disk w p.buf) (
        Leaves-continue (known_or_detected platform p filename) next (during name disk (w ++ p.buf))
          (w ++ p.buf) refl
          (λ m w'. place_resolved-Leaves (object_of platform user_id p filename m) w'))

  receive-Leaves : Leaves name disk (receive platform name user_id events filename max_bytes disk)
  unfolding receive
  receive-Leaves =
      let read =
        take_stream platform name filename max_bytes events (start platform)
          (during name disk []) in
      let (w, e) =
        take_stream-Uploading name disk platform filename max_bytes events (start platform) [] in
      Leaves-continue read.0 (finish_upload platform name user_id filename) read.1 w e finish-Leaves

  unlink_on_error-Leaves :
      (r : Result StoredObject × Disk) {e : Error} {after : Disk}
      → object_at name disk.uploads ≡ none
      → Leaves name disk r
      → unlink_on_error platform name r ≡ (raise e, after)
      → after ≡ disk
  unlink_on_error-Leaves (ok stored, d) unused h k = cc
  unlink_on_error-Leaves (raise x, d) unused (w, h) k =
      sym (ap (λ r. r.1) k)
      ∙ ap (λ (d' : Disk). record d' { uploads = remove_object name d'.uploads }) h
      ∙ rw (remove_object-put_object name w disk.uploads unused) refl

  -- An upload that raises leaves every file as it was, whatever the stream yields and wherever it
  -- fails: an error of the stream, too many bytes, a type or a key that is refused. Condition: the
  -- name of the upload is not in use.
  pub put_stream-raises :
      (e : Error) (after : Disk)
      → object_at name disk.uploads ≡ none
      → put_stream platform name user_id events filename max_bytes disk ≡ (raise e, after)
      → after ≡ disk
  unfolding put_stream
  put_stream-raises e after unused h = unlink_on_error-Leaves _ unused receive-Leaves h
