-- ===== src/Storage/Streaming.antt =====
-- What `put_stream` of backend/app/services/storage/local.py does with the chunks of a stream.
use mathlib.Core.List.{append_assoc, append-nil}
use package.text.Mathlib.TextEquality.{eq_iff}
use doc_mind_ai.Base.{
  ℕ, ◌+◌, ◌≤◌, ◌<◌, ◌≡◌, refl, sym, ap, ◌∙◌, String, true, false, none, some, List, [], ◌∷◌, ◌++◌,
  map, take, length, length-append, length-take, take-append, take-append_long, if◌then◌else◌, leb,
  ltb, ltb→lt, Bool-cases, inl, inr, arith,
}
use doc_mind_ai.Model.Errors.{ok, raise}
use doc_mind_ai.Storage.Backend.{
  Objects, object_at, put_object, object_at-put_object, put_object-put_object,
}
use doc_mind_ai.Storage.Signatures.{Bytes}
use doc_mind_ai.Storage.Local.{
  Disk, Platform, Progress, bytes, head_bytes, write_buffer, bytes_or_empty, detect, sniffed,
  next_head, take_chunk, take_stream, upload_too_large,
}

-- The bytes of a list of chunks.
abbrev pub joined : List Bytes → Bytes
joined [] = []
joined (c ∷ cs) = c ++ joined cs

-- The disk while an upload has written some bytes.
abbrev pub during : String → Disk → Bytes → Disk
during name disk w = record disk { uploads = put_object name w disk.uploads }

-- The variables of the loop after some bytes, of which the last ones are in the buffer.
abbrev pub progress : String → Bytes → Bytes → Progress
progress m done buf = record {
  hashed = done;
  size = length done;
  head = take head_bytes done;
  mime_type = if leb head_bytes (length done) then some m else none;
  buf = buf;
}

-- What `append_upload` leaves of the uploads.
pub uploads-append :
    (name : String) (uploads : Objects) (w b : Bytes)
    → put_object name
        (bytes_or_empty (object_at name (put_object name w uploads)) ++ b)
        (put_object name w uploads)
      ≡ put_object name (w ++ b) uploads
uploads-append name uploads w b =
    rw (object_at-put_object name name w uploads)
      (rw ((eq_iff name name).1 refl) (put_object-put_object name w (w ++ b) uploads))

-- Whether the head is complete shows in its length as in that of all bytes.
head-full :
    (done : Bytes) → leb head_bytes (length (take head_bytes done)) ≡ leb head_bytes (length done)
head-full done = ground (arith, length-take head_bytes done)

head-open :
    (done : Bytes) → ltb (length (take head_bytes done)) head_bytes ≡ ltb (length done) head_bytes
head-open done = ground (arith, length-take head_bytes done)

next_head-progress :
    (platform : Platform) (m : String) (done buf chunk : Bytes)
    → next_head platform (progress m done buf) chunk ≡ take head_bytes (done ++ chunk)
next_head-progress platform m done buf chunk = elim (Bool-cases (ltb (length done) head_bytes)) [
  | inl e ↦
      let same : length (take head_bytes done) ≡ length done =
        omega (arith, ltb→lt _ _ e, length-take head_bytes done) in
      rw (head-open done) (rw e (rw same (sym (take-append head_bytes done chunk))))
  | inr e ↦
      rw (head-open done) (rw e (sym (take-append_long head_bytes done chunk (ground (arith, e)))))
]

module _ (platform : Platform) (filename m : String) where
  sniffed-progress :
      (done buf chunk : Bytes)
      → (leb head_bytes (length (done ++ chunk)) ≡ true
          → detect platform (take head_bytes (done ++ chunk)) filename ≡ ok m)
      → sniffed platform (progress m done buf) (take head_bytes (done ++ chunk)) filename
        ≡ ok (if leb head_bytes (length (done ++ chunk)) then some m else none)
  sniffed-progress done buf chunk h = elim (Bool-cases (ltb (length done) head_bytes)) [
    | inl e ↦
        rw (head-open done, head-full (done ++ chunk))
          (rw e (elim (Bool-cases (leb head_bytes (length (done ++ chunk)))) [
            | inl f ↦ rw f (rw (h f) refl)
            | inr f ↦
                rw f (let g : leb head_bytes (length done) ≡ false = ground (arith, e) in rw g refl)
          ]))
    | inr e ↦
        let g : leb head_bytes (length done) ≡ true = ground (arith, e) in
        let k : leb head_bytes (length (done ++ chunk)) ≡ true =
          ground (arith, e, length-append done chunk) in
        rw (head-open done) (rw (e, g, k) refl)
  ]

  module _ (name : String) (max_bytes : ℕ) (disk : Disk) where
    take_chunk-progress :
        (done buf chunk w : Bytes)
        → length (done ++ chunk) ≤ max_bytes
        → (leb head_bytes (length (done ++ chunk)) ≡ true
            → detect platform (take head_bytes (done ++ chunk)) filename ≡ ok m)
        → w ++ buf ≡ done
        → (w' : Bytes) × (buf' : Bytes) × (take_chunk platform name filename max_bytes chunk
              (progress m done buf)
              (during name disk w)
            ≡ (ok (progress m (done ++ chunk) buf'), during name disk w'))
          × (w' ++ buf' ≡ done ++ chunk)
    unfolding take_chunk
    take_chunk-progress done buf chunk w small h split =
        let fits : ltb max_bytes (length done + length chunk) ≡ false =
          ground (arith, small, length-append done chunk) in
        let whole : w ++ (buf ++ chunk) ≡ done ++ chunk =
          sym (append_assoc w buf chunk) ∙ ap (λ x. x ++ chunk) split in
        elim (Bool-cases (leb write_buffer (length (buf ++ chunk)))) [
          | inl full ↦ (
            w ++ (buf ++ chunk),
            [],
            rw
                (
                  fits,
                  next_head-progress platform m done buf chunk,
                  sniffed-progress done buf chunk h,
                )
                (rw full (
                  rw (uploads-append name disk.uploads w (buf ++ chunk))
                    (rw (length-append done chunk) refl))),
            append-nil (w ++ (buf ++ chunk)) ∙ whole,
          )
          | inr room ↦ (
            w,
            buf ++ chunk,
            rw
                (
                  fits,
                  next_head-progress platform m done buf chunk,
                  sniffed-progress done buf chunk h,
                )
                (rw room (rw (length-append done chunk) refl)),
            whole,
          )
        ]

    take_chunk-over :
        (done buf chunk w : Bytes)
        → ltb max_bytes (length done + length chunk) ≡ true
        → take_chunk platform name filename max_bytes chunk
            (progress m done buf)
            (during name disk w)
          ≡ (raise (upload_too_large max_bytes), during name disk w)
    unfolding take_chunk
    take_chunk-over done buf chunk w over = rw over refl

    -- The part of the head that has arrived is the head of all bytes once it is complete.
    detected :
        (done chunk rest : Bytes)
        → detect platform (take head_bytes (done ++ (chunk ++ rest))) filename ≡ ok m
        → leb head_bytes (length (done ++ chunk)) ≡ true
        → detect platform (take head_bytes (done ++ chunk)) filename ≡ ok m
    detected done chunk rest h e =
        let long : head_bytes ≤ length (done ++ chunk) = ground (arith, e) in
        rw (← take-append_long head_bytes (done ++ chunk) rest long)
          (rw (append_assoc done chunk rest) h)

    pub take_stream-progress :
        (cs : List Bytes) (done buf w : Bytes)
        → length (done ++ joined cs) ≤ max_bytes
        → detect platform (take head_bytes (done ++ joined cs)) filename ≡ ok m
        → w ++ buf ≡ done
        → (w' : Bytes) × (buf' : Bytes) × (take_stream platform name filename max_bytes
              (map bytes cs)
              (progress m done buf)
              (during name disk w)
            ≡ (ok (progress m (done ++ joined cs) buf'), during name disk w'))
          × (w' ++ buf' ≡ done ++ joined cs)
    unfolding take_stream
    take_stream-progress [] done buf w small h split =
        (w, buf, rw append-nil refl, rw append-nil split)
    take_stream-progress (c ∷ cs) done buf w small h split =
        let shorter : length (done ++ c) ≤ max_bytes = omega (
          arith,
          length-append done c,
          length-append c (joined cs),
          length-append done (c ++ joined cs),
        ) in
        let (w1, buf1, step, split1) =
          take_chunk-progress done buf c w shorter (detected done c (joined cs) h) split in
        let whole = append_assoc done c (joined cs) in
        let (w2, buf2, rest, split2) =
          take_stream-progress cs (done ++ c) buf1 w1 (rw whole small) (rw whole h) split1 in
        (w2, buf2, rw step (rest ∙ rw whole refl), split2 ∙ whole)

    pub take_stream-too_large :
        (cs : List Bytes) (done buf w : Bytes)
        → length done ≤ max_bytes
        → max_bytes < length (done ++ joined cs)
        → detect platform (take head_bytes (done ++ joined cs)) filename ≡ ok m
        → w ++ buf ≡ done
        → (w' : Bytes) × (take_stream platform name filename max_bytes
              (map bytes cs)
              (progress m done buf)
              (during name disk w)
            ≡ (raise (upload_too_large max_bytes), during name disk w'))
    unfolding take_stream
    take_stream-too_large [] done buf w small large h split =
        absurd (omega (arith, length-append {0} {A = ℕ} done []))
    take_stream-too_large (c ∷ cs) done buf w small large h split =
        elim (Bool-cases (ltb max_bytes (length done + length c))) [
          | inl over ↦ (w, rw (take_chunk-over done buf c w over) refl)
          | inr fits ↦
              let shorter : length (done ++ c) ≤ max_bytes =
                ground (arith, fits, length-append done c) in
              let (w1, buf1, step, split1) =
                take_chunk-progress done buf c w shorter (detected done c (joined cs) h) split in
              let whole = append_assoc done c (joined cs) in
              let (w2, rest) =
                take_stream-too_large cs (done ++ c) buf1 w1 shorter (rw whole large) (rw whole h)
                  split1 in
              (w2, rw step rest)
        ]
