-- ===== src/Service/Removal.antt =====
-- What the deletion of a document removes from the rows, and what it leaves.
use doc_mind_ai.Base.{
  ℕ, String, Option, List, [], ◌∷◌, ◌⊎◌, inl, inr, Bool-cases, ◌≡◌, ◌≢◌, refl, true, false, none,
  some, ◌==◌, arith, find-delete_key, find-delete_where-kept, find-delete_where-left,
}
use doc_mind_ai.Model.Errors.{Error, Result, ok, raise, Result-cases}
use doc_mind_ai.Model.Rows.{Document, Job, Db, get_job, get_document}
use doc_mind_ai.Repositories.Documents.{get_for_user}
use doc_mind_ai.Storage.Keys.{Config, Digest}
use doc_mind_ai.Storage.Backend.{Objects, Backend}
use doc_mind_ai.Worker.Stage.{World, is_cancelled}
use doc_mind_ai.Service.Changes.{
  delete_all, key_list, truthy, artifacts_of, artifacts_deleted, clean_up, deleted_flag,
  delete_document, delete_user_document,
}

module _ (d : ℕ) (db : Db) where
  document-delete_document : get_document d (delete_document d db) ≡ none
  unfolding delete_document
  document-delete_document = ground (arith, find-delete_key d d db.documents)

  other-delete_document :
      (k : ℕ) → k ≢ d → get_document k (delete_document d db) ≡ get_document k db
  unfolding delete_document
  other-delete_document k distinct = ground (arith, find-delete_key d k db.documents, distinct)

  job-delete_document :
      (k : ℕ) (job : Job) → get_job k (delete_document d db) ≡ some job → job.document_id ≢ d
  unfolding delete_document
  job-delete_document k job e =
      let kept = find-delete_where-left (λ j. j.document_id == d) k db.jobs job e in
      ground (arith, kept)

  other_job-delete_document :
      (k : ℕ) (job : Job)
      → get_job k db ≡ some job
      → job.document_id ≢ d
      → get_job k (delete_document d db) ≡ some job
  unfolding delete_document
  other_job-delete_document k job e distinct =
      find-delete_where-kept (λ j. j.document_id == d) k db.jobs job e (ground (arith, distinct))

-- Only a cancellation is raised.
abbrev IsDropped : Result (Unit {0}) → Type 0
IsDropped (ok _) = Unit
IsDropped (raise e) = is_cancelled e.class ≡ true

deleted_flag-IsDropped :
    (r : Result (Unit {0}))
    → IsDropped r
    → (deleted_flag r ≡ ok true)
      ⊎ ((e : Error) × (deleted_flag r ≡ raise e) × (is_cancelled e.class ≡ true))
deleted_flag-IsDropped (ok _) h = inl refl
deleted_flag-IsDropped (raise e) h = inr (e, refl, h)

delete_all-IsDropped :
    (delete : String → Objects → Result (Unit {0}) × Objects) (keys : List String) (o : Objects)
    → IsDropped (delete_all delete keys o).0
unfolding delete_all
delete_all-IsDropped delete [] o = tt
delete_all-IsDropped delete (key ∷ keys) o = elim (Result-cases (delete key o).0) [
  | inl (u, q) ↦ rw (q, delete_all) (delete_all-IsDropped delete keys (delete key o).1)
  | inr (e, q) ↦
      rw (q, delete_all)
        (elim (Bool-cases (is_cancelled e.class)) [
          | inl c ↦ rw c c
          | inr c ↦ rw c (delete_all-IsDropped delete keys (delete key o).1)
        ])
]

artifacts_deleted-IsDropped :
    (digest : Digest) (config : Config) (backend : Backend) (content_hash : Option String)
    (r : Result (Unit {0}) × Objects)
    → IsDropped r.0
    → IsDropped (artifacts_deleted digest config backend content_hash r).0
unfolding delete_all
artifacts_deleted-IsDropped digest config backend content_hash (ok _, o) h =
    delete_all-IsDropped backend.delete_raw
      (artifacts_of digest config backend (truthy content_hash)) o
artifacts_deleted-IsDropped digest config backend content_hash (raise e, o) h = h

clean_up-IsDropped :
    (digest : Digest) (config : Config) (backend : Backend) (doc : Document) (o : Objects)
    → IsDropped (clean_up digest config backend doc o).0
unfolding clean_up
clean_up-IsDropped digest config backend doc o =
    let first = delete_all backend.delete (key_list (truthy doc.storage_key)) o in
    let kept = delete_all-IsDropped backend.delete (key_list (truthy doc.storage_key)) o in
    artifacts_deleted-IsDropped digest config backend doc.content_hash first kept

module _ (digest : Digest) (config : Config) (backend : Backend) (user_id d : ℕ) (w : World) where
  -- A deletion by the owner of a document reports success or raises the cancellation of a deletion
  -- in the storage, whatever else the storage raises; in both cases the document is gone and no
  -- job of it is left, every other document has the same row, and every job of another document is
  -- still there.
  pub delete_user_document-owned :
      (doc : Document)
      → get_for_user user_id d w.db ≡ some doc
      → let (deleted, w') = delete_user_document digest config backend user_id d w in
        ((deleted ≡ ok true) ⊎ ((e : Error) × (deleted ≡ raise e) × (is_cancelled e.class ≡ true)))
        × (get_document d w'.db ≡ none)
        × ((k : ℕ) → k ≢ d → get_document k w'.db ≡ get_document k w.db)
        × ((k : ℕ) (job : Job) → get_job k w'.db ≡ some job → job.document_id ≢ d)
        × ((k : ℕ) (job : Job)
            → get_job k w.db ≡ some job
            → job.document_id ≢ d
            → get_job k w'.db ≡ some job)
  unfolding delete_user_document
  delete_user_document-owned doc owned =
      rw (owned, delete_user_document)
        (
          deleted_flag-IsDropped (clean_up digest config backend doc w.storage).0
              (clean_up-IsDropped digest config backend doc w.storage),
          document-delete_document d w.db,
          other-delete_document d w.db,
          job-delete_document d w.db,
          other_job-delete_document d w.db,
        )

  -- A deletion by a user who does not own the document reports failure and changes neither rows
  -- nor objects.
  delete_user_document-foreign :
      (doc : Document)
      → get_document d w.db ≡ some doc
      → doc.user_id ≢ user_id
      → delete_user_document digest config backend user_id d w ≡ (ok false, w)
  unfolding delete_user_document get_for_user
  delete_user_document-foreign doc there foreign =
      let hidden : get_for_user user_id d w.db ≡ none = rw there (ground (arith, foreign)) in
      rw (hidden, delete_user_document) refl
