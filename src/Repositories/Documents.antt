-- ===== src/Repositories/Documents.antt =====
-- backend/app/db/repositories/documents.py, the methods that the pipeline and the document
-- service call. The clock `now` is an argument.
use package.text.Mathlib.Text.{◌==◌ as str_eq}
use doc_mind_ai.Base.{
  ℕ, ◌≡◌, String, Bool, false, ◌&&◌, Option, none, some, [], ◌∷◌, Table, if◌then◌else◌, ◌==◌,
}
use doc_mind_ai.Model.Enums.{DocumentStatus, indexed}
use doc_mind_ai.Model.Errors.{not_found_error, str, Text, error, ok, raise}
use doc_mind_ai.Model.Details.{Value, null, num, put, get_or}
use doc_mind_ai.Model.Rows.{Document, Job, Db, get_document, set_document}
use doc_mind_ai.Repositories.Session.{Session, ◌>>=◌, modify}

abbrev pub is_owner : ℕ → Option Document → Option Document
is_owner user_id none = none
is_owner user_id (some doc) = if doc.user_id == user_id then some doc else none

unfoldable pub get_for_user : ℕ → ℕ → Db → Option Document
get_for_user user_id document_id db = is_owner user_id (get_document document_id db)

abbrev pub has_hash : String → Option String → Bool
has_hash h none = false
has_hash h (some g) = str_eq g h

-- `session.scalar(select(...))`: the first row that the query selects, with its id.
unfoldable pub find_hash : ℕ → String → Table Document → Option (ℕ × Document)
find_hash user_id content_hash [] = none
find_hash user_id content_hash ((i, doc) ∷ t) =
    if doc.user_id == user_id && has_hash content_hash doc.content_hash
    then some (i, doc)
    else find_hash user_id content_hash t

unfoldable pub find_by_content_hash : ℕ → String → Db → Option (ℕ × Document)
unfolding find_hash
find_by_content_hash user_id content_hash db = find_hash user_id content_hash db.documents

unfoldable pub require_document : ℕ → Session Document
require_document document_id db = elim (get_document document_id db) [
  | none ↦ (raise (error not_found_error (str "document Not found" ∷ [])), db)
  | some doc ↦ (ok doc, db)
]

pub require_document-some :
    (i : ℕ) (db : Db) (doc : Document)
    → get_document i db ≡ some doc
    → require_document i db ≡ (ok doc, db)
unfolding require_document
require_document-some i db doc e = rw (e, require_document)

abbrev pub stamp : ℕ → DocumentStatus → Option ℕ → Option ℕ
stamp now indexed old = some now
stamp now _ old = old

unfoldable pub set_status : ℕ → ℕ → DocumentStatus → Option Text → Session (Unit {0})
unfolding require_document
set_status now document_id status message = do
  doc ← require_document document_id
  modify (
      set_document document_id (record doc {
        status = status;
        error_message = message;
        indexed_at = stamp now status doc.indexed_at;
      }))

unfoldable pub set_parsed_key : ℕ → String → Session (Unit {0})
unfolding require_document
set_parsed_key document_id key = do
  doc ← require_document document_id
  modify (set_document document_id (record doc { parsed_key = some key }))

-- `page_count` where it is not `None`
abbrev pub or_else : Value → Value → Value
or_else null old = old
or_else v old = v

unfoldable pub set_index_results : ℕ → ℕ → Option ℕ → Value → Session (Unit {0})
unfolding put
set_index_results document_id chunk_count indexed_at page_count db =
    elim (get_document document_id db) [
      | none ↦ (ok tt, db)
      | some doc ↦ (
        ok tt,
        set_document document_id
            (record doc {
              metadata = put "chunk_count" (num chunk_count) doc.metadata;
              indexed_at = indexed_at;
              page_count = or_else page_count doc.page_count;
            })
            db,
      )
    ]

abbrev pub or_now : Option ℕ → ℕ → Option ℕ
or_now none now = some now
or_now (some t) now = some t

unfoldable pub reconcile_indexed : ℕ → ℕ → Job → Session (Unit {0})
unfolding put get_or
reconcile_indexed now document_id last_job db = elim (get_document document_id db) [
  | none ↦ (ok tt, db)
  | some doc ↦ (
    ok tt,
    set_document document_id
        (record doc {
          status = indexed;
          indexed_at = or_now last_job.finished_at now;
          metadata = put "chunk_count" (get_or "inserted" (num 0) last_job.details) doc.metadata;
        })
        db,
  )
]
