-- ===== src/Examples/Removals.antt =====
-- A deletion by the owner of a document.
use doc_mind_ai.Base.{ℕ, ◌≡◌, ◌≢◌, ◌⊎◌, refl, true, none, some, find}
use doc_mind_ai.Model.Enums.{DocumentStatus}
use doc_mind_ai.Model.Errors.{Error, ok, raise}
use doc_mind_ai.Worker.Stage.{is_cancelled}
use doc_mind_ai.Model.Rows.{Job, get_job, get_document}
use doc_mind_ai.Repositories.Documents.{get_for_user}
use doc_mind_ai.Service.Changes.{delete_user_document}
use doc_mind_ai.Service.Removal.{delete_user_document-owned}
use doc_mind_ai.Examples.Samples.{document, over}
use doc_mind_ai.Examples.Sweeps.{settings, same_text, memory}

delete_user_document-owned_example :
    let (deleted, w') = delete_user_document same_text (settings "small") memory 7 1 over in
    ((deleted ≡ ok true) ⊎ ((e : Error) × (deleted ≡ raise e) × (is_cancelled e.class ≡ true)))
    × (get_document 1 w'.db ≡ none)
    × ((k : ℕ) → k ≢ 1 → get_document k w'.db ≡ get_document k over.db)
    × ((k : ℕ) (job : Job) → get_job k w'.db ≡ some job → job.document_id ≢ 1)
    × ((k : ℕ) (job : Job)
        → get_job k over.db ≡ some job
        → job.document_id ≢ 1
        → get_job k w'.db ≡ some job)
unfolding find get_for_user
delete_user_document-owned_example =
    delete_user_document-owned same_text (settings "small") memory 7 1 over
      (document DocumentStatus.failed) refl
