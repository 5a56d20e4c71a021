-- ===== src/Service/State.antt =====
-- The progress and the current stage that a document's state shows.
use doc_mind_ai.Base.{
  ℕ, ◌*◌, ◌/◌, ◌≤◌, ◌≡◌, ◌↔◌, ◌⊎◌, refl, Option, none, some, List, [], ◌∷◌, length, arith,
}
use doc_mind_ai.Model.Enums.{DocumentStatus, JobStage, failed, stage_order}
use doc_mind_ai.Model.Errors.{ok}
use doc_mind_ai.Model.Rows.{Document, Job, Db}
use doc_mind_ai.Repositories.Jobs.{latest_by_stage}
use doc_mind_ai.Repositories.Documents.{get_for_user}
use doc_mind_ai.Service.Methods.{
  StageState, first_with, is_running, is_not_done, current_stage, stage_states, count_done,
  StateResponse, state_response, get_document_state,
}

length-stage_states :
    (latest : JobStage → Option (ℕ × Job)) (l : List JobStage)
    → length (stage_states latest l) ≡ length l
unfolding stage_states
length-stage_states latest [] = refl
length-stage_states latest (s ∷ rest) = omega (arith, length-stage_states latest rest)

count_done-le : (l : List StageState) → count_done l ≤ length l
unfolding count_done
count_done-le [] = omega arith
count_done-le (s ∷ rest) = ground (arith, count_done-le rest)

count_done_all : (l : List StageState) → first_with is_not_done l ≡ none → count_done l ≡ length l
unfolding count_done first_with
count_done_all [] e = refl
count_done_all (s ∷ rest) e = ground (arith, count_done_all rest, e)

none_left : (l : List StageState) → count_done l ≡ length l → first_with is_not_done l ≡ none
unfolding count_done first_with
none_left [] e = refl
none_left (s ∷ rest) e = ground (arith, none_left rest, e, count_done-le rest)

none_running :
    (l : List StageState) → first_with is_not_done l ≡ none → first_with is_running l ≡ none
unfolding first_with
none_running [] e = refl
none_running (s ∷ rest) e = ground (arith, none_running rest, e)

-- The current stage is missing for a failed document, and where every stage is done.
current_stage-none :
    (status : DocumentStatus) (l : List StageState)
    → (current_stage status l ≡ none) ↔ ((status ≡ failed) ⊎ (first_with is_not_done l ≡ none))
unfolding current_stage
current_stage-none status l = ground (arith, none_running l)

percent-le : (n : ℕ) → n ≤ 5 → n * 100 / 5 ≤ 100
percent-le n h = omega arith

percent_all : (n : ℕ) → n ≤ 5 → (n * 100 / 5 ≡ 100) ↔ (n ≡ 5)
percent_all n h = (λ e. omega arith, λ e. omega arith)

-- The state of a document that the user owns is returned with a progress of at most 100 percent
-- and five stages, and its current stage is missing exactly if the document is FAILED or the
-- progress is 100 percent.
pub get_document_state-settled :
    (user_id d : ℕ) (db : Db) (doc : Document)
    → get_for_user user_id d db ≡ some doc
    → (res : StateResponse) × (get_document_state user_id d db ≡ ok res)
      × (res.progress ≤ 100)
      × (length res.stages ≡ 5)
      × ((res.current_stage ≡ none) ↔ ((doc.status ≡ failed) ⊎ (res.progress ≡ 100)))
unfolding get_document_state state_response
get_document_state-settled user_id d db doc owned =
    let l = stage_states (latest_by_stage d db) stage_order in
    let five : length l ≡ 5 = length-stage_states (latest_by_stage d db) stage_order in
    let most : count_done l ≤ 5 = omega (arith, count_done-le l) in
    (
      state_response d doc db,
      rw (owned, get_document_state) refl,
      percent-le (count_done l) most,
      five,
      ground (
        arith,
        current_stage-none doc.status l,
        percent_all (count_done l) most,
        count_done_all l,
        none_left l,
        five,
      ),
    )
