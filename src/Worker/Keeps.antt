-- ===== src/Worker/Keeps.antt =====
-- What a run of `run_stage` keeps of the rows, between the changes of others.
use doc_mind_ai.Base.{ℕ, ◌≡◌, refl, Option, none, some, String, Bool-cases, inl, inr, arith, leb}
use doc_mind_ai.Model.Enums.{JobStage}
use doc_mind_ai.Model.Errors.{
  ErrorClass, document_not_found, invalid_transition, Error, describe, Result, ok, raise,
  Result-cases,
}
use doc_mind_ai.Model.Details.{Details}
use doc_mind_ai.Model.Rows.{Job, Db, get_job}
use doc_mind_ai.Repositories.Session.{Session, transaction, transaction-ok, transaction-raise}
use doc_mind_ai.Ingester.Methods.{start_stage, complete_stage, record_attempt}
use doc_mind_ai.Ingester.Machine.{Steps, here, Steps-trans}
use doc_mind_ai.Ingester.Starts.{start_stage-Steps, fail_stage-Steps}
use doc_mind_ai.Ingester.Refinement.{complete_stage-Steps, record_attempt-Steps}
use doc_mind_ai.Worker.Stage.{
  World, StageFn, Env, start_handlers, open_stage, run_body, is_cancelled, is_permanent,
  retry_stage, body_failed, after, stage_of, enqueue_next, end_handlers, finish_stage, end_stage,
  continue_stage, run_stage,
}

-- `uuid4` never gives an id that a row has.
abbrev pub IsFresh : (Db → ℕ) → Type 0
IsFresh new_id = (db : Db) → get_job (new_id db) db ≡ none

start_handlers-Steps :
    (c : ErrorClass) (e : Error) (now i : ℕ) (before after : Db)
    → Steps before after
    → Steps before (start_handlers c e now i before after).1
unfolding start_handlers
start_handlers-Steps document_not_found e now i before after p =
    Steps-trans p (fail_stage-Steps now i (describe e) after)
start_handlers-Steps invalid_transition e now i before after p =
    Steps-trans p (fail_stage-Steps now i (describe e) after)
start_handlers-Steps _ e now i before after p = here

open_stage-Steps : (now i : ℕ) (stage : JobStage) (db : Db) → Steps db (open_stage now i stage db).1
unfolding open_stage
open_stage-Steps now i stage db = elim (Result-cases (start_stage now i (some stage) db).0) [
  | inl (job, e) ↦ rw (e, open_stage) (start_stage-Steps now i (some stage) db)
  | inr (x, e) ↦
      rw (e, open_stage)
        (start_handlers-Steps x.class x now i db _ (start_stage-Steps now i (some stage) db))
]

pub Steps-transaction {ℓ} :
    {A : Type ℓ} (m : Session A) (db : Db) → Steps db (m db).1 → Steps db (transaction m db).1
Steps-transaction m db p = elim (Result-cases (m db).0) [
  | inl (a, e) ↦ rw (transaction-ok m db a e) p
  | inr (x, e) ↦ rw (transaction-raise m db x e) here
]

retry_stage-Steps :
    (env : Env) (i : ℕ) (e : Error) (w : World) → Steps w.db (retry_stage env i e w).1.db
unfolding retry_stage
retry_stage-Steps env i e w =
    let attempt : Session (Unit {0}) = record_attempt i (describe e) env.job_try in
    let steps =
      Steps-transaction attempt w.db (record_attempt-Steps i (describe e) env.job_try w.db) in
    elim (Result-cases (transaction attempt w.db).0) [
      | inl (u, q) ↦ rw (q, retry_stage) steps
      | inr (x, q) ↦ rw (q, retry_stage) steps
    ]

body_failed-Steps :
    (env : Env) (i : ℕ) (e : Error) (w : World) → Steps w.db (body_failed env i e w).1.db
unfolding body_failed
body_failed-Steps env i e w = elim (Bool-cases (is_cancelled e.class)) [
  | inl c ↦ rw c here
  | inr c ↦ rw c (elim (Bool-cases (is_permanent e.class)) [
    | inl p ↦ rw p (fail_stage-Steps _ i _ w.db)
    | inr p ↦ rw p (elim (Bool-cases (leb env.max_tries env.job_try)) [
      | inl m ↦ rw m (fail_stage-Steps _ i _ w.db)
      | inr m ↦ rw m (retry_stage-Steps env i e w)
    ])
  ])
]

-- Enqueueing changes no row.
db-enqueue_next :
    (env : Env) (next : Option (JobStage × String)) (created : Option (ℕ × Job)) (w : World)
    → (enqueue_next env next created w).1.db ≡ w.db
unfolding enqueue_next
db-enqueue_next env (some (stage, task)) (some (id, job)) w = ground arith
db-enqueue_next env none created w = refl
db-enqueue_next env (some (stage, task)) none w = refl

end_handlers-Steps :
    (c : ErrorClass) (e : Error) (now i : ℕ) (w : World)
    → Steps w.db (end_handlers c e now i w).1.db
unfolding end_handlers
end_handlers-Steps document_not_found e now i w = fail_stage-Steps now i (describe e) w.db
end_handlers-Steps invalid_transition e now i w = fail_stage-Steps now i (describe e) w.db
end_handlers-Steps _ e now i w = here

module _ (env : Env) (fresh : IsFresh env.new_id) (i : ℕ) (stage : JobStage) where
  finish_stage-Steps :
      (details : Details) (w : World) → Steps w.db (finish_stage env i stage details w).1.db
  unfolding finish_stage
  finish_stage-Steps details w =
      let complete : Session (Option (ℕ × Job)) =
        complete_stage env.end_time (env.new_id w.db) i details (stage_of (after stage)) in
      let steps =
        Steps-transaction complete w.db (complete_stage-Steps _ _ i details _ w.db (fresh w.db)) in
      elim (Result-cases (transaction complete w.db).0) [
        | inl (created, e) ↦ rw (e, finish_stage) (rw db-enqueue_next steps)
        | inr (x, e) ↦ rw (e, finish_stage) (end_handlers-Steps x.class x env.end_time i w)
      ]

  end_stage-Steps : (r : Result Details) (w : World) → Steps w.db (end_stage env i stage r w).1.db
  unfolding end_stage
  end_stage-Steps (ok details) w = finish_stage-Steps details w
  end_stage-Steps (raise e) w = body_failed-Steps env i e w

-- What others and the body may not break: a property of the rows that every legal change keeps.
module _ (P : Db → Type 0) (steps : (a b : Db) → Steps a b → P a → P b) (env : Env)
    (fresh : IsFresh env.new_id) (i : ℕ) (stage : JobStage) (fn : StageFn)
    (others_first : (w : World) → P w.db → P (env.before_body w).db)
    (others_last : (w : World) → P w.db → P (env.before_end w).db)
    (body : (d : ℕ) (w : World) → P w.db → P (fn d w).1.db) where
  run_body-keeps : (d : ℕ) (w : World) → P w.db → P (run_body fn d w).1.db
  unfolding run_body
  run_body-keeps d w p = elim (Result-cases (fn d w).0) [
    | inl (a, e) ↦ rw (e, run_body) (body d w p)
    | inr (x, e) ↦ rw (e, run_body) p
  ]

  continue_stage-keeps :
      (r : Result (Option ℕ)) (w : World) → P w.db → P (continue_stage env i stage fn r w).1.db
  unfolding continue_stage
  continue_stage-keeps (raise e) w p = p
  continue_stage-keeps (ok none) w p = p
  continue_stage-keeps (ok (some d)) w p =
      steps _ _ (end_stage-Steps env fresh i stage _ _)
        (others_last _ (run_body-keeps d _ (others_first w p)))

  pub run_stage-keeps : (w : World) → P w.db → P (run_stage env i stage fn w).1.db
  unfolding run_stage
  run_stage-keeps w p =
      continue_stage-keeps _ _ (steps _ _ (open_stage-Steps env.start_time i stage w.db) p)
