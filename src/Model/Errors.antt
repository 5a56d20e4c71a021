-- ===== src/Model/Errors.antt =====
-- backend/app/core/exceptions.py, and the texts of errors: the classes that the pipeline raises
-- and handles, with those of Python that it names. A text is a list of the parts of an f-string.
use doc_mind_ai.Base.{ℕ, ◌≡◌, refl, ◌⊎◌, inl, inr, String, Bool, true, false, List, [], ◌∷◌, ◌++◌}
use doc_mind_ai.Model.Enums.{JobStage, JobStatus, DocumentStatus}

-- `permanent_error` and `transient_error` also stand for their subclasses that are not named.
pub data ErrorClass : Type 0 where
  not_found_error permanent_error transient_error : ErrorClass
  permanent_embedding_error transient_embedding_error embedding_unavailable : ErrorClass
  invalid_transition job_not_found document_not_found : ErrorClass
  job_already_done job_already_failed : ErrorClass
  object_not_found invalid_key : ErrorClass
  type_error value_error key_error attribute_error : ErrorClass
  connection_error timeout_error runtime_error : ErrorClass
  document_not_ready : ErrorClass
  integrity_error : ErrorClass  -- a constraint of the database
  exception_group : ErrorClass  -- what `asyncio.TaskGroup` raises
  retry : ErrorClass  -- arq.Retry
  cancelled : ErrorClass  -- asyncio.CancelledError, which is no `Exception`
  other : ErrorClass

pub data Part : Type 0 where
  str : String → Part
  uuid : ℕ → Part
  stage : JobStage → Part
  job_status : JobStatus → Part
  document_status : DocumentStatus → Part
  class_name : ErrorClass → Part
  number : ℕ → Part

abbrev pub Text : Type 0
Text = List Part

pub record Error : Type 0 where
  pub class : ErrorClass
  pub message : Text

abbrev pub error : ErrorClass → Text → Error
error c m = record { class = c; message = m }

-- f"{type(exc).__name__}: {exc}"
unfoldable pub describe : Error → Text
describe e = class_name e.class ∷ str ": " ∷ e.message

-- f"retries exhausted: {exc!r}", where the repr is the class's name and the quoted message.
-- The escapes of a repr, and the exceptions that a group holds, are left out.
unfoldable pub exhausted : Error → Text
exhausted e =
    str "retries exhausted: " ∷ class_name e.class ∷ str "('" ∷ (e.message ++ (str "')" ∷ []))

-- `isinstance(exc, PermanentError)`
unfoldable pub is_permanent_error : ErrorClass → Bool
is_permanent_error permanent_error = true
is_permanent_error permanent_embedding_error = true
is_permanent_error embedding_unavailable = true
is_permanent_error invalid_transition = true
is_permanent_error job_already_done = true
is_permanent_error job_already_failed = true
is_permanent_error object_not_found = true
is_permanent_error invalid_key = true
is_permanent_error _ = false

-- What a method returns or raises.
pub data Result {ℓ} (A : Type ℓ) : Type ℓ where
  ok : A → Result A
  raise : Error → Result A

pub Result-cases {ℓ} :
    {A : Type ℓ} (r : Result A) → ((a : A) × (r ≡ ok a)) ⊎ ((e : Error) × (r ≡ raise e))
Result-cases (ok a) = inl (a, refl)
Result-cases (raise e) = inr (e, refl)
