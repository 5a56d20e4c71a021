-- ===== src/Stages/Task.antt =====
-- What a stage's body runs in: the session's view of the rows, and the objects of the storage. What was
-- written before a raise stays.
use doc_mind_ai.Model.Errors.{Error, Result, ok, raise}
use doc_mind_ai.Repositories.Session.{Session}
use doc_mind_ai.Storage.Backend.{Objects}
use doc_mind_ai.Worker.Stage.{World}

abbrev pub Task {ℓ} : Type ℓ → Type ℓ
Task A = World → Result A × World

abbrev pub continue {ℓ κ} : {A : Type ℓ} {B : Type κ} → Result A → (A → Task B) → Task B
continue (ok a) f w = f a w
continue (raise e) f w = (raise e, w)

infixl 5 ◌>>=◌ ◌>>◌
abbrev pub ◌>>=◌ {ℓ κ} : {A : Type ℓ} {B : Type κ} → Task A → (A → Task B) → Task B
◌>>=◌ m f w = let (r, w') = m w in continue r f w'

abbrev pub ◌>>◌ {ℓ κ} : {A : Type ℓ} {B : Type κ} → Task A → Task B → Task B
m >> n = m >>= λ _. n

abbrev pub pure {ℓ} : {A : Type ℓ} → A → Task A
pure a w = (ok a, w)

abbrev pub throw {ℓ} : {A : Type ℓ} → Error → Task A
throw e w = (raise e, w)

-- A call that changes nothing.
abbrev pub call {ℓ} : {A : Type ℓ} → Result A → Task A
call r w = (r, w)

abbrev pub session {ℓ} : {A : Type ℓ} → Session A → Task A
session m w = let (r, db') = m w.db in (r, record w { db = db' })

abbrev pub read {ℓ} : {A : Type ℓ} → (Objects → Result A) → Task A
read f w = (f w.storage, w)

abbrev pub write {ℓ} : {A : Type ℓ} → (Objects → Result A × Objects) → Task A
write f w = let (r, o) = f w.storage in (r, record w { storage = o })
