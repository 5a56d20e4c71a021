-- ===== src/Repositories/Session.antt =====
-- A repository call on an `AsyncSession`: it returns or raises, and leaves the session's view of
-- the rows. What was assigned before a raise stays in that view until a rollback.
use doc_mind_ai.Base.{◌≡◌}
use doc_mind_ai.Model.Errors.{Error, Result, ok, raise}
use doc_mind_ai.Model.Rows.{Db}

abbrev pub Session {ℓ} : Type ℓ → Type ℓ
Session A = Db → Result A × Db

abbrev pub and_then {ℓ κ} : {A : Type ℓ} {B : Type κ} → Result A → (A → Session B) → Session B
and_then (ok a) f db = f a db
and_then (raise e) f db = (raise e, db)

infixl 5 ◌>>=◌ ◌>>◌
abbrev pub ◌>>=◌ {ℓ κ} : {A : Type ℓ} {B : Type κ} → Session A → (A → Session B) → Session B
◌>>=◌ m f db = let (r, db') = m db in and_then r f db'

abbrev pub ◌>>◌ {ℓ κ} : {A : Type ℓ} {B : Type κ} → Session A → Session B → Session B
m >> n = m >>= λ _. n

abbrev pub pure {ℓ} : {A : Type ℓ} → A → Session A
pure a db = (ok a, db)

abbrev pub throw {ℓ} : {A : Type ℓ} → Error → Session A
throw e db = (raise e, db)

abbrev pub modify : (Db → Db) → Session (Unit {0})
modify f db = (ok tt, f db)

-- `async with AsyncSessionLocal() as session: …; await session.commit()`: a raise rolls back.
abbrev pub keep_or_roll_back {ℓ} : {A : Type ℓ} → Db → Result A → Db → Result A × Db
keep_or_roll_back before (ok a) after = (ok a, after)
keep_or_roll_back before (raise e) after = (raise e, before)

unfoldable pub transaction {ℓ} : {A : Type ℓ} → Session A → Session A
transaction m db = let (r, db') = m db in keep_or_roll_back db r db'

module _ {ℓ} {A : Type ℓ} (m : Session A) (db : Db) where
  pub transaction-ok : (a : A) → (m db).0 ≡ ok a → transaction m db ≡ (ok a, (m db).1)
  unfolding transaction
  transaction-ok a e = rw e

  pub transaction-raise : (x : Error) → (m db).0 ≡ raise x → transaction m db ≡ (raise x, db)
  unfolding transaction
  transaction-raise x e = rw e
