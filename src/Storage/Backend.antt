-- ===== src/Storage/Backend.antt =====
-- What the services call of a storage backend: the protocol `BaseStorage` of
-- backend/app/services/storage/base.py, and the objects that a backend stores.
use package.text.Mathlib.Text.{◌==◌ as str_eq}
use doc_mind_ai.Base.{
  ℕ, ◌≡◌, refl, Bool, String, Option, none, some, List, [], ◌∷◌, if◌then◌else◌, arith,
}
use package.text.Mathlib.TextEquality.{eq_iff}
use doc_mind_ai.Model.Errors.{Result}

abbrev pub Objects : Type 0
Objects = List (String × List ℕ)

-- A call returns or raises, and leaves the objects.
pub record Backend : Type 0 where
  pub delete : String → Objects → Result (Unit {0}) × Objects
  pub delete_raw : String → Objects → Result (Unit {0}) × Objects

-- The bytes of an object.
unfoldable pub object_at : String → Objects → Option (List ℕ)
object_at key [] = none
object_at key ((k, bytes) ∷ rest) = if str_eq k key then some bytes else object_at key rest

-- What `put_stream` returns.
pub record StoredObject : Type 0 where
  pub key : String
  pub content_hash : String
  pub mime_type : String
  pub size_bytes : ℕ
  pub deduplicated : Bool
  pub filename : String

-- An object written, which replaces one of the same key.
unfoldable pub put_object : String → List ℕ → Objects → Objects
put_object key bytes [] = (key, bytes) ∷ []
put_object key bytes ((k, old) ∷ rest) =
    if str_eq k key then (key, bytes) ∷ rest else (k, old) ∷ put_object key bytes rest

unfoldable pub remove_object : String → Objects → Objects
remove_object key [] = []
remove_object key ((k, bytes) ∷ rest) =
    let others = remove_object key rest in if str_eq k key then others else (k, bytes) ∷ others

pub object_at-put_object :
    (j key : String) (bytes : List ℕ) (o : Objects)
    → object_at j (put_object key bytes o) ≡ (if str_eq key j then some bytes else object_at j o)
unfolding object_at put_object
object_at-put_object j key bytes [] = refl
object_at-put_object j key bytes ((k, old) ∷ rest) =
    ground (arith, eq_iff k key, eq_iff k j, eq_iff key j, object_at-put_object j key bytes rest)

pub object_at-remove_object :
    (j key : String) (o : Objects)
    → object_at j (remove_object key o) ≡ (if str_eq key j then none else object_at j o)
unfolding object_at remove_object
object_at-remove_object j key [] = ground arith
object_at-remove_object j key ((k, old) ∷ rest) =
    ground (arith, eq_iff k key, eq_iff k j, eq_iff key j, object_at-remove_object j key rest)

-- An object that was not there is gone after its removal.
pub remove_object-put_object :
    (key : String) (bytes : List ℕ) (o : Objects)
    → object_at key o ≡ none
    → remove_object key (put_object key bytes o) ≡ o
unfolding object_at put_object remove_object
remove_object-put_object key bytes [] h = rw ((eq_iff key key).1 refl) refl
remove_object-put_object key bytes ((k, old) ∷ rest) h =
    ground (arith, eq_iff k key, h, remove_object-put_object key bytes rest)

pub put_object-put_object :
    (key : String) (a b : List ℕ) (o : Objects)
    → put_object key b (put_object key a o) ≡ put_object key b o
unfolding put_object
put_object-put_object key a b [] = rw ((eq_iff key key).1 refl) refl
put_object-put_object key a b ((k, old) ∷ rest) =
    ground (arith, eq_iff key key, put_object-put_object key a b rest)
