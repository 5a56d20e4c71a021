-- ===== src/Stages/Artifacts.antt =====
-- The artifacts of the pipeline, as backend/app/workers/tasks.py writes and reads them. JSON texts and gzip are
-- parameters, and so are docling's documents; the JSON of a chunk row is modelled.
use package.text.Mathlib.Text.{◌==◌ as str_eq}
use doc_mind_ai.Base.{
  ℕ, String, Bool, ◌||◌, Option, none, some, List, [], ◌∷◌, map, all, if◌then◌else◌,
}
use doc_mind_ai.Model.Errors.{type_error, str, error, Result, ok, raise}
use doc_mind_ai.Model.Rows.{PreparedChunk}
use doc_mind_ai.Storage.Backend.{Objects}
use doc_mind_ai.Stages.Task.{Task, ◌>>=◌, call, read, write}

-- What the stages call of `BaseStorage`. `materialize` gives what stands at the path.
pub record Store : Type 0 where
  pub exists : String → Objects → Result Bool
  pub get_bytes : String → Objects → Result (List ℕ)
  pub put_bytes : String → List ℕ → Objects → Result (Unit {0}) × Objects
  pub materialize : String → Objects → Result (List ℕ)

-- The JSON values that a row consists of.
pub data Scalar : Type 0 where
  null : Scalar
  number : ℕ → Scalar
  string : String → Scalar

pub data Field : Type 0 where
  scalar : Scalar → Field
  array : List Scalar → Field

abbrev pub Item : Type 0
Item = List (String × Field)

abbrev number_or_null : Option ℕ → Field
number_or_null none = scalar null
number_or_null (some n) = scalar (number n)

abbrev string_or_null : Option String → Field
string_or_null none = scalar null
string_or_null (some s) = scalar (string s)

abbrev numbers_or_null : Option (List ℕ) → Field
numbers_or_null none = scalar null
numbers_or_null (some ns) = array (map number ns)

-- `asdict(r)`, where JSON has an array for a tuple
unfoldable pub asdict : PreparedChunk → Item
asdict r =
    ("chunk_index", scalar (number r.chunk_index))
    ∷ ("text", scalar (string r.text))
    ∷ ("token_count", scalar (number r.token_count))
    ∷ ("page_number", number_or_null r.page_number)
    ∷ ("doc_item_labels", array (map string r.doc_item_labels))
    ∷ ("section", string_or_null r.section)
    ∷ ("embedding", numbers_or_null r.embedding)
    ∷ []

unfoldable pub field : String → Item → Option Field
field k [] = none
field k ((j, v) ∷ rest) = if str_eq j k then some v else field k rest

-- The values of a field as those of the dataclass. Python would keep any other value, too; here it is none.
abbrev number_of : Option Field → Option ℕ
number_of (some (scalar (number n))) = some n
number_of _ = none

abbrev string_of : Option Field → Option String
string_of (some (scalar (string s))) = some s
string_of _ = none

abbrev optional_number_of : Option Field → Option (Option ℕ)
optional_number_of (some (scalar (number n))) = some (some n)
optional_number_of (some (scalar null)) = some none
optional_number_of _ = none

abbrev optional_string_of : Option Field → Option (Option String)
optional_string_of (some (scalar (string s))) = some (some s)
optional_string_of (some (scalar null)) = some none
optional_string_of _ = none

abbrev pub string_cons : Scalar → Option (List String) → Option (List String)
string_cons (string s) (some ss) = some (s ∷ ss)
string_cons _ _ = none

unfoldable pub strings : List Scalar → Option (List String)
strings [] = some []
strings (v ∷ vs) = string_cons v (strings vs)

abbrev pub number_cons : Scalar → Option (List ℕ) → Option (List ℕ)
number_cons (number n) (some ns) = some (n ∷ ns)
number_cons _ _ = none

unfoldable pub numbers : List Scalar → Option (List ℕ)
numbers [] = some []
numbers (v ∷ vs) = number_cons v (numbers vs)

-- `tuple(i.get("doc_item_labels", ()))`
abbrev pub labels_of : Option Field → Option (List String)
labels_of none = some []
labels_of (some (array vs)) = strings vs
labels_of (some (scalar v)) = none

abbrev pub some_numbers : Option (List ℕ) → Option (Option (List ℕ))
some_numbers none = none
some_numbers (some ns) = some (some ns)

abbrev pub optional_numbers_of : Option Field → Option (Option (List ℕ))
optional_numbers_of (some (array vs)) = some_numbers (numbers vs)
optional_numbers_of (some (scalar null)) = some none
optional_numbers_of _ = none

abbrev is_field : String → Bool
is_field k =
    str_eq k "chunk_index"
    || str_eq k "text"
    || str_eq k "token_count"
    || str_eq k "page_number"
    || str_eq k "doc_item_labels"
    || str_eq k "section"
    || str_eq k "embedding"

-- The constructor call with the keywords of the item.
abbrev pub prepared :
    Option ℕ
    → Option String
    → Option ℕ
    → Option (Option ℕ)
    → Option (List String)
    → Option (Option String)
    → Option (Option (List ℕ))
    → Option PreparedChunk
prepared (some index) (some text) (some tokens) (some page) (some labels) (some section)
      (some vector) =
    some (record {
      chunk_index = index;
      text = text;
      token_count = tokens;
      page_number = page;
      doc_item_labels = labels;
      section = section;
      embedding = vector;
    })
prepared _ _ _ _ _ _ _ = none

unfoldable pub from_item : Item → Option PreparedChunk
unfolding field numbers strings
from_item i =
    if all (λ p. is_field p.0) i
    then prepared (number_of (field "chunk_index" i)) (string_of (field "text" i))
        (number_of (field "token_count" i)) (optional_number_of (field "page_number" i))
        (labels_of (field "doc_item_labels" i)) (optional_string_of (field "section" i))
        (optional_numbers_of (field "embedding" i))
    else none

abbrev pub row_cons :
    Option PreparedChunk → Result (List PreparedChunk) → Result (List PreparedChunk)
row_cons none later = raise (error type_error (str "PreparedChunk.__init__()" ∷ []))
row_cons (some r) (ok rs) = ok (r ∷ rs)
row_cons (some r) (raise e) = raise e

unfoldable pub from_items : List Item → Result (List PreparedChunk)
unfolding from_item
from_items [] = ok []
from_items (i ∷ rest) = row_cons (from_item i) (from_items rest)

abbrev pub decode {ℓ κ} : {A : Type ℓ} {B : Type κ} → Result A → (A → Result B) → Result B
decode (ok a) f = f a
decode (raise e) f = raise e

-- `gzip.compress(json.dumps(...).encode())` and `json.loads(gzip.decompress(...))`.
pub record RowCodec : Type 0 where
  pub pack : List Item → List ℕ
  pub unpack : List ℕ → Result (List Item)

module _ (store : Store) (codec : RowCodec) where
  unfoldable pub save_rows : String → List PreparedChunk → Task (Unit {0})
  unfolding asdict
  save_rows key rows = write (store.put_bytes key (codec.pack (map asdict rows)))

  unfoldable pub load_rows : String → Task (List PreparedChunk)
  unfolding from_items
  load_rows key = do
    payload ← read (store.get_bytes key)
    items ← call (codec.unpack payload)
    call (from_items items)
