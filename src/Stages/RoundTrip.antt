-- ===== src/Stages/RoundTrip.antt =====
-- Rows that are saved and loaded again.
use doc_mind_ai.Base.{ℕ, String, ◌≡◌, refl, Option, none, some, List, [], ◌∷◌, map}
use doc_mind_ai.Model.Errors.{ok}
use doc_mind_ai.Model.Rows.{PreparedChunk}
use doc_mind_ai.Storage.Backend.{Objects}
use doc_mind_ai.Worker.Stage.{World}
use doc_mind_ai.Stages.Artifacts.{
  Store, number, string, number_cons, string_cons, strings, numbers, asdict, field, from_item,
  row_cons, from_items, RowCodec, save_rows, load_rows,
}

strings-map : (l : List String) → strings (map string l) ≡ some l
unfolding strings
strings-map [] = refl
strings-map (s ∷ l) = rw (strings-map l, string_cons) refl

numbers-map : (l : List ℕ) → numbers (map number l) ≡ some l
unfolding numbers
numbers-map [] = refl
numbers-map (n ∷ l) = rw (numbers-map l, number_cons) refl

from_item-asdict :
    (index : ℕ) (text : String) (tokens : ℕ) (page : Option ℕ) (labels : List String)
    (section : Option String) (vector : Option (List ℕ))
    → let r : PreparedChunk = record {
      chunk_index = index;
      text = text;
      token_count = tokens;
      page_number = page;
      doc_item_labels = labels;
      section = section;
      embedding = vector;
    } in
      from_item (asdict r) ≡ some r
unfolding from_item asdict field
from_item-asdict index text tokens none labels none none = rw (strings-map labels) refl
from_item-asdict index text tokens none labels none (some v) =
    rw (strings-map labels, numbers-map v) refl
from_item-asdict index text tokens none labels (some s) none = rw (strings-map labels) refl
from_item-asdict index text tokens none labels (some s) (some v) =
    rw (strings-map labels, numbers-map v) refl
from_item-asdict index text tokens (some p) labels none none = rw (strings-map labels) refl
from_item-asdict index text tokens (some p) labels none (some v) =
    rw (strings-map labels, numbers-map v) refl
from_item-asdict index text tokens (some p) labels (some s) none = rw (strings-map labels) refl
from_item-asdict index text tokens (some p) labels (some s) (some v) =
    rw (strings-map labels, numbers-map v) refl

pub from_items-asdict : (rows : List PreparedChunk) → from_items (map asdict rows) ≡ ok rows
unfolding from_items
from_items-asdict [] = refl
from_items-asdict (r ∷ rows) =
    rw
      (from_item-asdict r.chunk_index r.text r.token_count r.page_number r.doc_item_labels r.section
        r.embedding)
      (rw (from_items-asdict rows, row_cons) refl)

module _ (store : Store) (codec : RowCodec) (key : String) (rows : List PreparedChunk) where
  -- What is read at the key decodes to the rows.
  abbrev pub HasRows : Objects → Type 0
  HasRows o =
      (payload : List ℕ) × (store.get_bytes key o ≡ ok payload)
      × (codec.unpack payload ≡ ok (map asdict rows))

  pub load_rows-HasRows :
      (w : World) → HasRows w.storage → load_rows store codec key w ≡ (ok rows, w)
  unfolding load_rows
  load_rows-HasRows w (payload, there, readable) =
      rw (there, load_rows) (rw (readable, load_rows) (rw (from_items-asdict rows) refl))

  -- Rows that save_rows stores are what load_rows reads, all fields included, if the storage takes
  -- and gives back the bytes and gzip and JSON give back the items; the rows of the database do
  -- not change.
  pub load_rows-save_rows :
      (w : World)
      → (store.put_bytes key (codec.pack (map asdict rows)) w.storage).0 ≡ ok tt
      → store.get_bytes key (store.put_bytes key (codec.pack (map asdict rows)) w.storage).1
        ≡ ok (codec.pack (map asdict rows))
      → codec.unpack (codec.pack (map asdict rows)) ≡ ok (map asdict rows)
      → let (r, w') = save_rows store codec key rows w in
        (r ≡ ok tt) × (load_rows store codec key w' ≡ (ok rows, w')) × (w'.db ≡ w.db)
  unfolding save_rows
  load_rows-save_rows w stored there readable =
      (stored, load_rows-HasRows (save_rows store codec key rows w).1 (_, there, readable), refl)
