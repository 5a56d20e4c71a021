-- ===== src/Examples/Artifacts.antt =====
-- A storage and tools for the stages: an object is what was put last, and a document is a number.
use doc_mind_ai.Base.{
  suc, ◌==◌, ℕ, refl, Bool, true, false, Option, none, some, List, [], ◌∷◌, map, length, arith,
  if◌then◌else◌,
}
use doc_mind_ai.Model.Errors.{object_not_found, error, Result, ok, raise}
use doc_mind_ai.Model.Details.{num}
use doc_mind_ai.Model.Rows.{PreparedChunk}
use doc_mind_ai.Storage.Backend.{object_at}
use doc_mind_ai.Stages.Artifacts.{Store, scalar, array, Item, asdict}
use doc_mind_ai.Repositories.Chunks.{has_repeat}
use doc_mind_ai.Stages.Bodies.{Tools}
use doc_mind_ai.Stages.Conversion.{Conversion}

abbrev bytes_of : Option (List ℕ) → Result (List ℕ)
bytes_of none = raise (error object_not_found [])
bytes_of (some bytes) = ok bytes

abbrev is_there : Option (List ℕ) → Bool
is_there none = false
is_there (some bytes) = true

abbrev pub store : Store
store = record {
  exists = λ k o. ok (is_there (object_at k o));
  get_bytes = λ k o. bytes_of (object_at k o);
  put_bytes = λ k bytes o. (ok tt, (k, bytes) ∷ o);
  materialize = λ k o. bytes_of (object_at k o);
}

abbrev pub row : Option (List ℕ) → PreparedChunk
row vector = record {
  chunk_index = 0;
  text = "Revenue grew.";
  token_count = 3;
  page_number = some 2;
  doc_item_labels = "text" ∷ [];
  section = none;
  embedding = vector;
}

abbrev pub bare : List PreparedChunk
bare = row none ∷ []

abbrev pub embedded : List PreparedChunk
embedded = row (some (1 ∷ 2 ∷ [])) ∷ []

-- A text is the number of the arrays in its first row: one without a vector, two with it.
abbrev arrays : Item → ℕ
arrays [] = 0
arrays ((k, array vs) ∷ rest) = suc (arrays rest)
arrays ((k, scalar v) ∷ rest) = arrays rest

unfoldable pub packed : List Item → List ℕ
packed [] = []
packed (i ∷ rest) = arrays i ∷ []

unfoldable pub unpacked : List ℕ → Result (List Item)
unfolding asdict
unpacked [] = ok []
unpacked (n ∷ rest) = ok (map asdict (if n == 2 then embedded else bare))

abbrev pub tools : Tools ℕ
tools = record {
  dump = λ n. n ∷ [];
  validate = λ bytes. ok (length bytes);
  page_count = λ n. 12;
  text_count = λ n. 40;
  table_count = λ n. 2;
  extract_document = λ bytes. ok (length bytes);
  clean_document = λ n. ok (n, ("removed", num 4) ∷ []);
  chunk_document = λ n. ok bare;
  embed_rows = λ l. ok embedded;
  codec = record { pack = packed; unpack = unpacked };
}

unfoldable pub conversion : Conversion tools 2
unfolding asdict unpacked packed has_repeat
conversion = record {
  bytes = 37 ∷ [];
  parsed = 1;
  cleaned = 1;
  stats = ("removed", num 4) ∷ [];
  rows = bare;
  vectors = embedded;
  extracts = refl;
  parsed_readable = refl;
  cleans = refl;
  cleaned_readable = refl;
  chunks = refl;
  some_rows = omega arith;
  rows_readable = refl;
  embeds = refl;
  vectors_readable = refl;
  fits = refl;
  single = refl;
}
