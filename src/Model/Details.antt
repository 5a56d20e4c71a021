-- ===== src/Model/Details.antt =====
-- The JSON objects in the columns `details` and `metadata_`, as Python dicts.
use package.text.Mathlib.Text.{◌==◌ as str_eq}
use package.text.Mathlib.TextEquality.{eq_iff}
use doc_mind_ai.Base.{ℕ, String, ◌≡◌, Bool, Option, none, some, List, [], ◌∷◌, arith, if◌then◌else◌}
use doc_mind_ai.Model.Errors.{Text}

-- One entry of `details["attempt"]`.
pub record Attempt : Type 0 where
  pub attempt : ℕ
  pub error : Text

pub data Value : Type 0 where
  null : Value
  num : ℕ → Value
  flag : Bool → Value
  text : Text → Value
  string : String → Value
  history : List Attempt → Value

abbrev pub Details : Type 0
Details = List (String × Value)

-- `d.get(k)`, and `k in d`
unfoldable pub get : String → Details → Option Value
get k [] = none
get k ((j, v) ∷ d) = if str_eq j k then some v else get k d

-- `d[k] = v`, and `{**d, k: v}`
unfoldable pub put : String → Value → Details → Details
put k v [] = (k, v) ∷ []
put k v ((j, w) ∷ d) = if str_eq j k then (j, v) ∷ d else (j, w) ∷ put k v d

-- `{**d, **e}`
unfoldable pub merge : Details → Details → Details
unfolding put
merge d [] = d
merge d ((k, v) ∷ e) = merge (put k v d) e

-- `d.get(k, default)`
unfoldable pub get_or : String → Value → Details → Value
unfolding get
get_or k default d = elim (get k d) [ none ↦ default | some v ↦ v ]

pub get-put :
    (k j : String) (v : Value) (d : Details)
    → get j (put k v d) ≡ (if str_eq k j then some v else get j d)
unfolding get put
get-put k j v [] = ground arith
get-put k j v ((i, w) ∷ d) = ground (arith, eq_iff k j, eq_iff i k, eq_iff i j, get-put k j v d)
