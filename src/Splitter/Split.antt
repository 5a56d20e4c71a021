-- ===== src/Splitter/Split.antt =====
-- backend/app/rag/chunk/splitter.py, class `EmbeddingTextSplitter`. The tokenizer, which is not part of the
-- repository, is a parameter. The pieces that `split` yields are a list.
use Prim.Native.String.{◌++◌ as append}
use package.text.Mathlib.Text.{◌==◌ as str_eq}
use doc_mind_ai.Base.{
  ℕ, zero, suc, ◌+◌, ◌-◌, max, String, Option, none, some, List, [], ◌∷◌, ◌++◌, if◌then◌else◌, ltb,
  leb, length, take, drop,
}
use doc_mind_ai.Model.Errors.{value_error, str, number, error, Result, ok, raise}

-- `encode` without special tokens, and `decode` without them.
pub record Tokenizer : Type 0 where
  pub encode : String → List ℕ
  pub decode : List ℕ → String

pub record Splitter : Type 0 where
  pub max_tokens : ℕ
  pub overlap_tokens : ℕ

-- `__init__`, for numbers that are not negative.
unfoldable pub new_splitter : ℕ → ℕ → Result Splitter
new_splitter content_budget overlap_tokens =
    if leb content_budget 0
    then raise (error value_error (str "max_tokens must be positive" ∷ []))
    else if ltb overlap_tokens content_budget
    then ok (record { max_tokens = content_budget; overlap_tokens = overlap_tokens })
    else raise (error value_error (str "overlap_tokens must be in [0, max_tokens)" ∷ []))

-- `if text: yield text`
abbrev pub yielded : String → List String
yielded text = if str_eq text "" then [] else text ∷ []

abbrev pub yield_first : List String → Option (List String) → Option (List String)
yield_first here none = none
yield_first here (some later) = some (here ++ later)

module _ (t : Tokenizer) (s : Splitter) where
  abbrev pub count_tokens : String → ℕ
  count_tokens text = length (t.encode text)

  -- The loop of `fit`, down from `size`.
  unfoldable pub fit_from : List ℕ → ℕ → String
  fit_from token_ids zero = ""
  fit_from token_ids (suc n) =
      let candidate = t.decode (take (suc n) token_ids) in
      let smaller = fit_from token_ids n in
      if leb (count_tokens candidate) s.max_tokens then candidate else smaller

  unfoldable pub fit : String → String
  unfolding fit_from
  fit text =
      if leb (count_tokens text) s.max_tokens then text else fit_from (t.encode text) s.max_tokens

  module _ (prefix : String) (body_ids : List ℕ) (body_limit : ℕ) where
    abbrev pub piece_at : ℕ → List String
    piece_at start =
        yielded (fit (append prefix (t.decode (take body_limit (drop start body_ids)))))

    module _ (step : ℕ) where
      -- The loop of `split`, from `start`; `none` where the fuel is too little.
      unfoldable pub split_from : ℕ → ℕ → Option (List String)
      unfolding fit
      split_from zero start = if ltb start (length body_ids) then none else some []
      split_from (suc fuel) start =
          let later = split_from fuel (start + step) in
          if ltb start (length body_ids)
          then (if leb (length body_ids) (start + body_limit)
              then some (piece_at start)
              else yield_first (piece_at start) later)
          else some []

  abbrev pub prefix_ids : String → List ℕ
  prefix_ids prefix = if str_eq prefix "" then [] else t.encode prefix

  abbrev pub body_limit_of : String → ℕ
  body_limit_of prefix = s.max_tokens - length (prefix_ids prefix)

  -- `max(1, body_limit - self.overlap_tokens)`: a negative difference counts as 0.
  abbrev pub step_of : String → ℕ
  step_of prefix = max 1 (body_limit_of prefix - s.overlap_tokens)

  unfoldable pub split_body : String → List ℕ → Option (List String)
  unfolding split_from
  split_body prefix [] = some (yielded (fit prefix))
  split_body prefix body_ids =
      split_from prefix body_ids (body_limit_of prefix) (step_of prefix) (length body_ids) 0

  unfoldable pub split : String → String → Result (Option (List String))
  unfolding split_body
  split text prefix =
      if leb s.max_tokens (length (prefix_ids prefix))
      then raise (
          error value_error (
            str "Context prefix has "
            ∷ number (length (prefix_ids prefix))
            ∷ str " tokens, but the available limit is "
            ∷ number s.max_tokens
            ∷ []))
      else ok (split_body prefix (t.encode text))
