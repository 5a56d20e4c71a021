-- ===== src/Splitter/Windows.antt =====
-- The pieces of a split: how many tokens they have, and what part of the text they cover.
use Prim.Native.String.{◌++◌ as append}
use package.text.Mathlib.Text.{◌==◌ as str_eq}
use doc_mind_ai.Base.{
  ℕ, zero, suc, ◌+◌, ◌≤◌, ◌<◌, ◌≡◌, inl, inr, refl, ap, String, true, false, some, List, [], ◌∷◌,
  ◌++◌, ltb, leb, length, take, drop, All, All-append, any, ◌&&◌, Bool-cases, arith,
}
use doc_mind_ai.Model.Errors.{ok}
use doc_mind_ai.Splitter.Split.{
  Tokenizer, Splitter, yielded, yield_first, count_tokens, fit_from, fit, piece_at, split_from,
  split_body, split, prefix_ids, body_limit_of, step_of,
}

module _ (t : Tokenizer) (s : Splitter) (empty : t.encode "" ≡ []) where
  Fits : String → Type 0
  Fits text = count_tokens t s text ≤ s.max_tokens

  fit_from-Fits : (ids : List ℕ) (n : ℕ) → Fits (fit_from t s ids n)
  unfolding fit_from Fits
  fit_from-Fits ids zero = rw empty (omega arith)
  fit_from-Fits ids (suc n) =
      elim (Bool-cases (leb (length (t.encode (t.decode (take (suc n) ids)))) s.max_tokens)) [
        | inl h ↦ rw h (ground arith)
        | inr h ↦ rw h (fit_from-Fits ids n)
      ]

  fit-Fits : (text : String) → Fits (fit t s text)
  unfolding fit Fits
  fit-Fits text = elim (Bool-cases (leb (length (t.encode text)) s.max_tokens)) [
    | inl h ↦ rw h (ground arith)
    | inr h ↦ rw h (fit_from-Fits (t.encode text) s.max_tokens)
  ]

  -- Every piece that is yielded fits, and is not empty.
  IsPiece : String → Type 0
  IsPiece text = Fits text × (str_eq text "" ≡ false)

  yielded-IsPiece : (text : String) → Fits text → All IsPiece (yielded text)
  unfolding IsPiece
  yielded-IsPiece text h = elim (Bool-cases (str_eq text "")) [
    | inl e ↦ rw e tt
    | inr e ↦ rw e ((h, e), tt)
  ]

  module _ (prefix : String) (body_ids : List ℕ) (limit step : ℕ) (forward : 1 ≤ step) where
    split_from-pieces :
        (fuel start : ℕ)
        → length body_ids ≤ start + fuel
        → (ps : List String) × (split_from t s prefix body_ids limit step fuel start ≡ some ps)
          × All IsPiece ps
    unfolding split_from
    split_from-pieces zero start enough =
        let over : ltb start (length body_ids) ≡ false = ground arith in ([], rw over refl, tt)
    split_from-pieces (suc fuel) start enough =
        let here =
          yielded-IsPiece _
            (fit-Fits (append prefix (t.decode (take limit (drop start body_ids))))) in
        let (later, e, all) =
          split_from-pieces fuel (start + step) (omega (arith, enough, forward)) in
        elim (Bool-cases (ltb start (length body_ids))) [
          | inr over ↦ ([], rw over refl, tt)
          | inl under ↦ elim (Bool-cases (leb (length body_ids) (start + limit))) [
            | inl last ↦ (_, rw under (rw last refl), here)
            | inr more ↦ (
              piece_at t s prefix body_ids limit start ++ later,
              rw under (rw more (rw (e, yield_first) refl)),
              All-append IsPiece _ later here all,
            )
          ]
        ]

-- The piece at each of the starts, one after the other.
abbrev pub pieces_at : (ℕ → List String) → List ℕ → List String
pieces_at piece [] = []
pieces_at piece (start ∷ rest) = piece start ++ pieces_at piece rest

-- A position of the body lies in the window at one of the starts.
abbrev pub IsCovered : ℕ → ℕ → List ℕ → Type 0
IsCovered limit i starts = any (λ start. leb start i && ltb i (start + limit)) starts ≡ true

module _ (t : Tokenizer) (s : Splitter) (text prefix : String)
    (room : length (prefix_ids t s prefix) < s.max_tokens) where
  limit : ℕ
  limit = body_limit_of t s prefix

  forwards : 1 ≤ step_of t s prefix
  forwards = omega arith

  roomy : leb s.max_tokens (length (prefix_ids t s prefix)) ≡ false
  roomy = ground (arith, room)

  split_body-pieces :
      (empty : t.encode "" ≡ []) (ids : List ℕ)
      → (ps : List String) × (split_body t s prefix ids ≡ some ps) × All (IsPiece t s empty) ps
  unfolding split_body
  split_body-pieces empty [] = (_, refl, yielded-IsPiece t s empty _ (fit-Fits t s empty prefix))
  split_body-pieces empty (x ∷ ids) =
      split_from-pieces t s empty prefix (x ∷ ids) _ (step_of t s prefix) forwards
        (length (x ∷ ids)) 0 (omega arith)

  -- For a prefix with fewer tokens than the limit, and a tokenizer that gives the empty text no
  -- tokens, split ends with a list of pieces of which each has at most max_tokens tokens and none
  -- is empty.
  pub split-pieces :
      t.encode "" ≡ []
      → (ps : List String) × (split t s text prefix ≡ ok (some ps))
        × All (λ piece. (length (t.encode piece) ≤ s.max_tokens) × (str_eq piece "" ≡ false)) ps
  unfolding split IsPiece Fits
  split-pieces empty =
      let (ps, e, all) = split_body-pieces empty (t.encode text) in (ps, rw roomy (ap ok e), all)
