-- ===== src/Examples/Splits.antt =====
-- A text of seven tokens, split by windows of four with an overlap of one.
use Prim.Native.String.{[] as end, ◌∷◌ as push, ◌++◌ as append}
use package.text.Mathlib.Text.{◌==◌ as str_eq}
use doc_mind_ai.Base.{ℕ, ◌≤◌, ◌≡◌, refl, String, false, some, List, [], ◌∷◌, length, All, arith}
use doc_mind_ai.Model.Errors.{ok}
use doc_mind_ai.Splitter.Split.{Tokenizer, Splitter, split}
use doc_mind_ai.Splitter.Windows.{split-pieces}

-- Each character is a token.
letters : String → List ℕ
letters end = []
letters (push c s) = 1 ∷ letters s

repeated : List ℕ → String
repeated [] = ""
repeated (i ∷ ids) = append "a" (repeated ids)

abbrev by_letter : Tokenizer
by_letter = record { encode = letters; decode = repeated }

abbrev fours : Splitter
fours = record { max_tokens = 5; overlap_tokens = 1 }

-- The pieces have the prefix in front.
split_run : split by_letter fours "aaaaaaa" ">" ≡ ok (some (">aaaa" ∷ ">aaaa" ∷ []))
unfolding split letters repeated
split_run = refl

split-pieces_example :
    (ps : List String) × (split by_letter fours "aaaaaaa" ">" ≡ ok (some ps))
    × All (λ piece. (length (letters piece) ≤ 5) × (str_eq piece "" ≡ false)) ps
unfolding letters
split-pieces_example = split-pieces by_letter fours "aaaaaaa" ">" (omega arith) refl
