-- ===== src/Retrieval/Context.antt =====
-- backend/app/rag/retrieval/context.py, `render_context`. A text is the list of the parts of its f-strings.
use package.text.Mathlib.Text.{◌==◌ as str_eq}
use doc_mind_ai.Base.{ℕ, String, Option, none, some, List, [], ◌∷◌, ◌++◌, if◌then◌else◌, ◌==◌}
use doc_mind_ai.Model.Errors.{str, number, Text}
use doc_mind_ai.Retrieval.Types.{Passage}

abbrev last_page : Option ℕ → Text
last_page none = str "None" ∷ []
last_page (some n) = number n ∷ []

abbrev same_page : ℕ → Option ℕ → Text
same_page m none = str "pp." ∷ number m ∷ str "-" ∷ last_page none
same_page m (some n) =
    if m == n then str "p." ∷ number m ∷ [] else str "pp." ∷ number m ∷ str "-" ∷ last_page (some n)

abbrev location : Option ℕ → Option ℕ → Text
location none last = str "n/a" ∷ []
location (some m) last = same_page m last

-- `if p.section`
abbrev section_text : Option String → Text
section_text none = []
section_text (some s) = if str_eq s "" then [] else str " " ∷ str s ∷ []

unfoldable pub render_block : {Score : Type 0} → Passage Score → Text
render_block p =
    str "[" ∷ number p.citation_id ∷ str "]" ∷ section_text p.section
    ++ str " (" ∷ location p.page_start p.page_end
    ++ str ")\n" ∷ str p.text ∷ []

unfoldable pub render_context : {Score : Type 0} → List (Passage Score) → Text
unfolding render_block
render_context [] = []
render_context (p ∷ []) = render_block p
render_context (p ∷ q ∷ rest) = render_block p ++ str "\n\n---\n\n" ∷ render_context (q ∷ rest)
