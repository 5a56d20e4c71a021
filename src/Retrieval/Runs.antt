-- ===== src/Retrieval/Runs.antt =====
-- The grouping of positions into runs of consecutive ones.
use doc_mind_ai.Base.{
  ℕ, suc, ◌≡◌, refl, sym, ap, ◌∙◌, inl, inr, List, [], ◌∷◌, ◌++◌, All, ◌==◌, ==_iff, Bool-cases,
}
use doc_mind_ai.Retrieval.Passages.{runs_from, runs_of}

-- A list of consecutive numbers that is not empty and ends with `last`.
abbrev pub IsRunTo : List ℕ → ℕ → Type 0
IsRunTo [] last = ⊥
IsRunTo (i ∷ []) last = i ≡ last
IsRunTo (i ∷ j ∷ rest) last = (j ≡ suc i) × IsRunTo (j ∷ rest) last

abbrev pub IsRun : List ℕ → Type 0
IsRun run = (last : ℕ) × IsRunTo run last

abbrev pub concat : List (List ℕ) → List ℕ
concat [] = []
concat (run ∷ rest) = run ++ concat rest

append_assoc : (xs ys zs : List ℕ) → (xs ++ ys) ++ zs ≡ xs ++ (ys ++ zs)
append_assoc [] ys zs = refl
append_assoc (x ∷ xs) ys zs = ap (◌∷◌ x) (append_assoc xs ys zs)

extend : (run : List ℕ) (last i : ℕ) → IsRunTo run last → i ≡ suc last → IsRunTo (run ++ i ∷ []) i
extend [] last i r e = absurd r
extend (j ∷ []) last i r e = (e ∙ ap suc (sym r), refl)
extend (j ∷ k ∷ rest) last i r e = (r.0, extend (k ∷ rest) last i r.1 e)

runs_from-concat : (run : List ℕ) (last : ℕ) (l : List ℕ) → concat (runs_from run last l) ≡ run ++ l
unfolding runs_from
runs_from-concat run last [] = refl
runs_from-concat run last (i ∷ rest) = elim (Bool-cases (i == suc last)) [
  | inl on ↦
      rw (on, runs_from) (runs_from-concat (run ++ i ∷ []) i rest ∙ append_assoc run (i ∷ []) rest)
  | inr off ↦ rw (off, runs_from) (ap (λ l. run ++ l) (runs_from-concat (i ∷ []) i rest))
]

runs_from-runs :
    (run : List ℕ) (last : ℕ) (l : List ℕ) → IsRunTo run last → All IsRun (runs_from run last l)
unfolding runs_from
runs_from-runs run last [] r = ((last, r), tt)
runs_from-runs run last (i ∷ rest) r = elim (Bool-cases (i == suc last)) [
  | inl on ↦
      rw (on, runs_from)
        (runs_from-runs (run ++ i ∷ []) i rest (extend run last i r ((==_iff i (suc last)).0 on)))
  | inr off ↦ rw (off, runs_from) ((last, r), runs_from-runs (i ∷ []) i rest refl)
]

-- The runs of a list of positions are, one after the other, that list, and each of them is a non-
-- empty sequence of consecutive positions.
pub runs_of-partition : (l : List ℕ) → (concat (runs_of l) ≡ l) × All IsRun (runs_of l)
unfolding runs_of
runs_of-partition [] = (refl, tt)
runs_of-partition (i ∷ rest) =
    (runs_from-concat (i ∷ []) i rest, runs_from-runs (i ∷ []) i rest refl)
