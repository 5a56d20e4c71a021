-- ===== src/Evaluation/Agreement.antt =====
-- How the metrics relate to each other and to 1.
use package.text.Mathlib.Text.{◌==◌ as str_eq}
use package.text.Mathlib.TextEquality.{eq_iff}
use doc_mind_ai.Base.{
  ℕ, zero, suc, ◌≤◌, ◌<◌, ◌≡◌, ◌↔◌, refl, sym, ap, ◌∙◌, fun_ext, inl, inr, String, Bool, true,
  false, ◌||◌, List, [], ◌∷◌, ◌==◌, length, take, select, any, length-take, length-select-le,
  Bool-cases, arith,
}
use doc_mind_ai.Evaluation.Metrics.{
  Ratio, is_in, is_empty, hit_at_k, precision_at_k, recall_at_k, first_hit, mrr_at_k,
}

str_eq_comm : (a b : String) → str_eq a b ≡ str_eq b a
str_eq_comm a b = elim (Bool-cases (str_eq a b)) [
  | inl e ↦ e ∙ sym ((eq_iff b a).1 (sym ((eq_iff a b).0 e)))
  | inr e ↦ elim (Bool-cases (str_eq b a)) [
    | inr f ↦ e ∙ sym f
    | inl f ↦
        let back : str_eq a b ≡ true = (eq_iff a b).1 (sym ((eq_iff b a).0 f)) in
        absurd (ground (arith, back, e))
  ]
]

or_swap : (a b c d : Bool) → ((a || b) || (c || d)) ≡ ((a || c) || (b || d))
or_swap a b c d = ground arith

any-or : (p q : String → Bool) (l : List String) → any (λ x. p x || q x) l ≡ (any p l || any q l)
any-or p q [] = refl
any-or p q (x ∷ l) =
    ap (λ b. (p x || q x) || b) (any-or p q l) ∙ or_swap (p x) (q x) (any p l) (any q l)

any-none : (l : List String) → any (λ x. false) l ≡ false
any-none [] = refl
any-none (x ∷ l) = any-none l

-- A result is in `gold` exactly if some id of `gold` is among the results.
any-swap : (top gold : List String) → any (is_in gold) top ≡ any (is_in top) gold
any-swap [] gold = sym (any-none gold)
any-swap (r ∷ top) gold =
    ap (λ b. any (str_eq r) gold || b) (any-swap top gold)
    ∙ ap (λ p. any p gold || any (is_in top) gold) (fun_ext (λ g. str_eq_comm r g))
    ∙ sym (any-or (λ g. str_eq g r) (is_in top) gold)

any-select : (p : String → Bool) (l : List String) → (any p l ≡ true) ↔ (0 < length (select p l))
any-select p [] = (λ e. absurd (ground (arith, e)), λ h. absurd (omega (arith, h)))
any-select p (x ∷ l) = ground (arith, any-select p l)

any-first_hit :
    (gold : List String) (i : ℕ) (l : List String)
    → (any (is_in gold) l ≡ true) ↔ ((first_hit gold i l).numerator ≡ 1)
unfolding first_hit
any-first_hit gold i [] = (λ e. absurd (ground (arith, e)), λ h. absurd (omega (arith, h)))
any-first_hit gold i (r ∷ l) = ground (arith, any-first_hit gold (suc i) l)

zero_take :
    (gold : List String) (k : ℕ) (l : List String)
    → (k == 0) ≡ true
    → any (is_in gold) (take k l) ≡ false
zero_take gold zero l e = refl
zero_take gold (suc k) l e = absurd (ground (arith, e))

-- At every k the hit metric is 1 exactly if the precision is positive, exactly if the recall is
-- positive, and exactly if the reciprocal rank has the numerator 1.
pub metrics-agree :
    (retrieved gold : List String) (k : ℕ)
    → let hit = (hit_at_k retrieved gold k).numerator ≡ 1 in
      (hit ↔ (0 < (precision_at_k retrieved gold k).numerator))
      × (hit ↔ (0 < (recall_at_k retrieved gold k).numerator))
      × (hit ↔ ((mrr_at_k retrieved gold k).numerator ≡ 1))
unfolding hit_at_k precision_at_k recall_at_k mrr_at_k
metrics-agree retrieved gold k =
    let top = take k retrieved in
    elim (Bool-cases (is_empty gold)) [
      | inl none_there ↦ rw none_there (ground arith, ground arith, ground arith)
      | inr some_there ↦ rw some_there (
        ground (arith, any-select (is_in gold) top, zero_take gold k retrieved),
        ground (arith, any-swap top gold, any-select (is_in top) gold),
        ground (arith, any-first_hit gold 1 top),
      )
    ]

first_hit-proper :
    (gold : List String) (i : ℕ) (l : List String)
    → 0 < i
    → ((first_hit gold i l).numerator ≤ (first_hit gold i l).denominator)
      × (0 < (first_hit gold i l).denominator)
unfolding first_hit
first_hit-proper gold i [] h = (omega arith, omega arith)
first_hit-proper gold i (r ∷ l) h =
    let (small, proper) = first_hit-proper gold (suc i) l (omega arith) in
    (ground (arith, h, small), ground (arith, h, proper))

unfoldable pub IsProper : Ratio → Type 0
IsProper r = (r.numerator ≤ r.denominator) × (0 < r.denominator)

nonempty : (gold : List String) → is_empty gold ≡ false → 0 < length gold
nonempty [] e = absurd (ground (arith, e))
nonempty (g ∷ gold) e = omega arith

top-le : (p : String → Bool) (k : ℕ) (l : List String) → length (select p (take k l)) ≤ k
top-le p k l = let few = length-take k l in omega (arith, few, length-select-le p (take k l))

-- Hit, precision, recall and reciprocal rank are, for all results, gold ids and k, fractions with
-- a positive denominator and a value of at most 1.
pub metrics-IsProper :
    (retrieved gold : List String) (k : ℕ)
    → IsProper (hit_at_k retrieved gold k)
      × IsProper (precision_at_k retrieved gold k)
      × IsProper (recall_at_k retrieved gold k)
      × IsProper (mrr_at_k retrieved gold k)
unfolding hit_at_k precision_at_k recall_at_k mrr_at_k IsProper
metrics-IsProper retrieved gold k = elim (Bool-cases (is_empty gold)) [
  | inl none_there ↦ rw none_there (
    (omega arith, omega arith),
    (omega arith, omega arith),
    (omega arith, omega arith),
    (omega arith, omega arith),
  )
  | inr some_there ↦ rw some_there (
    (ground arith, omega arith),
    (ground (arith, top-le (is_in gold) k retrieved), ground arith),
    (length-select-le (is_in (take k retrieved)) gold, nonempty gold some_there),
    first_hit-proper gold 1 (take k retrieved) (omega arith),
  )
]

-- At every k the hit metric is 1 exactly if the precision is positive, exactly if the recall is
-- positive, and exactly if the reciprocal rank has the numerator 1; the four are, for all results
-- and gold ids, fractions with a positive denominator and a value of at most 1.
pub metrics_sound :
    (retrieved gold : List String) (k : ℕ)
    → let hit = (hit_at_k retrieved gold k).numerator ≡ 1 in
      ((hit ↔ (0 < (precision_at_k retrieved gold k).numerator))
        × (hit ↔ (0 < (recall_at_k retrieved gold k).numerator))
        × (hit ↔ ((mrr_at_k retrieved gold k).numerator ≡ 1)))
      × IsProper (hit_at_k retrieved gold k)
      × IsProper (precision_at_k retrieved gold k)
      × IsProper (recall_at_k retrieved gold k)
      × IsProper (mrr_at_k retrieved gold k)
metrics_sound retrieved gold k =
    let (hit, precision, recall, rank) = metrics-IsProper retrieved gold k in
    (metrics-agree retrieved gold k, hit, precision, recall, rank)
