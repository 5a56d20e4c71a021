-- ===== src/Base/Tables.antt =====
-- A database table: rows under their primary key, in the order in which they were inserted.
use Prim.Native.Nat.{ℕ}
use mathlib.Core.Path.{◌≡◌, refl, sym, ap, ◌∙◌}
use mathlib.Core.Logic.{inl, inr}
use mathlib.Core.Bool.{Bool, false, not}
use mathlib.Core.Option.{Option, none, some}
use mathlib.Core.List.{List, [], ◌∷◌, ◌++◌}
use native.Mathlib.Omega.{arith}
use doc_mind_ai.Base.Tests.{◌==◌, if◌then◌else◌, Bool-cases}

abbrev pub Table {ℓ} : Type ℓ → Type ℓ
Table A = List (ℕ × A)

module _ {ℓ} {A : Type ℓ} where
  unfoldable pub find : ℕ → Table A → Option A
  find i [] = none
  find i ((j, r) ∷ t) = if j == i then some r else find i t

  -- `UPDATE … SET … WHERE id = i`
  unfoldable pub update : ℕ → A → Table A → Table A
  update i v [] = []
  update i v ((j, r) ∷ t) = (j, if j == i then v else r) ∷ update i v t

  unfoldable pub insert : ℕ → A → Table A → Table A
  insert i v t = t ++ (i, v) ∷ []

  -- `DELETE … WHERE`: the rows that do not satisfy the condition stay.
  unfoldable pub delete_where : (A → Bool) → Table A → Table A
  delete_where p [] = []
  delete_where p ((j, r) ∷ t) = let rest = delete_where p t in if p r then rest else (j, r) ∷ rest

  -- `DELETE … WHERE id = i`
  unfoldable pub delete_key : ℕ → Table A → Table A
  delete_key i [] = []
  delete_key i ((j, r) ∷ t) = let rest = delete_key i t in if j == i then rest else (j, r) ∷ rest

module _ {ℓ} {A : Type ℓ} where
  find-update_other :
      (i j : ℕ) (v : A) (t : Table A) → (i == j) ≡ false → find j (update i v t) ≡ find j t
  unfolding find update
  find-update_other i j v [] h = ground arith
  find-update_other i j v ((k, s) ∷ t) h = ground (arith, find-update_other i j v t)

  pub find-update :
      (i j : ℕ) (v : A) (t : Table A) (r : A)
      → find i t ≡ some r
      → find j (update i v t) ≡ (if i == j then some v else find j t)
  unfolding find update
  find-update i j v [] r h = ground arith
  find-update i j v ((k, s) ∷ t) r h =
      ground (arith, find-update i j v t r, find-update_other i j v t)

  pub find-insert :
      (i j : ℕ) (v : A) (t : Table A)
      → find i t ≡ none
      → find j (insert i v t) ≡ (if i == j then some v else find j t)
  unfolding find insert
  find-insert i j v [] h = ground arith
  find-insert i j v ((k, r) ∷ t) h = ground (arith, find-insert i j v t)

  -- The row at a key after `delete_key`, and after `delete_where`.
  pub find-delete_key :
      (i j : ℕ) (t : Table A) → find j (delete_key i t) ≡ (if i == j then none else find j t)
  unfolding find delete_key
  find-delete_key i j [] = ground arith
  find-delete_key i j ((k, r) ∷ t) = ground (arith, find-delete_key i j t)

  pub find-delete_where-kept :
      (p : A → Bool) (i : ℕ) (t : Table A) (r : A)
      → find i t ≡ some r
      → p r ≡ false
      → find i (delete_where p t) ≡ some r
  unfolding find delete_where
  find-delete_where-kept p i [] r e h = ground arith
  find-delete_where-kept p i ((k, s) ∷ t) r e h = elim (Bool-cases (k == i)) [
    | inl same ↦
        let here : s ≡ r = ground (arith, e, same) in
        let stays : p s ≡ false = ap p here ∙ h in rw stays (rw same (ap some here))
    | inr other ↦
        let there : find i t ≡ some r = ground (arith, e, other) in
        elim (Bool-cases (p s)) [
          | inl gone ↦ rw gone (find-delete_where-kept p i t r there h)
          | inr stays ↦ rw stays (rw other (find-delete_where-kept p i t r there h))
        ]
  ]

  pub find-delete_where-left :
      (p : A → Bool) (i : ℕ) (t : Table A) (r : A)
      → find i (delete_where p t) ≡ some r
      → p r ≡ false
  unfolding find delete_where
  find-delete_where-left p i [] r = λ e. ground (arith, e)
  find-delete_where-left p i ((k, s) ∷ t) r = elim (Bool-cases (p s)) [
    | inl gone ↦ rw gone (find-delete_where-left p i t r)
    | inr stays ↦ rw stays (elim (Bool-cases (k == i)) [
      | inl same ↦ rw same (λ e. let here : s ≡ r = ground (arith, e) in ap p (sym here) ∙ stays)
      | inr other ↦ rw other (find-delete_where-left p i t r)
    ])
  ]

  -- The rows that a test selects, in the order of the table.
  abbrev pub rows_where : (A → Bool) → Table A → Table A
  rows_where p [] = []
  rows_where p ((j, r) ∷ t) = let rest = rows_where p t in if p r then (j, r) ∷ rest else rest

  pub rows_where-append :
      (p : A → Bool) (s t : Table A) → rows_where p (s ++ t) ≡ rows_where p s ++ rows_where p t
  rows_where-append p [] t = refl
  rows_where-append p ((j, r) ∷ s) t = elim (Bool-cases (p r)) [
    | inl e ↦ rw e (ap (◌∷◌ (j, r)) (rows_where-append p s t))
    | inr e ↦ rw e (rows_where-append p s t)
  ]

  pub rows_where-delete_where :
      (p : A → Bool) (t : Table A)
      → (rows_where p (delete_where p t) ≡ [])
        × (rows_where (λ r. not (p r)) (delete_where p t) ≡ rows_where (λ r. not (p r)) t)
  unfolding delete_where
  rows_where-delete_where p [] = (refl, refl)
  rows_where-delete_where p ((j, r) ∷ t) = elim (Bool-cases (p r)) [
    | inl e ↦ rw e (rows_where-delete_where p t)
    | inr e ↦
        rw e
          (rw e ((rows_where-delete_where p t).0, ap (◌∷◌ (j, r)) (rows_where-delete_where p t).1))
  ]
