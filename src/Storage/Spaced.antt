-- ===== src/Storage/Spaced.antt =====
-- How a pattern of backend/app/services/storage/base.py keeps the texts that match it from two dots in a row.
use Prim.Native.Char.{Char, code}
use Prim.Native.String.{[] as empty, ◌∷◌ as ◌∷ˢ◌}
use doc_mind_ai.Base.{
  ℕ, zero, suc, ◌≡◌, refl, String, Bool, true, false, ◌&&◌, ◌||◌, ◌⊎◌, inl, inr, List, [], ◌∷◌,
  ◌++◌, all, not, Bool-cases, ◌==◌, arith,
}
use doc_mind_ai.Storage.Validation.{Piece, one, maybe, many, matches, characters, times, literally}
use doc_mind_ai.Storage.Matched.{both, either}

-- Whether a text starts with the character of a number.
unfoldable pub starts : ℕ → List Char → Bool
starts n [] = false
starts n (c ∷ s) = code c == n

-- Whether a text has two dots in a row.
unfoldable pub has_dots : List Char → Bool
has_dots [] = false
has_dots (c ∷ s) = ((code c == 46) && starts 46 s) || has_dots s

-- A class without a character.
abbrev pub Lacks : ℕ → (Char → Bool) → Type 0
Lacks n p = (c : Char) → code c ≡ n → p c ≡ false

-- A pattern whose texts start with a character other than one.
unfoldable pub Avoids : ℕ → List Piece → Type 0
Avoids n [] = ⊥
Avoids n (one p ∷ r) = Lacks n p
Avoids n (maybe p ∷ r) = ⊥
Avoids n (many p ∷ r) = Lacks n p

-- A pattern in which a dot comes only before something else.
unfoldable pub Spaced : List Piece → Type 0
unfolding Avoids
Spaced [] = Unit
Spaced (one p ∷ r) = (Lacks 46 p ⊎ Avoids 46 r) × Spaced r
Spaced (maybe p ∷ r) = Lacks 46 p × Spaced r
Spaced (many p ∷ r) = Lacks 46 p × Spaced r

and_false : (x : Bool) → x && false || false ≡ false
and_false true = refl
and_false false = refl

Lacks-false : (n : ℕ) (p : Char → Bool) (c : Char) → Lacks n p → p c ≡ true → (code c == n) ≡ false
Lacks-false n p c l h = elim (Bool-cases (code c == n)) [
  | inl e ↦ absurd (ground (arith, h, l c (ground (arith, e))))
  | inr e ↦ e
]

pub Avoids-starts :
    (n : ℕ) (r : List Piece) (s : List Char) → Avoids n r → matches r s ≡ true → starts n s ≡ false
unfolding matches starts Avoids
Avoids-starts n [] s a h = elim a [ ]
Avoids-starts n (maybe p ∷ r) s a h = elim a [ ]
Avoids-starts n (one p ∷ r) [] a h = refl
Avoids-starts n (one p ∷ r) (c ∷ s) a h = Lacks-false n p c a (both (p c) (matches r s) h).0
Avoids-starts n (many p ∷ r) [] a h = refl
Avoids-starts n (many p ∷ r) (c ∷ s) a h =
    Lacks-false n p c a (both (p c) (matches r s || matches (many p ∷ r) s) h).0

-- A text that matches such a pattern has no two dots in a row.
pub Spaced-has_dots :
    (r : List Piece) (s : List Char) → Spaced r → matches r s ≡ true → has_dots s ≡ false
unfolding matches has_dots Spaced
Spaced-has_dots [] [] a h = refl
Spaced-has_dots [] (c ∷ s) a h = absurd (ground (arith, h))
Spaced-has_dots (one p ∷ r) [] a h = refl
Spaced-has_dots (one p ∷ r) (c ∷ s) a h =
    let e = both (p c) (matches r s) h in
    elim a.0 [
      | inl l ↦ rw (Lacks-false 46 p c l e.0) (Spaced-has_dots r s a.1 e.1)
      | inr v ↦
          rw (Avoids-starts 46 r s v e.1, Spaced-has_dots r s a.1 e.1) (and_false (code c == 46))
    ]
Spaced-has_dots (maybe p ∷ r) [] a h = refl
Spaced-has_dots (maybe p ∷ r) (c ∷ s) a h =
    elim (either (matches r (c ∷ s)) (p c && matches r s) h) [
      | inl l ↦ Spaced-has_dots r (c ∷ s) a.1 l
      | inr l ↦
          let e = both (p c) (matches r s) l in
          rw (Lacks-false 46 p c a.0 e.0) (Spaced-has_dots r s a.1 e.1)
    ]
Spaced-has_dots (many p ∷ r) [] a h = refl
Spaced-has_dots (many p ∷ r) (c ∷ s) a h =
    let e = both (p c) (matches r s || matches (many p ∷ r) s) h in
    rw (Lacks-false 46 p c a.0 e.0) (elim (either (matches r s) (matches (many p ∷ r) s) e.1) [
      | inl l ↦ Spaced-has_dots r s a.1 l
      | inr l ↦ Spaced-has_dots (many p ∷ r) s a l
    ])

Avoids-append : (n : ℕ) (r q : List Piece) → Avoids n r → Avoids n (r ++ q)
unfolding Avoids
Avoids-append n [] q a = elim a [ ]
Avoids-append n (one p ∷ r) q a = a
Avoids-append n (maybe p ∷ r) q a = elim a [ ]
Avoids-append n (many p ∷ r) q a = a

Spaced-append : (r q : List Piece) → Spaced r → Spaced q → Spaced (r ++ q)
unfolding Spaced
Spaced-append [] q h k = k
Spaced-append (one p ∷ r) q (inl l, h) k = (inl l, Spaced-append r q h k)
Spaced-append (one p ∷ r) q (inr a, h) k = (inr (Avoids-append 46 r q a), Spaced-append r q h k)
Spaced-append (maybe p ∷ r) q h k = (h.0, Spaced-append r q h.1 k)
Spaced-append (many p ∷ r) q h k = (h.0, Spaced-append r q h.1 k)

pub Spaced-times : (n : ℕ) (p : Char → Bool) → Lacks 46 p → Spaced (times n p)
unfolding Spaced times
Spaced-times zero p l = tt
Spaced-times (suc n) p l = (inl l, Spaced-times n p l)

-- A text in a pattern that has no dot of its own.
pub Spaced-literally :
    (s : String) → all (λ d. not (46 == code d)) (characters s) ≡ true → Spaced (literally s)
unfolding Spaced characters
Spaced-literally empty e = tt
Spaced-literally (d ∷ˢ s) e =
    let u = both (not (46 == code d)) (all (λ d. not (46 == code d)) (characters s)) e in
    (inl (λ c k. ground (arith, k, u.0)), Spaced-literally s u.1)

pub record IsSpaced (r : List Piece) : Type 0 where
  pub spaced : Spaced r

pub joined : {r q : List Piece} → IsSpaced r → IsSpaced q → IsSpaced (r ++ q)
joined {r} {q} h k = record { spaced = Spaced-append r q h.spaced k.spaced }
