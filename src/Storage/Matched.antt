-- ===== src/Storage/Matched.antt =====
-- Texts that match a pattern of characters, and how they are joined: for the patterns of keys in
-- backend/app/services/storage/base.py.
use Prim.Native.Char.{Char}
use Prim.Native.String.append.{nil, cons}
use Prim.Native.String.{◌++◌ as append, [] as empty, ◌∷◌ as ◌∷ˢ◌}
use doc_mind_ai.Base.{
  ◌≡◌, refl, ap, ◌∙◌, String, Bool, true, false, ◌&&◌, ◌||◌, ◌⊎◌, List, [], ◌∷◌, ◌++◌, inl, inr,
  arith,
}
use doc_mind_ai.Storage.Validation.{Piece, one, maybe, many, matches, characters, text, is_match}

characters-append : (s t : String) → characters (append s t) ≡ characters s ++ characters t
unfolding characters
characters-append empty t = ap characters (nil t)
characters-append (c ∷ˢ s) t = ap characters (cons c s t) ∙ ap (◌∷◌ c) (characters-append s t)

pub characters-text : (s : List Char) → characters (text s) ≡ s
unfolding characters
characters-text [] = refl
characters-text (c ∷ s) = ap (◌∷◌ c) (characters-text s)

pub both : (x y : Bool) → x && y ≡ true → (x ≡ true) × (y ≡ true)
both true y h = (refl, h)
both false y h = absurd (ground (arith, h))

pub either : (x y : Bool) → x || y ≡ true → (x ≡ true) ⊎ (y ≡ true)
either true y h = inl refl
either false y h = inr h

pub or_right : (x y : Bool) → y ≡ true → x || y ≡ true
or_right true y h = refl
or_right false y h = h

-- An optional character may be left out.
matches-maybe :
    (p : Char → Bool) (r : List Piece) (s : List Char)
    → matches r s ≡ true
    → matches (maybe p ∷ r) s ≡ true
unfolding matches
matches-maybe p r [] h = h
matches-maybe p r (c ∷ s) h = rw h refl

-- A text that matches a pattern, followed by one that matches another, matches the two in a row.
matches-append :
    (p q : List Piece) (a b : List Char)
    → matches p a ≡ true
    → matches q b ≡ true
    → matches (p ++ q) (a ++ b) ≡ true
unfolding matches
matches-append [] q [] b h k = k
matches-append [] q (c ∷ a) b h k = absurd (ground (arith, h))
matches-append (one p ∷ r) q [] b h k = absurd (ground (arith, h))
matches-append (one p ∷ r) q (c ∷ a) b h k =
    rw ((both (p c) (matches r a) h).0, matches-append r q a b (both (p c) (matches r a) h).1 k)
      refl
matches-append (maybe p ∷ r) q [] b h k = matches-maybe p (r ++ q) b (matches-append r q [] b h k)
matches-append (maybe p ∷ r) q (c ∷ a) b h k =
    elim (either (matches r (c ∷ a)) (p c && matches r a) h) [
      | inl l ↦ matches-maybe p (r ++ q) (c ∷ a ++ b) (matches-append r q (c ∷ a) b l k)
      | inr e ↦
          let u = both (p c) (matches r a) e in
          or_right (matches (r ++ q) (c ∷ a ++ b)) (p c && matches (r ++ q) (a ++ b))
            (rw (u.0, matches-append r q a b u.1 k) refl)
    ]
matches-append (many p ∷ r) q [] b h k = absurd (ground (arith, h))
matches-append (many p ∷ r) q (c ∷ a) b h k =
    let e = both (p c) (matches r a || matches (many p ∷ r) a) h in
    elim (either (matches r a) (matches (many p ∷ r) a) e.1) [
      | inl l ↦ rw (e.0, matches-append r q a b l k) refl
      | inr l ↦ rw (e.0) (
          or_right (matches (r ++ q) (a ++ b)) (matches (many p ∷ r ++ q) (a ++ b))
            (matches-append (many p ∷ r) q a b l k))
    ]

-- The same of the texts as the code joins them.
pub record IsMatched (p : List Piece) (s : String) : Type 0 where
  pub matched : is_match p s ≡ true

pub joined :
    {p q : List Piece} {s t : String}
    → IsMatched p s
    → IsMatched q t
    → IsMatched (p ++ q) (append s t)
joined {p} {q} {s} {t} h k = record {
  matched =
      rw (characters-append s t)
        (matches-append p q (characters s) (characters t) h.matched k.matched);
}
