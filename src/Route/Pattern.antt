-- ===== src/Route/Pattern.antt =====
-- What the topic patterns of src/server/route.hpp mean, stated on the segments of key and pattern.
use mq_work.Common.{
  ◌≡◌, refl, ◌↔◌, ◌⊎◌, inl, inr, Bool, true, false, ◌&&◌, ◌||◌, List, [], ◌∷◌, arith, Bool-cases,
  is_empty,
}
use mq_work.Common.Text.{Text, ◌==◌, codes, eq_iff}

abbrev pub hash : Text
hash = codes "#"

abbrev pub star : Text
star = codes "*"

-- A pattern segment that stands for the key segment: `#`, `*` or the same text.
abbrev pub Covers : Text → Text → Type 0
Covers p k = (p ≡ hash) ⊎ ((p ≡ star) ⊎ (p ≡ k))

pub data Matches : List Text → List Text → Type 0 where
  both_end : Matches [] []
  hash_left : {p : Text} {ps : List Text} → p ≡ hash → Matches [] ps → Matches [] (p ∷ ps)
  hash_last : {k p : Text} {ks : List Text} → p ≡ hash → Matches (k ∷ ks) (p ∷ [])
  one : {k p : Text} {ks ps : List Text} → Covers p k → Matches ks ps → Matches (k ∷ ks) (p ∷ ps)

-- The relation decided.
unfoldable pub matches : List Text → List Text → Bool
matches [] [] = true
matches [] (p ∷ ps) = (p == hash) && matches [] ps
matches (k ∷ ks) [] = false
matches (k ∷ ks) (p ∷ ps) =
    ((p == hash) && is_empty ps) || (((p == hash) || ((p == star) || (p == k))) && matches ks ps)

pub matches_sound : (ks ps : List Text) → matches ks ps ≡ true → Matches ks ps
unfolding matches
matches_sound [] [] h = both_end
matches_sound [] (p ∷ ps) h =
    hash_left (ground (arith, eq_iff p hash)) (matches_sound [] ps (ground arith))
matches_sound (k ∷ ks) [] h = ground arith
matches_sound (k ∷ ks) (p ∷ []) h = elim (Bool-cases (p == hash)) [
  | inl e ↦ hash_last ((eq_iff p hash).0 e)
  | inr e ↦ one (ground (arith, eq_iff p star, eq_iff p k)) (matches_sound ks [] (ground arith))
]
matches_sound (k ∷ ks) (p ∷ q ∷ ps) h =
    one (ground (arith, eq_iff p hash, eq_iff p star, eq_iff p k))
      (matches_sound ks (q ∷ ps) (ground arith))

pub matches_complete : {ks ps : List Text} → Matches ks ps → matches ks ps ≡ true
unfolding matches
matches_complete both_end = refl
matches_complete (hash_left {p} e m) = ground (arith, eq_iff p hash, matches_complete m)
matches_complete (hash_last {p = p} e) = ground (arith, eq_iff p hash)
matches_complete (one {k} {p} c m) =
    ground (arith, eq_iff p hash, eq_iff p star, eq_iff p k, matches_complete m)

pub matches_iff : (ks ps : List Text) → (matches ks ps ≡ true) ↔ Matches ks ps
matches_iff ks ps = (matches_sound ks ps, λ m. matches_complete m)
