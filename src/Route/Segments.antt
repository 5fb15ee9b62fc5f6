-- ===== src/Route/Segments.antt =====
-- The dot-separated segments of a text, as the loops of src/server/route.hpp take them off.
use mq_work.Common.{
  ℕ, ◌<◌, ◌≡◌, Bool, false, some, List, [], ◌∷◌, arith, eqb, Bool-cases, inl, inr, if◌then◌else◌,
  length,
}
use mq_work.Common.Text.{Text}
use mq_work.Route.Split.{next_segment, behind_dot}

-- Puts a byte in front of the first segment.
abbrev pub cons_head : ℕ → List Text → List Text
cons_head c [] = (c ∷ []) ∷ []
cons_head c (s ∷ ss) = (c ∷ s) ∷ ss

-- A last segment that is empty does not count: "a." has the one segment "a".
unfoldable pub segments : Text → List Text
segments [] = []
segments (c ∷ s) = let rest = segments s in if eqb c b'.' then [] ∷ rest else cons_head c rest

unfoldable pub ends_with_dot : Text → Bool
ends_with_dot [] = false
ends_with_dot (c ∷ []) = eqb c b'.'
ends_with_dot (c ∷ d ∷ s) = ends_with_dot (d ∷ s)

pub segments-next :
    (c : ℕ) (s : Text)
    → segments (c ∷ s) ≡ (next_segment (c ∷ s)).0 ∷ segments (behind_dot (next_segment (c ∷ s)).1)
unfolding segments next_segment
segments-next c [] = ground arith
segments-next c (d ∷ s) = ground (arith, segments-next d s)

-- The rest behind a dot is shorter.
pub length-behind_dot :
    (c : ℕ) (s : Text) → length (behind_dot (next_segment (c ∷ s)).1) < length (c ∷ s)
unfolding next_segment
length-behind_dot c [] = ground arith
length-behind_dot c (d ∷ s) = ground (arith, length-behind_dot d s)

-- In a text without a dot at its end, what stands behind a dot is not empty, nor has it such a dot.
pub dot-behind_dot :
    (c : ℕ) (s : Text) (r : Text)
    → ends_with_dot (c ∷ s) ≡ false
    → (next_segment (c ∷ s)).1 ≡ some r
    → (d : ℕ) × (t : Text) × (r ≡ d ∷ t) × (ends_with_dot (d ∷ t) ≡ false)
unfolding next_segment ends_with_dot
dot-behind_dot c [] r h e = ground arith
dot-behind_dot c (d ∷ s) r h e = elim (Bool-cases (eqb c b'.')) [
  | inl dot ↦ (d, s, ground arith, h)
  | inr other ↦ dot-behind_dot d s r h (ground arith)
]
