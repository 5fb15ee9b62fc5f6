-- ===== src/Common/Text.antt =====
-- `std::string`: a sequence of bytes. Literals are written through `codes`.
use Prim.Native.Char.{code}
use Prim.Native.Nat.{ℕ}
use Prim.Native.String.{String}
use mathlib.Core.Path.{◌≡◌, refl}
use mathlib.Core.Logic.{◌↔◌}
use mathlib.Core.Bool.{Bool, true, false, not, ◌&&◌, ◌||◌}
use mathlib.Core.List.{List, [], ◌∷◌, ◌++◌}
use mathlib.Core.Option.{Option, none, some}
use native.Mathlib.Omega.{arith}
use mq_work.Common.Tests.{eqb, if◌then◌else◌}

abbrev pub Text : Type 0
Text = List ℕ

-- The bytes of an ASCII literal.
abbrev pub codes : String → Text
codes String.[] = []
codes (String.◌∷◌ c s) = code c ∷ codes s

infix 50 ◌==◌
unfoldable pub ◌==◌ : Text → Text → Bool
[] == [] = true
[] == (y ∷ ys) = false
(x ∷ xs) == [] = false
(x ∷ xs) == (y ∷ ys) = eqb x y && (xs == ys)

pub eq_refl : (s : Text) → (s == s) ≡ true
unfolding ◌==◌
eq_refl [] = refl
eq_refl (x ∷ xs) = ground (arith, eq_refl xs)

pub eq_of_== : (s t : Text) → (s == t) ≡ true → s ≡ t
unfolding ◌==◌
eq_of_== [] [] h = refl
eq_of_== [] (y ∷ ys) h = ground arith
eq_of_== (x ∷ xs) [] h = ground arith
eq_of_== (x ∷ xs) (y ∷ ys) h = ground (arith, eq_of_== xs ys)

pub ==_of_eq : (s t : Text) → s ≡ t → (s == t) ≡ true
==_of_eq s t h = ground (arith, eq_refl s)

pub eq_iff : (s t : Text) → ((s == t) ≡ true) ↔ (s ≡ t)
eq_iff s t = (eq_of_== s t, ==_of_eq s t)

-- `find(c, pos)` and `substr`, a position being the suffix that starts there: the part before the
-- first `c`, and the text behind it. `none` is `std::string::npos`.
unfoldable pub split_at : ℕ → Text → Text × Option Text
split_at c [] = ([], none)
split_at c (x ∷ s) =
    let (part, rest) = split_at c s in if eqb x c then ([], some s) else (x ∷ part, rest)

unfoldable pub lacks : ℕ → Text → Bool
lacks c [] = true
lacks c (x ∷ s) = not (eqb x c) && lacks c s

pub split_at-append :
    (c : ℕ) (s t : Text) → lacks c s ≡ true → split_at c (s ++ c ∷ t) ≡ (s, some t)
unfolding split_at lacks
split_at-append c [] t h = ground arith
split_at-append c (x ∷ s) t h = ground (arith, split_at-append c s t)

pub split_at-lacks : (c : ℕ) (s : Text) → lacks c s ≡ true → split_at c s ≡ (s, none)
unfolding split_at lacks
split_at-lacks c [] h = refl
split_at-lacks c (x ∷ s) h = ground (arith, split_at-lacks c s)

pub lacks-append :
    (c : ℕ) (s t : Text) → lacks c s ≡ true → lacks c t ≡ true → lacks c (s ++ t) ≡ true
unfolding lacks
lacks-append c [] t h k = k
lacks-append c (x ∷ s) t h k = ground (arith, lacks-append c s t)

-- Is the text in the list?
unfoldable pub listed : Text → List Text → Bool
listed s [] = false
listed s (t ∷ ts) = let rest = listed s ts in if t == s then true else rest

pub listed-append :
    (s : Text) (xs ys : List Text) → listed s (xs ++ ys) ≡ (listed s xs || listed s ys)
unfolding listed
listed-append s [] ys = refl
listed-append s (x ∷ xs) ys = ground (arith, listed-append s xs ys)
