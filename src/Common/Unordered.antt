-- ===== src/Common/Unordered.antt =====
-- `std::unordered_map` up to the order of its entries, which the standard leaves open.
use mathlib.Core.Quot
use mathlib.Core.Quot.{Quot, Quot-set}
use mathlib.Core.Path.{◌≡◌, ap}
use mathlib.Core.Option.{Option}
use native.Mathlib.Omega.{arith}
use mq_work.Common.Text.{Text, eq_iff}
use mq_work.Common.Dict.{Dict, find, put, find-put}

-- The same value under every key.
abbrev pub SameEntries {ℓ} : {V : Type ℓ} → Dict V → Dict V → Type ℓ
SameEntries m m' = (k : Text) → find k m ≡ find k m'

abbrev pub Unordered {ℓ} : Type ℓ → Type ℓ
Unordered V = Quot (SameEntries {V = V})

module _ {ℓ} {V : Type ℓ} where
  abbrev pub unordered : Dict V → Unordered V
  unordered m = Quot.mk m

  -- What the map says does not depend on the order.
  pub lookup : IsSet (Option V) → Text → Unordered V → Option V
  lookup s k = Quot.lift s (find k) (λ m m' h. h k)

  pub find-unordered :
      IsSet (Option V)
      → (k : Text) (m m' : Dict V) → unordered m ≡ unordered m'
      → find k m ≡ find k m'
  unfolding lookup
  find-unordered s k m m' e = ap (lookup s k) e

  pub insert : Text → V → Unordered V → Unordered V
  insert k v =
      Quot.lift Quot-set (λ m. unordered (put k v m))
        (λ m m' h. Quot.sound (λ j. ground (arith, find-put k j v m, find-put k j v m', h j)))

  -- The order of two insertions under different keys is forgotten.
  pub insert_comm :
      (j k : Text) (v w : V)
      → ¬ (j ≡ k)
      → (m : Unordered V) → insert j v (insert k w m) ≡ insert k w (insert j v m)
  unfolding insert
  insert_comm j k v w n =
      Quot.ind (λ m. Quot-set _ _)
        (λ m. Quot.sound (λ i. ground (
          arith,
          find-put j i v (put k w m),
          find-put k i w m,
          find-put k i w (put j v m),
          find-put j i v m,
          eq_iff j i,
          eq_iff k i,
          n,
        )))
