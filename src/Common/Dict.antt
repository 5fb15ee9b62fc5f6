-- ===== src/Common/Dict.antt =====
-- `std::unordered_map` with string keys, as an association list. The order of the list stands
-- for the unspecified order of iteration; a new key is added at the end.
use mathlib.Core.Path.{◌≡◌, refl, sym, ap, ◌∙◌}
use mathlib.Core.Bool.{Bool}
use mathlib.Core.List.{List, [], ◌∷◌, ◌++◌, append-nil, append_assoc}
use mathlib.Core.Option.{Option, none, some}
use native.Mathlib.Omega.{arith}
use mq_work.Common.Tests.{if◌then◌else◌, is_some}
use mq_work.Common.Text.{Text, ◌==◌, eq_iff, eq_refl}

abbrev pub Dict {ℓ} : Type ℓ → Type ℓ
Dict V = List (Text × V)

module _ {ℓ} {V : Type ℓ} where
  -- m.find(k)
  unfoldable pub find : Text → Dict V → Option V
  find k [] = none
  find k ((j, v) ∷ m) = if j == k then some v else find k m

  -- m[k] = v
  unfoldable pub put : Text → V → Dict V → Dict V
  put k v [] = (k, v) ∷ []
  put k v ((j, w) ∷ m) = if j == k then (j, v) ∷ m else (j, w) ∷ put k v m

  -- m.erase(k)
  unfoldable pub erase : Text → Dict V → Dict V
  erase k [] = []
  erase k ((j, w) ∷ m) = let rest = erase k m in if j == k then rest else (j, w) ∷ rest

  -- m.find(k) != m.end()
  abbrev pub contains : Text → Dict V → Bool
  contains k m = is_some (find k m)

  pub find-put :
      (k j : Text) (v : V) (m : Dict V) → find j (put k v m) ≡ (if k == j then some v else find j m)
  unfolding find put
  find-put k j v [] = refl
  find-put k j v ((i, w) ∷ m) = ground (arith, eq_iff k j, eq_iff i k, eq_iff i j, find-put k j v m)

  pub find-erase :
      (k j : Text) (m : Dict V) → find j (erase k m) ≡ (if k == j then none else find j m)
  unfolding find erase
  find-erase k j [] = ground arith
  find-erase k j ((i, w) ∷ m) = ground (arith, find-erase k j m, eq_iff i k, eq_iff i j, eq_iff k j)

module _ {ℓ} {V : Type ℓ} where
  pub find-put_same : (k : Text) (v : V) (m : Dict V) → find k (put k v m) ≡ some v
  find-put_same k v m =
      find-put k k v m ∙ ap (λ (b : Bool). if b then some v else find k m) (eq_refl k)

  pub find-erase_same : (k : Text) (m : Dict V) → find k (erase k m) ≡ none
  find-erase_same k m =
      find-erase k k m ∙ ap (λ (b : Bool). if b then none else find k m) (eq_refl k)

pub ruleset dict_laws = (find-put, find-erase)

module _ {ℓ} {V : Type ℓ} where
  -- No key stands twice, as in every `std::unordered_map`.
  abbrev pub DistinctKeys : Dict V → Type ℓ
  DistinctKeys [] = Unit
  DistinctKeys ((k, v) ∷ m) = (find k m ≡ none) × DistinctKeys m

  pub DistinctKeys-put : (k : Text) (v : V) (m : Dict V) → DistinctKeys m → DistinctKeys (put k v m)
  unfolding put find
  DistinctKeys-put k v [] d = (refl, tt)
  DistinctKeys-put k v ((j, w) ∷ m) d =
      ground (arith, find-put k j v m, eq_iff j k, eq_iff k j, DistinctKeys-put k v m d.1)

  pub DistinctKeys-erase : (k : Text) (m : Dict V) → DistinctKeys m → DistinctKeys (erase k m)
  unfolding erase
  DistinctKeys-erase k [] d = tt
  DistinctKeys-erase k ((j, w) ∷ m) d = ground (arith, find-erase k j m, DistinctKeys-erase k m d.1)

  -- The assignments of a loop over a map, in its order.
  unfoldable pub put_all : Dict V → Dict V → Dict V
  put_all acc [] = acc
  put_all acc ((k, v) ∷ m) = put_all (put k v acc) m

  pub put-new : (k : Text) (v : V) (m : Dict V) → find k m ≡ none → put k v m ≡ m ++ (k, v) ∷ []
  unfolding put find
  put-new k v [] h = refl
  put-new k v ((j, w) ∷ m) h = ground (arith, put-new k v m)

  -- No key of the second map is in the first.
  abbrev Disjoint : Dict V → Dict V → Type ℓ
  Disjoint acc [] = Unit
  Disjoint acc ((k, v) ∷ m) = (find k acc ≡ none) × Disjoint acc m

  Disjoint-put :
      (k : Text) (v : V) (acc m : Dict V)
      → find k m ≡ none
      → Disjoint acc m
      → Disjoint (put k v acc) m
  unfolding find
  Disjoint-put k v acc [] h d = tt
  Disjoint-put k v acc ((j, w) ∷ m) h d =
      ground (arith, find-put k j v acc, eq_iff j k, eq_iff k j, Disjoint-put k v acc m)

  put_all-append : (acc m : Dict V) → Disjoint acc m → DistinctKeys m → put_all acc m ≡ acc ++ m
  unfolding put_all
  put_all-append acc [] d n = sym (append-nil acc)
  put_all-append acc ((k, v) ∷ m) d n =
      put_all-append (put k v acc) m (Disjoint-put k v acc m n.0 d.1) n.1
      ∙ (ap (λ (l : Dict V). l ++ m) (put-new k v acc d.0) ∙ append_assoc acc ((k, v) ∷ []) m)

  Disjoint-nil : (m : Dict V) → Disjoint [] m
  unfolding find
  Disjoint-nil [] = tt
  Disjoint-nil ((k, v) ∷ m) = (refl, Disjoint-nil m)

  pub put_all-nil : (m : Dict V) → DistinctKeys m → put_all [] m ≡ m
  put_all-nil m d = put_all-append [] m (Disjoint-nil m) d

-- Every entry that is found has the property.
abbrev pub All {ℓ ℓ'} : {V : Type ℓ} → (Text → V → Type ℓ') → Dict V → Type (ℓ ⊔ ℓ')
All {V = V} Q m = (k : Text) (v : V) → find k m ≡ some v → Q k v

module _ {ℓ ℓ'} {V : Type ℓ} (Q : Text → V → Type ℓ') where
  pub All-nil : All Q []
  unfolding find
  All-nil k v e = ground arith

  pub All-put : (k : Text) (v : V) (m : Dict V) → Q k v → All Q m → All Q (put k v m)
  All-put k v m q a j w e = ground (arith, find-put k j v m, eq_iff k j, a j w)

  pub All-erase : (k : Text) (m : Dict V) → All Q m → All Q (erase k m)
  All-erase k m a j w e = ground (arith, find-erase k j m, a j w)
