-- ===== src/Consumers/RoundRobin.antt =====
-- `rr_choose` of src/server/consumer.cpp: who is chosen over many calls.
use mathlib.Core.List.{map-append}
use native.Mathlib.Nat.{native_laws}
use mq_work.Common.{
  ℕ, zero, suc, ◌+◌, ◌-◌, ◌%◌, ◌^◌, ◌<◌, ◌≤◌, ◌≡◌, refl, ap, ◌∙◌, Option, some, List, [], ◌∷◌, ◌++◌,
  map, arith, length, get_elem?, take, drop, take_past, length-drop,
}
use mq_work.Consumers.{Consumer, QueueConsumer, rr_choose}

mod_small : (a b : ℕ) → a < b → a % b ≡ a
mod_small a b h = native_laws.mod-eq_of_lt h

mod_same : (a : ℕ) → a % a ≡ 0
mod_same a = native_laws.mod_self a

module _ {K : Type 0} where
  -- As many calls in a row, with their results.
  unfoldable pub rr_rounds : ℕ → QueueConsumer K → QueueConsumer K × List (Option (Consumer K))
  rr_rounds zero qc = (qc, [])
  rr_rounds (suc n) qc =
      let (qc', c) = rr_choose qc in let (qc'', cs) = rr_rounds n qc' in (qc'', c ∷ cs)

  rr_rounds-append :
      (a b : ℕ) (qc : QueueConsumer K)
      → rr_rounds (a + b) qc
        ≡ (let (q1, xs) = rr_rounds a qc in let (q2, ys) = rr_rounds b q1 in (q2, xs ++ ys))
  unfolding rr_rounds
  rr_rounds-append zero b qc = let e : 0 + b ≡ b = omega arith in rw e
  rr_rounds-append (suc a) b qc =
      let e : suc a + b ≡ suc (a + b) = omega arith in rw (e, rr_rounds-append a b (rr_choose qc).0)

  get_elem?-drop :
      (cs : List (Consumer K)) (i : ℕ)
      → i < length cs
      → (c : Consumer K) × (get_elem? cs i ≡ some c) × (drop i cs ≡ c ∷ drop (suc i) cs)
  get_elem?-drop [] i h = absurd (omega arith)
  get_elem?-drop (c ∷ cs) zero h = (c, refl, refl)
  get_elem?-drop (c ∷ cs) (suc i) h = get_elem?-drop cs i (omega arith)

  -- One call, with the index in range.
  choose_lem :
      (i : ℕ) (qc : QueueConsumer K) (c : Consumer K)
      → i < length qc.consumers
      → length qc.consumers < 2 ^ 64
      → get_elem? qc.consumers i ≡ some c
      → qc.rr_index ≡ i
      → rr_choose qc ≡ (record qc { rr_index = (i + 1) % length qc.consumers }, some c)
  unfolding rr_choose
  choose_lem i qc c h l g e =
      let small : (i + 1) % 2 ^ 64 ≡ i + 1 = omega arith in
      ground (arith, small, mod_small i (length qc.consumers) h)

  -- Calls that do not pass the end of the list take the consumers in order.
  rr_rounds_part :
      (n i : ℕ) (qc : QueueConsumer K)
      → qc.rr_index ≡ i
      → i < length qc.consumers
      → i + n ≤ length qc.consumers
      → length qc.consumers < 2 ^ 64
      → rr_rounds n qc ≡ (
        record qc { rr_index = (i + n) % length qc.consumers },
        map some (take n (drop i qc.consumers)),
      )
  unfolding rr_rounds
  rr_rounds_part zero i qc e h k l =
      let z : i + 0 ≡ i = omega arith in rw (z, mod_small i (length qc.consumers) h, e) refl
  rr_rounds_part (suc zero) i qc e h k l =
      let (c, g, d) = get_elem?-drop qc.consumers i h in rw (choose_lem i qc c h l g e, d) refl
  rr_rounds_part (suc (suc n)) i qc e h k l =
      let (c, g, d) = get_elem?-drop qc.consumers i h in
      let later = record qc { rr_index = (i + 1) % length qc.consumers } in
      let at_next : i + suc (suc n) ≡ (i + 1) + suc n = omega arith in
      let s : suc i ≡ i + 1 = omega arith in
      let d' = d ∙ ap (λ (k : ℕ). c ∷ drop k qc.consumers) s in
      rw (choose_lem i qc c h l g e, d', at_next)
        (ap (λ (r : QueueConsumer K × List (Option (Consumer K))). (r.0, some c ∷ r.1))
          (rr_rounds_part (suc n) (i + 1) later
            (mod_small (i + 1) (length qc.consumers) (omega arith)) (omega arith) (omega arith) l))

  -- As many calls in a row as there are consumers hand out each of them once, in order from the
  -- index on, and leave the index where it was. The index is in range, and there are less than 2^64
  -- consumers.
  pub rr_rounds_full :
      (qc : QueueConsumer K)
      → qc.rr_index < length qc.consumers
      → length qc.consumers < 2 ^ 64
      → rr_rounds (length qc.consumers) qc
        ≡ (qc, map some (drop qc.rr_index qc.consumers ++ take qc.rr_index qc.consumers))
  rr_rounds_full qc h l =
      let i = qc.rr_index in
      let n = length qc.consumers in
      let e : n ≡ (n - i) + i = omega arith in
      let zero_add : 0 + i ≡ i = omega arith in
      let whole : i + (n - i) ≡ n = omega arith in
      let all =
        take_past (n - i) (drop i qc.consumers) (omega (arith, length-drop i qc.consumers)) in
      let first : rr_rounds (n - i) qc
          ≡ (record qc { rr_index = 0 }, map some (drop i qc.consumers)) =
        rr_rounds_part (n - i) i qc refl h (omega arith) l ∙ rw (whole, mod_same n, all) refl in
      let second : rr_rounds i (record qc { rr_index = 0 }) ≡ (qc, map some (take i qc.consumers)) =
        rr_rounds_part i 0 (record qc { rr_index = 0 }) refl (omega arith) (omega arith) l
        ∙ rw (zero_add, mod_small i n h) refl in
      ap (λ (k : ℕ). rr_rounds k qc) e
      ∙ (rr_rounds-append (n - i) i qc
          ∙ rw (first, second, map-append some (drop i qc.consumers) (take i qc.consumers)) refl)
