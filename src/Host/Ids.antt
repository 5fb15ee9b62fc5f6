-- ===== src/Host/Ids.antt =====
-- `generate_id` of src/server/virtual_host.cpp: the ids that it makes up.
use mathlib.Core.Bool.{true}
use mq_work.Common.{
  ℕ, zero, suc, ◌+◌, ◌-◌, ◌*◌, ◌/◌, ◌%◌, ◌^◌, ◌≤◌, ◌<◌, ◌≡◌, refl, ap, ◌∙◌, sym, false, List, [],
  ◌∷◌, ◌++◌, arith, ltb, Bool-cases, inl, inr,
}
use mq_work.Common.Text.{Text, ◌==◌, eq_iff, listed}
use mq_work.Platform.{Platform}
use mq_work.Host.{Host, digits, to_string, generate_id}

-- The number that a text of digits stands for, behind the digits that were read.
unfoldable pub value_from : ℕ → Text → ℕ
value_from acc [] = acc
value_from acc (c ∷ s) = value_from (acc * 10 + (c - b'0')) s

value_from-append :
    (acc : ℕ) (s t : Text) → value_from acc (s ++ t) ≡ value_from (value_from acc s) t
unfolding value_from
value_from-append acc [] t = refl
value_from-append acc (c ∷ s) t = value_from-append (acc * 10 + (c - b'0')) s t

unfoldable tens : ℕ → ℕ
tens zero = 1
tens (suc n) = 10 * tens n

-- Printing loses nothing, if there is room for the digits.
value_from-digits : (fuel n : ℕ) → n < tens fuel → value_from 0 (digits fuel n) ≡ n
unfolding digits tens value_from
value_from-digits zero n h = omega arith
value_from-digits (suc fuel) n h = elim (Bool-cases (ltb n 10)) [
  | inl e ↦ rw e (omega arith)
  | inr e ↦
      let ih = value_from-digits fuel (n / 10) (omega arith) in
      let last = value_from-append 0 (digits fuel (n / 10)) ((b'0' + n % 10) ∷ []) in
      rw e (last ∙ rw ih (omega arith))
]

pub value_from-to_string : (n : ℕ) → n < 2 ^ 64 → value_from 0 (to_string n) ≡ n
unfolding to_string tens
value_from-to_string n h = value_from-digits 20 n (omega arith)

to_string_injective : (m n : ℕ) → m < 2 ^ 64 → n < 2 ^ 64 → to_string m ≡ to_string n → m ≡ n
to_string_injective m n h k e =
    sym (value_from-to_string m h) ∙ (ap (value_from 0) e ∙ value_from-to_string n k)

-- No text stands in the list twice.
abbrev pub AreDistinct : List Text → Type 0
AreDistinct [] = Unit
AreDistinct (s ∷ ss) = (listed s ss ≡ false) × AreDistinct ss

module _ (P : Platform) where
  -- The ids of this many calls in a row.
  unfoldable pub generated : ℕ → Host P → List Text
  generated zero h = []
  generated (suc n) h = let (h', id) = generate_id P h in id ∷ generated n h'

  listed-generated :
      (n : ℕ) (h : Host P) (s : Text)
      → h.seq < 2 ^ 64
      → listed s (generated n h) ≡ true
      → (k : ℕ) × (k < n) × (s ≡ to_string ((h.seq + 1 + k) % 2 ^ 64))
  unfolding generated listed generate_id
  listed-generated zero h s b e = absurd (ground arith)
  listed-generated (suc n) h s b e =
      let id = to_string ((h.seq + 1) % 2 ^ 64) in
      let h' = (generate_id P h).0 in
      elim (Bool-cases (id == s)) [
        | inl here ↦
            let place : (h.seq + 1) % 2 ^ 64 ≡ (h.seq + 1 + 0) % 2 ^ 64 = omega arith in
            (0, omega arith, sym ((eq_iff id s).0 here) ∙ ap to_string place)
        | inr later ↦
            let (k, less, same) =
              listed-generated n h' s (omega arith) (ground (arith, e, later)) in
            let place : (h'.seq + 1 + k) % 2 ^ 64 ≡ (h.seq + 1 + suc k) % 2 ^ 64 = omega arith in
            (suc k, omega arith, same ∙ ap to_string place)
      ]

  -- The ids of up to 2^64 calls in a row are distinct, also where the counter wraps around.
  pub generated-AreDistinct :
      (n : ℕ) (h : Host P) → n ≤ 2 ^ 64 → h.seq < 2 ^ 64 → AreDistinct (generated n h)
  unfolding generated generate_id
  generated-AreDistinct zero h l b = tt
  generated-AreDistinct (suc n) h l b =
      let h' = (generate_id P h).0 in
      let m = (h.seq + 1) % 2 ^ 64 in
      (
        elim (Bool-cases (listed (to_string m) (generated n h'))) [
          | inl again ↦
              let (k, less, same) = listed-generated n h' (to_string m) (omega arith) again in
              let repeat : m ≡ (m + 1 + k) % 2 ^ 64 =
                to_string_injective m _ (omega arith) (omega arith) same in
              absurd (omega arith)
          | inr new ↦ new
        ],
        generated-AreDistinct n h' (omega arith) (omega arith),
      )
