-- ===== src/Storage/Framing.antt =====
-- What src/server/queue_message.hpp takes from protobuf, and the framing of a record in the file: the
-- length as a little-endian `uint32_t`, and the serialized payload.
use mq_work.Common.{
  ℕ, ◌+◌, ◌*◌, ◌/◌, ◌%◌, ◌^◌, ◌<◌, ◌≡◌, refl, Option, some, List, [], ◌∷◌, arith, length,
}
use mq_work.Common.Text.{Text, codes}
use mq_work.Proto.{MessagePayload}

-- `SerializeToString` and `ParseFromString` of `MessagePayload`, which protobuf generates.
pub record Codec : Type 0 where
  pub serialize : MessagePayload → List ℕ
  pub parse : List ℕ → Option MessagePayload

abbrev pub valid_mark : Text
valid_mark = codes "1"

abbrev pub invalid_mark : Text
invalid_mark = codes "0"

-- What protobuf documents: parsing undoes serializing, and the size of a message depends on the
-- length of a text field and not on its bytes.
pub record IsCodec (c : Codec) : Type 0 where
  pub parse-serialize : (p : MessagePayload) → c.parse (c.serialize p) ≡ some p
  pub same_size :
      (p : MessagePayload) (v w : Text)
      → length v ≡ length w
      → length (c.serialize (record p { valid = v }))
        ≡ length (c.serialize (record p { valid = w }))

-- The four bytes of a `uint32_t` in memory.
unfoldable pub u32_bytes : ℕ → List ℕ
u32_bytes n = (n % 256) ∷ (n / 256 % 256) ∷ (n / 65536 % 256) ∷ (n / 16777216 % 256) ∷ []

unfoldable pub u32_of_bytes : List ℕ → ℕ
u32_of_bytes (a ∷ b ∷ c ∷ d ∷ _) = a + (256 * b + (65536 * c + 16777216 * d))
u32_of_bytes _ = 0

pub u32_of_bytes-u32_bytes : (n : ℕ) → n < 2 ^ 32 → u32_of_bytes (u32_bytes n) ≡ n
unfolding u32_of_bytes u32_bytes
u32_of_bytes-u32_bytes n h = omega arith

pub length-u32_bytes : (n : ℕ) → length (u32_bytes n) ≡ 4
unfolding u32_bytes
length-u32_bytes n = refl

-- `static_cast<uint32_t>(data.size())`
abbrev pub size32 : List ℕ → ℕ
size32 bytes = length bytes % 2 ^ 32
