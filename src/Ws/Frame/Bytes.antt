-- ===== src/Ws/Frame/Bytes.antt =====
-- The bit fields of the two header bytes, by tables over a byte.
use chat_room.Common.{ℕ, ◌+◌, ◌*◌, ◌/◌, ◌%◌, ◌^◌, ◌<◌, ◌≡◌, refl, bit_and, bit_or}
use chat_room.Common.Bits.{agree_below, on_bytes}

-- FIN and MASK: (b >> 7) & 1
pub flag_lem : (x : ℕ) → x < 256 → bit_and (x / 2 ^ 7) 1 ≡ x / 128
unfolding agree_below
flag_lem = on_bytes (λ x. bit_and (x / 2 ^ 7) 1) (λ x. x / 128) refl

-- b & 0x0F
pub opcode_lem : (x : ℕ) → x < 256 → bit_and x 0x0f ≡ x % 16
unfolding agree_below
opcode_lem = on_bytes (λ x. bit_and x 0x0f) (λ x. x % 16) refl

-- (b & 0x70) | 0x8F
pub rsv_lem : (x : ℕ) → x < 256 → bit_or (bit_and x 0x70) 0x8f ≡ x / 16 % 8 * 16 + 0x8f
unfolding agree_below
rsv_lem = on_bytes (λ x. bit_or (bit_and x 0x70) 0x8f) (λ x. x / 16 % 8 * 16 + 0x8f) refl

-- b & 0x7F
pub short_length_lem : (x : ℕ) → x < 256 → bit_and x 0x7f ≡ x % 128
unfolding agree_below
short_length_lem = on_bytes (λ x. bit_and x 0x7f) (λ x. x % 128) refl

-- 0x80 | (opcode & 0x0F)
pub first_byte_lem : (x : ℕ) → x < 256 → bit_or 0x80 (bit_and x 0x0f) ≡ 128 + x % 16
unfolding agree_below
first_byte_lem = on_bytes (λ x. bit_or 0x80 (bit_and x 0x0f)) (λ x. 128 + x % 16) refl
