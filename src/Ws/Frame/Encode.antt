-- ===== src/Ws/Frame/Encode.antt =====
-- encodeFrame against a client that reads frames as RFC 6455, 5.2 says.
use chat_room.Common.{
  ℕ, ◌+◌, ◌-◌, ◌*◌, ◌/◌, ◌%◌, ◌^◌, ◌<◌, ◌≡◌, ◌∙◌, bit_and, false, inl, inr, Option, none, some,
  List, [], ◌∷◌, ◌++◌, arith, length, length-append, take, drop, ltb, ◌==◌, Bool-cases,
  if◌then◌else◌, take-append, take-all, drop-append, drop-all,
}
use chat_room.Common.Bits.{bit_and_low_eight}
use chat_room.Ws.Frame.{encode_frame}
use chat_room.Ws.Frame.Bytes.{first_byte_lem}

-- The client: an unmasked frame with FIN and no RSV bits gives its opcode, its payload and the
-- bytes behind it.
abbrev take_payload : ℕ → ℕ → List ℕ → Option (ℕ × List ℕ × List ℕ)
take_payload op n bytes =
    if ltb (length bytes) n then none else some (op, take n bytes, drop n bytes)

abbrev client_two : ℕ → List ℕ → Option (ℕ × List ℕ × List ℕ)
client_two op (c0 ∷ c1 ∷ r) = take_payload op (c0 * 256 + c1) r
client_two op _ = none

abbrev client_eight : ℕ → List ℕ → Option (ℕ × List ℕ × List ℕ)
client_eight op (c0 ∷ c1 ∷ c2 ∷ c3 ∷ c4 ∷ c5 ∷ c6 ∷ c7 ∷ r) =
    take_payload op
      (c0 * 2 ^ 56
        + c1 * 2 ^ 48
        + c2 * 2 ^ 40
        + c3 * 2 ^ 32
        + c4 * 2 ^ 24
        + c5 * 2 ^ 16
        + c6 * 2 ^ 8
        + c7)
      r
client_eight op _ = none

abbrev client_payload : ℕ → ℕ → List ℕ → Option (ℕ × List ℕ × List ℕ)
client_payload op n bytes =
    if ltb n 126
    then take_payload op n bytes
    else if n == 126
    then client_two op bytes
    else if n == 127
    then client_eight op bytes
    else none

abbrev pub client_read : List ℕ → Option (ℕ × List ℕ × List ℕ)
client_read (b0 ∷ b1 ∷ r) =
    if ltb b0 128 then none else if ltb 143 b0 then none else client_payload (b0 - 128) b1 r
client_read _ = none

take_payload_lem :
    (op : ℕ) (payload rest : List ℕ)
    → take_payload op (length payload) (payload ++ rest) ≡ some (op, payload, rest)
take_payload_lem op payload rest = rw (
  let e : ltb (length (payload ++ rest)) (length payload) ≡ false =
        ground (arith, length-append payload rest) in
      e,
  take-append (length payload) payload rest (omega arith),
  drop-append (length payload) payload rest (omega arith),
  take-all (length payload) payload (omega arith),
  drop-all (length payload) payload (omega arith),
)

client_head :
    (op b1 : ℕ) (r : List ℕ) → op < 16 → client_read ((128 + op) ∷ b1 ∷ r) ≡ client_payload op b1 r
client_head op b1 r h = rw (
  let e : ltb (128 + op) 128 ≡ false = ground arith in e,
  let e : ltb 143 (128 + op) ≡ false = ground arith in e,
  let e : 128 + op - 128 ≡ op = omega arith in e,
)

low_byte : (n : ℕ) → bit_and n 0xff % 2 ^ 8 ≡ n % 256
low_byte n = omega (arith, bit_and_low_eight n)

two_bytes : (n : ℕ) → n < 65536 → n / 2 ^ 8 % 2 ^ 8 * 256 + bit_and n 0xff % 2 ^ 8 ≡ n
two_bytes n h = omega (arith, low_byte n)

eight_bytes :
    (n : ℕ)
    → n < 2 ^ 64
    → bit_and (n / 2 ^ 56) 0xff % 2 ^ 8 * 2 ^ 56
        + bit_and (n / 2 ^ 48) 0xff % 2 ^ 8 * 2 ^ 48
        + bit_and (n / 2 ^ 40) 0xff % 2 ^ 8 * 2 ^ 40
        + bit_and (n / 2 ^ 32) 0xff % 2 ^ 8 * 2 ^ 32
        + bit_and (n / 2 ^ 24) 0xff % 2 ^ 8 * 2 ^ 24
        + bit_and (n / 2 ^ 16) 0xff % 2 ^ 8 * 2 ^ 16
        + bit_and (n / 2 ^ 8) 0xff % 2 ^ 8 * 2 ^ 8
        + bit_and n 0xff % 2 ^ 8
      ≡ n
eight_bytes n h = omega (
  arith,
  low_byte n,
  low_byte (n / 2 ^ 8),
  low_byte (n / 2 ^ 16),
  low_byte (n / 2 ^ 24),
  low_byte (n / 2 ^ 32),
  low_byte (n / 2 ^ 40),
  low_byte (n / 2 ^ 48),
  low_byte (n / 2 ^ 56),
)

abbrev field_eight : ℕ → List ℕ
field_eight n =
    bit_and (n / 2 ^ 56) 0xff % 2 ^ 8
    ∷ bit_and (n / 2 ^ 48) 0xff % 2 ^ 8
    ∷ bit_and (n / 2 ^ 40) 0xff % 2 ^ 8
    ∷ bit_and (n / 2 ^ 32) 0xff % 2 ^ 8
    ∷ bit_and (n / 2 ^ 24) 0xff % 2 ^ 8
    ∷ bit_and (n / 2 ^ 16) 0xff % 2 ^ 8
    ∷ bit_and (n / 2 ^ 8) 0xff % 2 ^ 8
    ∷ bit_and n 0xff % 2 ^ 8
    ∷ []

-- A client that follows the RFC reads from the bytes of encodeFrame the opcode (its four low bits)
-- and the payload, whatever follows, for every payload of less than 2^64 bytes.
pub client_read-encode_frame :
    (opcode : ℕ) (payload rest : List ℕ)
    → opcode < 256
    → length payload < 2 ^ 64
    → client_read (encode_frame opcode payload ++ rest) ≡ some (opcode % 16, payload, rest)
unfolding encode_frame
client_read-encode_frame opcode payload rest ho hp =
    rw (first_byte_lem opcode ho) (elim (Bool-cases (ltb (length payload) 126)) [
      | inl short ↦ rw short (
          client_head (opcode % 16) (length payload % 2 ^ 8) (payload ++ rest) (omega arith)
          ∙ rw (let e : length payload % 256 ≡ length payload = ground arith in e, short)
              (take_payload_lem (opcode % 16) payload rest))
      | inr more ↦ elim (Bool-cases (ltb (length payload) 65536)) [
        | inl medium ↦
            rw (more, medium)
              (client_head (opcode % 16) 126
                  (length payload / 2 ^ 8 % 2 ^ 8
                    ∷ bit_and (length payload) 0xff % 2 ^ 8
                    ∷ (payload ++ rest))
                  (omega arith)
                ∙ rw (two_bytes (length payload) (ground arith))
                    (take_payload_lem (opcode % 16) payload rest))
        | inr long ↦
            rw (more, long)
              (client_head (opcode % 16) 127 (field_eight (length payload) ++ (payload ++ rest))
                  (omega arith)
                ∙ rw (eight_bytes (length payload) hp)
                    (take_payload_lem (opcode % 16) payload rest))
      ]
    ])
