-- ===== src/Ws/Frame.antt =====
-- src/server/ws_frame.{h,cpp}: frames of RFC 6455.
pub mod Bytes
pub mod Unmask
pub mod Decode
pub mod RoundTrip
pub mod Faults
pub mod Encode
pub mod Consumed
use chat_room.Common.{
  ℕ, zero, suc, ◌+◌, ◌-◌, ◌*◌, ◌/◌, ◌%◌, ◌^◌, bit_and, bit_or, bit_xor, Bool, true, false, not,
  Option, none, some, List, [], ◌∷◌, ◌++◌, length, get_elem?, get_or, add64, ltb, ◌==◌,
  if◌then◌else◌,
}
use chat_room.Common.Int.{ℤ, pos, negsuc, to_int32}

-- enum Opcode : uint8_t
abbrev pub continuation : ℕ
continuation = 0x0

abbrev pub text : ℕ
text = 0x1

abbrev pub binary : ℕ
binary = 0x2

abbrev pub close : ℕ
close = 0x8

abbrev pub ping : ℕ
ping = 0x9

abbrev pub pong : ℕ
pong = 0xa

pub record Frame : Type 0 where
  pub fin : Bool
  pub opcode : ℕ
  pub payload : List ℕ

pub record DecodeResult : Type 0 where
  pub consumed : ℤ
  pub frame : Frame

-- What a call can come to: a result, a read behind the end of the memory that is there
-- (undefined behaviour), or std::length_error from a vector that is made too large.
pub data Outcome {ℓ} (A : Type ℓ) : Type ℓ where
  returned : A → Outcome A
  out_of_bounds : Outcome A
  length_error : Outcome A

infixl 5 ◌>>=◌
abbrev pub ◌>>=◌ {ℓ κ} : {A : Type ℓ} {B : Type κ} → Outcome A → (A → Outcome B) → Outcome B
returned a >>= f = f a
out_of_bounds >>= f = out_of_bounds
length_error >>= f = length_error

abbrev pub no_frame : Frame
no_frame = record { fin = false; opcode = 0; payload = [] }

-- {-1, {}} and {0, {}}
abbrev pub need_more : DecodeResult
need_more = record { consumed = negsuc 0; frame = no_frame }

abbrev pub protocol_error : DecodeResult
protocol_error = record { consumed = pos 0; frame = no_frame }

-- memory[i], where `memory` is what stands from the pointer on.
abbrev pub found {ℓ} : {A : Type ℓ} → Option A → Outcome A
found none = out_of_bounds
found (some a) = returned a

abbrev pub read_at : List ℕ → ℕ → Outcome ℕ
read_at memory i = found (get_elem? memory i)

-- for(i = 0; i < n; ++i) plen = (plen << 8) | data[at + i]
pub read_big_endian : ℕ → List ℕ → ℕ → ℕ → Outcome ℕ
read_big_endian zero memory at plen = returned plen
read_big_endian (suc n) memory at plen = do
  b ← read_at memory at
  read_big_endian n memory (at + 1) (bit_or (plen * 2 ^ 8 % 2 ^ 64) b)

-- Step 4: the position behind the length and the length, or none where more data is needed.
pub read_length : List ℕ → ℕ → ℕ → Outcome (Option (ℕ × ℕ))
read_length memory len plen =
    if plen == 126
    then if ltb len 4 then returned none else (do
      high ← read_at memory 2
      low ← read_at memory 3
      returned (some (4, bit_or (high * 2 ^ 8) low)))
    else if plen == 127
    then if ltb len 10
      then returned none
      else (do n ← read_big_endian 8 memory 2 0; returned (some (10, n)))
    else returned (some (2, plen))

-- for(i = 0; i < n; ++i) payload[i] = data[at + i] ^ mkey[i % 4]
pub unmask : ℕ → List ℕ → List ℕ → ℕ → ℕ → Outcome (List ℕ)
unmask zero memory mkey i at = returned []
unmask (suc n) memory mkey i at = do
  b ← read_at memory at
  rest ← unmask n memory mkey (i + 1) (at + 1)
  returned (bit_xor b (get_or mkey (i % 4) 0) ∷ rest)

-- std::vector<uint8_t>::max_size()
abbrev pub max_vector : ℕ
max_vector = 2 ^ 63 - 1

-- Steps 7 and 8, with the masking key read and `at` behind it.
pub read_payload : List ℕ → ℕ → Bool → ℕ → List ℕ → ℕ → ℕ → Outcome DecodeResult
unfolding unmask
read_payload memory len fin opcode mkey at plen =
    if ltb len (add64 at plen)
    then returned need_more
    else if ltb max_vector plen
    then length_error
    else (do
      payload ← unmask plen memory mkey 0 at
      returned (record {
        consumed = to_int32 (add64 at plen);
        frame = record { fin = fin; opcode = opcode; payload = payload };
      }))

-- Step 5. The key is read before `len` is compared with its end.
pub read_mask : List ℕ → ℕ → Bool → ℕ → ℕ → ℕ → ℕ → Outcome DecodeResult
unfolding read_payload
read_mask memory len fin opcode mask at plen =
    if mask == 1
    then (do
      k0 ← read_at memory at
      k1 ← read_at memory (at + 1)
      k2 ← read_at memory (at + 2)
      k3 ← read_at memory (at + 3)
      read_payload memory len fin opcode (k0 ∷ k1 ∷ k2 ∷ k3 ∷ []) (at + 4) plen)
    else returned protocol_error

abbrev after_length : List ℕ → ℕ → Bool → ℕ → ℕ → Option (ℕ × ℕ) → Outcome DecodeResult
after_length memory len fin opcode mask none = returned need_more
after_length memory len fin opcode mask (some (at, plen)) =
    read_mask memory len fin opcode mask at plen

-- tryDecode
pub try_decode : List ℕ → ℕ → Outcome DecodeResult
unfolding read_length read_mask
try_decode memory len = if ltb len 2 then returned need_more else (do
  b0 ← read_at memory 0
  let fin = bit_and (b0 / 2 ^ 7) 1 == 1
  let opcode = bit_and b0 0x0f
  let rsv = bit_and b0 0x70
  if not (bit_or rsv 0x8f == 0x8f) then returned protocol_error else (do
    b1 ← read_at memory 1
    let mask = bit_and (b1 / 2 ^ 7) 1
    step ← read_length memory len (bit_and b1 0x7f)
    after_length memory len fin opcode mask step))

-- The length field of encodeFrame: one byte, 126 and two bytes, or 127 and eight bytes.
unfoldable pub length_field : ℕ → List ℕ
length_field len =
    if ltb len 126
    then len % 2 ^ 8 ∷ []
    else if ltb len 65536
    then 126 ∷ len / 2 ^ 8 % 2 ^ 8 ∷ bit_and len 0xff % 2 ^ 8 ∷ []
    else 127
      ∷ bit_and (len / 2 ^ 56) 0xff % 2 ^ 8
      ∷ bit_and (len / 2 ^ 48) 0xff % 2 ^ 8
      ∷ bit_and (len / 2 ^ 40) 0xff % 2 ^ 8
      ∷ bit_and (len / 2 ^ 32) 0xff % 2 ^ 8
      ∷ bit_and (len / 2 ^ 24) 0xff % 2 ^ 8
      ∷ bit_and (len / 2 ^ 16) 0xff % 2 ^ 8
      ∷ bit_and (len / 2 ^ 8) 0xff % 2 ^ 8
      ∷ bit_and len 0xff % 2 ^ 8
      ∷ []

-- encodeFrame, for a payload of the given bytes.
unfoldable pub encode_frame : ℕ → List ℕ → List ℕ
unfolding length_field
encode_frame opcode payload =
    bit_or 0x80 (bit_and opcode 0x0f) ∷ (length_field (length payload) ++ payload)

unfoldable pub encode_text : List ℕ → List ℕ
encode_text s = encode_frame text s

pub encode_ping : List ℕ → List ℕ
encode_ping s = encode_frame ping s

pub encode_pong : List ℕ → List ℕ
encode_pong s = encode_frame pong s

-- encodeClose(code) and encodeClose()
pub encode_close_code : ℕ → List ℕ
encode_close_code code = encode_frame close (code / 2 ^ 8 % 2 ^ 8 ∷ bit_and code 0xff % 2 ^ 8 ∷ [])

pub encode_close : List ℕ
encode_close = encode_frame close []
