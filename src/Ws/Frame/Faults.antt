-- ===== src/Ws/Frame/Faults.antt =====
-- tryDecode on bytes that no client should send, and on bytes that are still to come.
use chat_room.Common.{
  ℕ, ◌+◌, ◌*◌, ◌/◌, ◌%◌, ◌≤◌, ◌<◌, ◌≡◌, ◌≢◌, refl, ◌∙◌, false, inl, inr, List, [], ◌∷◌, arith,
  length, ltb, ◌==◌, Bool-cases,
}
use chat_room.Ws.Frame.{
  returned, out_of_bounds, length_error, protocol_error, read_payload, read_mask, try_decode,
}
use chat_room.Ws.Frame.Bytes.{flag_lem, rsv_lem, short_length_lem}
use chat_room.Ws.Frame.Decode.{header_lem}
use chat_room.Ws.Frame.RoundTrip.{read_length_one, read_length_eight}

-- A frame with an RSV bit is a protocol error, whatever follows its first byte, as soon as two
-- bytes can be read.
pub try_decode-rsv :
    (b0 len : ℕ) (tail : List ℕ)
    → b0 < 256
    → b0 / 16 % 8 ≢ 0
    → 2 ≤ len
    → try_decode (b0 ∷ tail) len ≡ returned protocol_error
unfolding try_decode
try_decode-rsv b0 len tail hb rsv h = rw (
  let e : ltb len 2 ≡ false = ground arith in e,
  rsv_lem b0 hb,
  let e : (b0 / 16 % 8 * 16 + 0x8f == 0x8f) ≡ false = ground arith in e,
)

-- A frame without a masking key and with a one-byte length is a protocol error.
pub try_decode-unmasked :
    (b0 b1 len : ℕ) (tail : List ℕ)
    → b0 < 256
    → b1 < 126
    → 2 ≤ len
    → try_decode (b0 ∷ b1 ∷ tail) len ≡ returned protocol_error
unfolding try_decode
try_decode-unmasked b0 b1 len tail h0 h1 h = elim (Bool-cases (b0 / 16 % 8 == 0)) [
  | inl plain ↦ rw (
    let e : ltb len 2 ≡ false = ground arith in e,
    rsv_lem b0 h0,
    let e : b0 / 16 % 8 ≡ 0 = ground arith in e,
    short_length_lem b1 (omega arith),
    flag_lem b1 (omega arith),
    let e : b1 % 128 ≡ b1 = omega arith in e,
    let e : b1 / 128 ≡ 0 = omega arith in e,
    read_length_one _ len b1 h1,
  )
  | inr rsv ↦ try_decode-rsv b0 len (b1 ∷ tail) h0 (ground arith) h
]

-- The masking key is read before the length is compared: where the memory ends within the key of
-- a frame with a one-byte length, the code reads behind the end of the memory, although it has
-- been told how few bytes there are.
pub try_decode_key_overrun :
    (b0 n : ℕ) (tail : List ℕ)
    → b0 < 256
    → b0 / 16 % 8 ≡ 0
    → n < 126
    → length tail < 4
    → try_decode (b0 ∷ (128 + n) ∷ tail) (2 + length tail) ≡ out_of_bounds
unfolding read_mask
try_decode_key_overrun b0 n tail hb rsv hn short =
    header_lem b0 (128 + n) (2 + length tail) tail hb rsv (omega arith) (omega arith) (omega arith)
    ∙ rw
        (
          let e : (128 + n) % 128 ≡ n = omega arith in e,
          read_length_one (b0 ∷ (128 + n) ∷ tail) (2 + length tail) n hn,
        )
        (overrun tail short)
  where
    overrun :
        (tail : List ℕ)
        → length tail < 4
        → read_mask (b0 ∷ (128 + n) ∷ tail) (2 + length tail) (b0 / 128 == 1) (b0 % 16) 1 2 n
          ≡ out_of_bounds
    overrun [] h = refl
    overrun (a ∷ []) h = refl
    overrun (a ∷ b ∷ []) h = refl
    overrun (a ∷ b ∷ c ∷ []) h = refl
    overrun (a ∷ b ∷ c ∷ d ∷ t) h = absurd (omega arith)

-- A 64-bit length within 14 bytes of 2^64 makes `pos + plen` wrap around, passes the test that the
-- frame is complete, and ends the process by the length_error of `resize`: for every such frame
-- header with its key, whatever stands behind it.
pub try_decode_length_wraps :
    (b0 c7 k0 k1 k2 k3 : ℕ) (rest : List ℕ) (len : ℕ)
    → b0 < 256
    → b0 / 16 % 8 ≡ 0
    → 242 ≤ c7
    → c7 < 256
    → 14 ≤ len
    → try_decode
        (b0 ∷ 255 ∷ 255 ∷ 255 ∷ 255 ∷ 255 ∷ 255 ∷ 255 ∷ 255 ∷ c7 ∷ k0 ∷ k1 ∷ k2 ∷ k3 ∷ rest)
        len
      ≡ length_error
unfolding read_mask read_payload
try_decode_length_wraps b0 c7 k0 k1 k2 k3 rest len h0 rsv lo hi h =
    header_lem b0 255 len _ h0 rsv (omega arith) (omega arith) (omega arith)
    ∙ rw
        (read_length_eight b0 255 255 255 255 255 255 255 255 c7 len (k0 ∷ k1 ∷ k2 ∷ k3 ∷ rest)
          (omega arith) (omega arith))
        (ground arith)
