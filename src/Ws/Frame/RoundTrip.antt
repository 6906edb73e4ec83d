-- ===== src/Ws/Frame/RoundTrip.antt =====
-- tryDecode on a client's frames, in the three forms of the length field.
use chat_room.Common.{
  ℕ, ◌+◌, ◌*◌, ◌/◌, ◌%◌, ◌^◌, ◌≤◌, ◌<◌, ◌≡◌, refl, sym, ap, ◌∙◌, Bool, false, inl, inr, some, List,
  [], ◌∷◌, ◌++◌, arith, length, drop, ltb, ◌==◌, Bool-cases, length-append, append_assoc,
}
use chat_room.Common.Bits.{bit_or_shift}
use chat_room.Common.Int.{pos}
use chat_room.Ws.Frame.{Frame, returned, read_length, try_decode}
use chat_room.Ws.Frame.Unmask.{mask_from, length-mask_from}
use chat_room.Ws.Frame.Decode.{
  AreBytes, client_length, client_frame, fin_bit, read_eight, header_lem, read_mask-client,
}

pub read_length_one :
    (memory : List ℕ) (len n : ℕ) → n < 126 → read_length memory len n ≡ returned (some (2, n))
unfolding read_length
read_length_one memory len n h =
    rw (
      let e : (n == 126) ≡ false = ground arith in e,
      let e : (n == 127) ≡ false = ground arith in e,
    )

read_length_two :
    (b0 b1 h l len : ℕ) (tail : List ℕ)
    → 4 ≤ len
    → l < 256
    → read_length (b0 ∷ b1 ∷ h ∷ l ∷ tail) len 126 ≡ returned (some (4, h * 256 + l))
unfolding read_length
read_length_two b0 b1 h l len tail fits hl =
    rw (let e : ltb len 4 ≡ false = ground arith in e, bit_or_shift 8 h l (omega arith))

pub read_length_eight :
    (b0 b1 c0 c1 c2 c3 c4 c5 c6 c7 len : ℕ) (tail : List ℕ)
    → 10 ≤ len
    → AreBytes (c0 ∷ c1 ∷ c2 ∷ c3 ∷ c4 ∷ c5 ∷ c6 ∷ c7 ∷ [])
    → read_length (b0 ∷ b1 ∷ c0 ∷ c1 ∷ c2 ∷ c3 ∷ c4 ∷ c5 ∷ c6 ∷ c7 ∷ tail) len 127
      ≡ returned (
          some (
            10,
            c0 * 2 ^ 56
                + c1 * 2 ^ 48
                + c2 * 2 ^ 40
                + c3 * 2 ^ 32
                + c4 * 2 ^ 24
                + c5 * 2 ^ 16
                + c6 * 2 ^ 8
                + c7,
          ))
unfolding read_length
read_length_eight b0 b1 c0 c1 c2 c3 c4 c5 c6 c7 len tail fits h = rw (
  let e : ltb len 10 ≡ false = ground arith in e,
  read_eight b0 b1 c0 c1 c2 c3 c4 c5 c6 c7 tail h,
)

module _ (fin : Bool) (op : ℕ) (payload rest : List ℕ) (k0 k1 k2 k3 len : ℕ) (op_small : op < 16)
    (payload_bytes : AreBytes payload) (key_bytes : AreBytes (k0 ∷ k1 ∷ k2 ∷ k3 ∷ []))
    (size : length payload + 14 < 2 ^ 31) where
  abbrev body : List ℕ
  body = k0 ∷ k1 ∷ k2 ∷ k3 ∷ (mask_from (k0 ∷ k1 ∷ k2 ∷ k3 ∷ []) 0 payload ++ rest)

  abbrev b0 : ℕ
  b0 = fin_bit fin + op

  first_byte : (b0 < 256) × (b0 / 16 % 8 ≡ 0) × ((b0 / 128 == 1) ≡ fin) × (b0 % 16 ≡ op)
  first_byte = ground arith

  -- The rest of the way, where the length has been read.
  decode_from :
      (b1 at n : ℕ) (tail : List ℕ)
      → 128 ≤ b1
      → b1 < 256
      → n ≡ length payload
      → at ≤ 10
      → at + 4 + length payload ≤ len
      → drop at (b0 ∷ b1 ∷ tail) ≡ body
      → read_length (b0 ∷ b1 ∷ tail) len (b1 % 128) ≡ returned (some (at, n))
      → try_decode (b0 ∷ b1 ∷ tail) len
        ≡ returned (record {
          consumed = pos (at + 4 + length payload);
          frame = record { fin = fin; opcode = op; payload = payload };
        })
  decode_from b1 at n tail h1 h2 same h3 h4 behind e =
      header_lem b0 b1 len tail first_byte.0 first_byte.1 h1 h2 (omega arith)
      ∙ rw (e, first_byte.2, first_byte.3, same)
          (read_mask-client (b0 ∷ b1 ∷ tail) rest payload len fin op at k0 k1 k2 k3 behind key_bytes
            payload_bytes h3 size h4)

  decode_client :
      1 + length (client_length (length payload)) + 4 + length payload ≤ len
      → try_decode (b0 ∷ (client_length (length payload) ++ body)) len
        ≡ returned (record {
          consumed = pos (1 + length (client_length (length payload)) + 4 + length payload);
          frame = record { fin = fin; opcode = op; payload = payload };
        })
  decode_client h = elim (Bool-cases (ltb (length payload) 126)) [
    | inl short ↦
        let fit : 6 + length payload ≤ len = rw short at h in
        rw short (
          decode_from (128 + length payload) 2 (length payload) body (omega arith) (ground arith)
            refl (omega arith) (omega arith) refl
            (ap (read_length _ len)
                (let e : (128 + length payload) % 128 ≡ length payload = ground arith in e)
              ∙ read_length_one _ len (length payload) (ground arith)))
    | inr more ↦ elim (Bool-cases (ltb (length payload) 65536)) [
      | inl medium ↦
          let fit : 8 + length payload ≤ len = rw (more, medium) at h in
          rw (more, medium)
            (decode_from 254 4 _ (length payload / 256 ∷ length payload % 256 ∷ body) (omega arith)
              (omega arith) (omega arith) (omega arith) (omega arith) refl
              (read_length_two b0 254 (length payload / 256) (length payload % 256) len body
                (omega arith) (omega arith)))
      | inr long ↦
          let fit : 14 + length payload ≤ len = rw (more, long) at h in
          rw (more, long)
            (decode_from 255 10 _ _ (omega arith) (omega arith) (omega arith) (omega arith)
              (omega arith) refl
              (read_length_eight b0 255 _ _ _ _ _ _ _ _ len body (omega arith) (omega arith)))
    ]
  ]

-- tryDecode gives back the frame that a client has sent, with and without FIN, for every opcode,
-- masking key and payload of less than 2^31 - 14 bytes, as soon as all of the frame can be read;
-- it consumes the bytes of the frame and nothing of what follows.
pub try_decode-client_frame :
    (f : Frame) (k0 k1 k2 k3 : ℕ) (rest : List ℕ) (len : ℕ)
    → f.opcode < 16
    → AreBytes f.payload
    → AreBytes (k0 ∷ k1 ∷ k2 ∷ k3 ∷ [])
    → length f.payload + 14 < 2 ^ 31
    → length (client_frame f (k0 ∷ k1 ∷ k2 ∷ k3 ∷ [])) ≤ len
    → try_decode (client_frame f (k0 ∷ k1 ∷ k2 ∷ k3 ∷ []) ++ rest) len
      ≡ returned
          (record { consumed = pos (length (client_frame f (k0 ∷ k1 ∷ k2 ∷ k3 ∷ []))); frame = f })
try_decode-client_frame f k0 k1 k2 k3 rest len h1 h2 h3 h4 h5 =
    ap (λ m. try_decode (b0_of f ∷ m) len) (append_assoc (client_length (length f.payload)) _ rest)
    ∙ (decode_client f.fin f.opcode f.payload rest k0 k1 k2 k3 len h1 h2 h3 h4 (omega (arith, size))
        ∙ ap (λ n. returned (record { consumed = pos n; frame = f })) (sym size))
  where
    b0_of : Frame → ℕ
    b0_of f = fin_bit f.fin + f.opcode

    size :
        length (client_frame f (k0 ∷ k1 ∷ k2 ∷ k3 ∷ []))
        ≡ 1 + length (client_length (length f.payload)) + 4 + length f.payload
    size = omega (
      arith,
      length-append (client_length (length f.payload))
          (k0 ∷ k1 ∷ k2 ∷ k3 ∷ mask_from (k0 ∷ k1 ∷ k2 ∷ k3 ∷ []) 0 f.payload),
      length-mask_from (k0 ∷ k1 ∷ k2 ∷ k3 ∷ []) 0 f.payload,
    )
