-- ===== src/Ws/Frame/Decode.antt =====
-- tryDecode against the frames that RFC 6455, 5.2 makes a client send.
use chat_room.Common.{
  ℕ, suc, ◌+◌, ◌*◌, ◌/◌, ◌%◌, ◌^◌, ◌≤◌, ◌<◌, ◌≡◌, refl, ap, ◌∙◌, Bool, false, some, List, [], ◌∷◌,
  ◌++◌, arith, length, get_elem?, drop, All, add64, ltb, ◌==◌, if◌then◌else◌,
}
use chat_room.Common.Bits.{bit_or_shift}
use chat_room.Common.Int.{pos}
use chat_room.Ws.Frame.{
  Frame, returned, ◌>>=◌, read_big_endian, read_length, read_payload, read_mask, after_length,
  try_decode, max_vector,
}
use chat_room.Ws.Frame.Bytes.{flag_lem, opcode_lem, rsv_lem, short_length_lem}
use chat_room.Ws.Frame.Unmask.{mask_from, unmask-mask_from, drop-cons}

abbrev pub AreBytes : List ℕ → Type 0
AreBytes = All (λ x. x < 256)

-- The length of a client's frame in its shortest form, with the mask bit set.
abbrev pub client_length : ℕ → List ℕ
client_length n =
    if ltb n 126
    then (128 + n) ∷ []
    else if ltb n 65536
    then 254 ∷ n / 2 ^ 8 ∷ n % 256 ∷ []
    else 255
      ∷ n / 2 ^ 56 % 256
      ∷ n / 2 ^ 48 % 256
      ∷ n / 2 ^ 40 % 256
      ∷ n / 2 ^ 32 % 256
      ∷ n / 2 ^ 24 % 256
      ∷ n / 2 ^ 16 % 256
      ∷ n / 2 ^ 8 % 256
      ∷ n % 256
      ∷ []

abbrev pub fin_bit : Bool → ℕ
fin_bit fin = if fin then 128 else 0

-- A frame as a client sends it: no RSV bits, a masking key, and the masked payload.
abbrev pub client_frame : Frame → List ℕ → List ℕ
client_frame f mkey =
    (fin_bit f.fin + f.opcode)
    ∷ (client_length (length f.payload) ++ (mkey ++ mask_from mkey 0 f.payload))

-- Reading the big-endian bytes of a number.
read_step :
    (n : ℕ) (memory : List ℕ) (at acc b : ℕ)
    → get_elem? memory at ≡ some b
    → b < 256
    → acc < 2 ^ 56
    → read_big_endian (suc n) memory at acc ≡ read_big_endian n memory (at + 1) (acc * 256 + b)
unfolding read_big_endian
read_step n memory at acc b e hb ha =
    rw
      (
        e,
        let w : acc * 2 ^ 8 % 2 ^ 64 ≡ acc * 2 ^ 8 = omega arith in w,
        bit_or_shift 8 acc b (omega arith),
      )
      refl

pub read_eight :
    (x0 x1 c0 c1 c2 c3 c4 c5 c6 c7 : ℕ) (rest : List ℕ)
    → AreBytes (c0 ∷ c1 ∷ c2 ∷ c3 ∷ c4 ∷ c5 ∷ c6 ∷ c7 ∷ [])
    → read_big_endian 8 (x0 ∷ x1 ∷ c0 ∷ c1 ∷ c2 ∷ c3 ∷ c4 ∷ c5 ∷ c6 ∷ c7 ∷ rest) 2 0
      ≡ returned (
          c0 * 2 ^ 56
          + c1 * 2 ^ 48
          + c2 * 2 ^ 40
          + c3 * 2 ^ 32
          + c4 * 2 ^ 24
          + c5 * 2 ^ 16
          + c6 * 2 ^ 8
          + c7)
unfolding read_big_endian
read_eight x0 x1 c0 c1 c2 c3 c4 c5 c6 c7 rest h =
    let m : List ℕ = x0 ∷ x1 ∷ c0 ∷ c1 ∷ c2 ∷ c3 ∷ c4 ∷ c5 ∷ c6 ∷ c7 ∷ rest in
    let a1 : ℕ = 0 * 256 + c0 in
    let a2 : ℕ = a1 * 256 + c1 in
    let a3 : ℕ = a2 * 256 + c2 in
    let a4 : ℕ = a3 * 256 + c3 in
    let a5 : ℕ = a4 * 256 + c4 in
    let a6 : ℕ = a5 * 256 + c5 in
    let a7 : ℕ = a6 * 256 + c6 in
    read_step 7 m 2 0 c0 refl (omega arith) (omega arith)
    ∙ (read_step 6 m 3 a1 c1 refl (omega arith) (omega arith)
        ∙ (read_step 5 m 4 a2 c2 refl (omega arith) (omega arith)
            ∙ (read_step 4 m 5 a3 c3 refl (omega arith) (omega arith)
                ∙ (read_step 3 m 6 a4 c4 refl (omega arith) (omega arith)
                    ∙ (read_step 2 m 7 a5 c5 refl (omega arith) (omega arith)
                        ∙ (read_step 1 m 8 a6 c6 refl (omega arith) (omega arith)
                            ∙ (read_step 0 m 9 a7 c7 refl (omega arith) (omega arith)
                                ∙ ap returned (omega arith))))))))

-- The two header bytes of a frame with no RSV bits and a masking key.
pub header_lem :
    (b0 b1 len : ℕ) (tail : List ℕ)
    → b0 < 256
    → b0 / 16 % 8 ≡ 0
    → 128 ≤ b1
    → b1 < 256
    → 2 ≤ len
    → try_decode (b0 ∷ b1 ∷ tail) len ≡ (
        read_length (b0 ∷ b1 ∷ tail) len (b1 % 128)
        >>= after_length (b0 ∷ b1 ∷ tail) len (b0 / 128 == 1) (b0 % 16) 1)
unfolding try_decode
header_lem b0 b1 len tail hb rsv h2 h3 h4 = rw (
  let e : ltb len 2 ≡ false = ground arith in e,
  rsv_lem b0 hb,
  rsv,
  flag_lem b0 hb,
  opcode_lem b0 hb,
  short_length_lem b1 h3,
  flag_lem b1 h3,
  let e : b1 / 128 ≡ 1 = omega arith in e,
)

-- The key and the payload.
pub read_mask-client :
    (memory rest payload : List ℕ) (len : ℕ) (fin : Bool) (op at k0 k1 k2 k3 : ℕ)
    → drop at memory ≡ k0 ∷ k1 ∷ k2 ∷ k3 ∷ (mask_from (k0 ∷ k1 ∷ k2 ∷ k3 ∷ []) 0 payload ++ rest)
    → AreBytes (k0 ∷ k1 ∷ k2 ∷ k3 ∷ [])
    → AreBytes payload
    → at ≤ 10
    → length payload + 14 < 2 ^ 31
    → at + 4 + length payload ≤ len
    → read_mask memory len fin op 1 at (length payload)
      ≡ returned (record {
        consumed = pos (at + 4 + length payload);
        frame = record { fin = fin; opcode = op; payload = payload };
      })
unfolding read_mask read_payload
read_mask-client memory rest payload len fin op at k0 k1 k2 k3 e hk hp h1 h2 h3 =
    rw
      (
        key0.0,
        key1.0,
        key2.0,
        key3.0,
        let w : add64 (at + 4) (length payload) ≡ at + 4 + length payload = omega arith in w,
        let w : ltb len (at + 4 + length payload) ≡ false = ground arith in w,
        let w : ltb max_vector (length payload) ≡ false = ground arith in w,
        unmask-mask_from (k0 ∷ k1 ∷ k2 ∷ k3 ∷ []) payload rest memory 0 (at + 4) hk hp after_key,
      )
      (ap
        (λ c.
          returned
            (record { consumed = c; frame = record { fin = fin; opcode = op; payload = payload } }))
        (ground arith))
  where
    succ : (n : ℕ) → n + 1 ≡ suc n
    succ n = omega arith

    key0 :
        (get_elem? memory at ≡ some k0)
        × (drop (suc at) memory
            ≡ k1 ∷ k2 ∷ k3 ∷ (mask_from (k0 ∷ k1 ∷ k2 ∷ k3 ∷ []) 0 payload ++ rest))
    key0 = drop-cons at memory _ _ e

    key1 :
        (get_elem? memory (at + 1) ≡ some k1)
        × (drop (suc (at + 1)) memory
            ≡ k2 ∷ k3 ∷ (mask_from (k0 ∷ k1 ∷ k2 ∷ k3 ∷ []) 0 payload ++ rest))
    key1 = drop-cons (at + 1) memory _ _ (ap (λ n. drop n memory) (succ at) ∙ key0.1)

    key2 :
        (get_elem? memory (at + 2) ≡ some k2)
        × (drop (suc (at + 2)) memory ≡ k3 ∷ (mask_from (k0 ∷ k1 ∷ k2 ∷ k3 ∷ []) 0 payload ++ rest))
    key2 =
        drop-cons (at + 2) memory _ _
          (ap (λ n. drop n memory) (let w : at + 2 ≡ suc (at + 1) = omega arith in w) ∙ key1.1)

    key3 :
        (get_elem? memory (at + 3) ≡ some k3)
        × (drop (suc (at + 3)) memory ≡ mask_from (k0 ∷ k1 ∷ k2 ∷ k3 ∷ []) 0 payload ++ rest)
    key3 =
        drop-cons (at + 3) memory _ _
          (ap (λ n. drop n memory) (let w : at + 3 ≡ suc (at + 2) = omega arith in w) ∙ key2.1)

    after_key : drop (at + 4) memory ≡ mask_from (k0 ∷ k1 ∷ k2 ∷ k3 ∷ []) 0 payload ++ rest
    after_key = ap (λ n. drop n memory) (let w : at + 4 ≡ suc (at + 3) = omega arith in w) ∙ key3.1
