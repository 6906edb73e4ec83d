-- ===== src/Ws/Base64/RoundTrip.antt =====
-- base64Encode against a decoder of RFC 4648.
use chat_room.Common.{
  ℕ, ◌+◌, ◌-◌, ◌&&◌, ltb, ◌*◌, ◌/◌, ◌%◌, ◌^◌, ◌<◌, ◌≡◌, refl, ap, ◌∙◌, bit_and, bit_or, Bool, false,
  ap₂, [], ◌∷◌, arith, length, All, ◌==◌, if◌then◌else◌,
}
use chat_room.Common.Bits.{agree_below, on_bytes, bit_or_shift}
use chat_room.Common.Text.{Bytes}
use chat_room.Ws.Base64.{letter, base64_encode}

-- The letter of a number below 64: A to Z, a to z, 0 to 9, + and /.
abbrev pub rfc_letter : ℕ → ℕ
rfc_letter n =
    if ltb n 26
    then 65 + n
    else if ltb n 52
    then 97 + (n - 26)
    else if ltb n 62
    then 48 + (n - 52)
    else if n == 62
    then 43
    else 47

-- The number of a letter.
index_of : ℕ → ℕ
index_of c =
    if ltb 64 c && ltb c 91
    then c - 65
    else if ltb 96 c && ltb c 123
    then c - 97 + 26
    else if ltb 47 c && ltb c 58
    then c - 48 + 52
    else if c == 43
    then 62
    else if c == 47
    then 63
    else 64

-- Four letters are three bytes; `=` marks the letters that are missing at the end.
pub base64_decode : Bytes → Bytes
base64_decode (c0 ∷ c1 ∷ c2 ∷ c3 ∷ rest) =
    let tail = base64_decode rest in
    let first = index_of c0 * 4 + index_of c1 / 16 in
    let second = index_of c1 % 16 * 16 + index_of c2 / 4 in
    let third = index_of c2 % 4 * 64 + index_of c3 in
    if c2 == b'='
    then first ∷ []
    else if c3 == b'='
    then first ∷ second ∷ []
    else first ∷ second ∷ third ∷ tail
base64_decode _ = []

index_letter : (x : ℕ) → x < 64 → index_of (letter x) ≡ x
unfolding agree_below index_of letter
index_letter x h =
    ap (λ t. index_of (letter t)) (let e : x ≡ x % 64 = omega arith in e)
    ∙ (on_bytes (λ x. index_of (letter (x % 64))) (λ x. x % 64) refl x (omega arith) ∙ omega arith)

pub letter_lem : (x : ℕ) → x < 64 → letter x ≡ rfc_letter x
unfolding agree_below letter
letter_lem x h =
    ap (λ t. letter t) (let e : x ≡ x % 64 = omega arith in e)
    ∙ (on_bytes (λ x. letter (x % 64)) (λ x. rfc_letter (x % 64)) refl x (omega arith)
        ∙ ap (λ (t : ℕ). rfc_letter t) (let e : x % 64 ≡ x = omega arith in e))

-- No letter is the padding sign.
as_bit : (b : Bool) → ◌≡◌ {A = ℕ} (if b then 1 else 0) 0 → b ≡ false
as_bit b h = ground arith

letter_ne : (x : ℕ) → x < 64 → (letter x == b'=') ≡ false
unfolding agree_below letter
letter_ne x h = as_bit (letter x == b'=') (
    ap (λ t. if letter t == b'=' then 1 else 0) (let e : x ≡ x % 64 = omega arith in e)
    ∙ on_bytes (λ x. if letter (x % 64) == b'=' then 1 else 0) (λ x. 0) refl x (omega arith))

-- The bit fields of the code.
low_two : (a : ℕ) → a < 256 → bit_and a 0x03 ≡ a % 4
unfolding agree_below
low_two = on_bytes (λ a. bit_and a 0x03) (λ a. a % 4) refl

low_four : (a : ℕ) → a < 256 → bit_and a 0x0f ≡ a % 16
unfolding agree_below
low_four = on_bytes (λ a. bit_and a 0x0f) (λ a. a % 16) refl

low_six : (a : ℕ) → a < 256 → bit_and a 0x3f ≡ a % 64
unfolding agree_below
low_six = on_bytes (λ a. bit_and a 0x3f) (λ a. a % 64) refl

high_six :
    (a b : ℕ)
    → a < 256
    → b < 256
    → bit_or (bit_and a 0x03 * 2 ^ 4) (b / 2 ^ 4) ≡ a % 4 * 16 + b / 16
high_six a b ha hb = rw (low_two a ha) (bit_or_shift 4 (a % 4) (b / 16) (omega arith))

middle_six :
    (a b : ℕ)
    → a < 256
    → b < 256
    → bit_or (bit_and a 0x0f * 2 ^ 2) (b / 2 ^ 6) ≡ a % 16 * 4 + b / 64
middle_six a b ha hb = rw (low_four a ha) (bit_or_shift 2 (a % 16) (b / 64) (omega arith))

module _ (a b : ℕ) (ha : a < 64) (hb : b < 64) where
  decode_one : base64_decode (letter a ∷ letter b ∷ b'=' ∷ b'=' ∷ []) ≡ (a * 4 + b / 16) ∷ []
  unfolding base64_decode
  decode_one = rw (index_letter a ha, index_letter b hb)

  module _ (c : ℕ) (hc : c < 64) where
    decode_two :
        base64_decode (letter a ∷ letter b ∷ letter c ∷ b'=' ∷ [])
        ≡ (a * 4 + b / 16) ∷ (b % 16 * 16 + c / 4) ∷ []
    unfolding base64_decode
    decode_two = rw (letter_ne c hc, index_letter a ha, index_letter b hb, index_letter c hc)

    decode_three :
        (d : ℕ) (rest : Bytes)
        → d < 64
        → base64_decode (letter a ∷ letter b ∷ letter c ∷ letter d ∷ rest)
          ≡ (a * 4 + b / 16) ∷ (b % 16 * 16 + c / 4) ∷ (c % 4 * 64 + d) ∷ base64_decode rest
    unfolding base64_decode
    decode_three d rest hd = rw (
      letter_ne c hc,
      letter_ne d hd,
      index_letter a ha,
      index_letter b hb,
      index_letter c hc,
      index_letter d hd,
    )

-- Decoding gives back the bytes that were encoded, for every length.
pub base64_decode-encode :
    (bytes : Bytes) → All (λ b. b < 256) bytes → base64_decode (base64_encode bytes) ≡ bytes
unfolding base64_encode
base64_decode-encode [] h = unfold base64_decode in refl
base64_decode-encode (b0 ∷ []) h =
    rw (low_two b0 h.0) (
      decode_one (b0 / 4) (b0 % 4 * 16) (omega arith) (omega arith)
      ∙ ap (λ x. x ∷ []) (omega arith))
base64_decode-encode (b0 ∷ b1 ∷ []) h =
    rw (high_six b0 b1 h.0 h.1.0, low_four b1 h.1.0)
      (decode_two (b0 / 4) (b0 % 4 * 16 + b1 / 16) (omega arith) (omega arith) (b1 % 16 * 4)
          (omega arith)
        ∙ ap₂ (λ x y. x ∷ y ∷ []) (omega arith) (omega arith))
base64_decode-encode (b0 ∷ b1 ∷ b2 ∷ rest) h =
    rw (high_six b0 b1 h.0 h.1.0, middle_six b1 b2 h.1.0 h.1.1.0, low_six b2 h.1.1.0)
      (decode_three (b0 / 4) (b0 % 4 * 16 + b1 / 16) (omega arith) (omega arith)
          (b1 % 16 * 4 + b2 / 64) (omega arith) (b2 % 64) (base64_encode rest) (omega arith)
        ∙ ap₂ ◌∷◌ (omega arith)
            (ap₂ ◌∷◌ (omega arith) (ap₂ ◌∷◌ (omega arith) (base64_decode-encode rest h.1.1.1))))

-- base64 of RFC 4648, 4: the 24 bits of three bytes are four numbers of 6 bits, the highest first; what
-- is missing at the end is zero bits, and '=' for each letter that has none.
unfoldable pub rfc_base64 : Bytes → Bytes
rfc_base64 [] = []
rfc_base64 (b0 ∷ []) = rfc_letter (b0 / 4) ∷ rfc_letter (b0 % 4 * 16) ∷ b'=' ∷ b'=' ∷ []
rfc_base64 (b0 ∷ b1 ∷ []) =
    rfc_letter (b0 / 4) ∷ rfc_letter (b0 % 4 * 16 + b1 / 16) ∷ rfc_letter (b1 % 16 * 4) ∷ b'=' ∷ []
rfc_base64 (b0 ∷ b1 ∷ b2 ∷ rest) =
    rfc_letter (b0 / 4)
    ∷ rfc_letter (b0 % 4 * 16 + b1 / 16)
    ∷ rfc_letter (b1 % 16 * 4 + b2 / 64)
    ∷ rfc_letter (b2 % 64)
    ∷ rfc_base64 rest

pub base64_encode_lem :
    (bytes : Bytes) → All (λ b. b < 256) bytes → base64_encode bytes ≡ rfc_base64 bytes
unfolding base64_encode rfc_base64
base64_encode_lem [] h = refl
base64_encode_lem (b0 ∷ []) h =
    rw
      (
        low_two b0 h.0,
        letter_lem (b0 / 4) (omega (arith, h.0)),
        letter_lem (b0 % 4 * 16) (omega arith),
      )
      refl
base64_encode_lem (b0 ∷ b1 ∷ []) h =
    rw
      (
        high_six b0 b1 h.0 h.1.0,
        low_four b1 h.1.0,
        letter_lem (b0 / 4) (omega (arith, h.0)),
        letter_lem (b0 % 4 * 16 + b1 / 16) (omega (arith, h.1.0)),
        letter_lem (b1 % 16 * 4) (omega arith),
      )
      refl
base64_encode_lem (b0 ∷ b1 ∷ b2 ∷ rest) h =
    rw
      (
        high_six b0 b1 h.0 h.1.0,
        middle_six b1 b2 h.1.0 h.1.1.0,
        low_six b2 h.1.1.0,
        letter_lem (b0 / 4) (omega (arith, h.0)),
        letter_lem (b0 % 4 * 16 + b1 / 16) (omega (arith, h.1.0)),
        letter_lem (b1 % 16 * 4 + b2 / 64) (omega (arith, h.1.1.0)),
        letter_lem (b2 % 64) (omega arith),
        base64_encode_lem rest h.1.1.1,
      )
      refl

-- Four letters for every three bytes, rounded up.
pub length-base64_encode :
    (bytes : Bytes) → length (base64_encode bytes) ≡ (length bytes + 2) / 3 * 4
unfolding base64_encode
length-base64_encode [] = refl
length-base64_encode (b0 ∷ []) = refl
length-base64_encode (b0 ∷ b1 ∷ []) = refl
length-base64_encode (b0 ∷ b1 ∷ b2 ∷ rest) = omega (arith, length-base64_encode rest)
