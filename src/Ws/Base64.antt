-- ===== src/Ws/Base64.antt =====
-- src/server/ws_handshake.cpp, lines 157 to 194: base64 of RFC 4648.
pub mod RoundTrip
use chat_room.Common.{ℕ, ◌+◌, ◌*◌, ◌/◌, ◌^◌, bit_and, bit_or, List, [], ◌∷◌, get_or}
use chat_room.Common.Text.{Bytes, codes}

-- B64_ALPHABET
abbrev pub alphabet : Bytes
alphabet = codes "ABCDEFGHIJKLMNOPQRSTUVWXYZabcdefghijklmnopqrstuvwxyz0123456789+/"

-- B64_ALPHABET[i]. Behind its 64 characters stands the terminating zero.
unfoldable pub letter : ℕ → ℕ
letter i = get_or alphabet i 0

-- base64Encode: four letters for three bytes, and the one or two bytes that are left.
unfoldable pub base64_encode : Bytes → Bytes
base64_encode (b0 ∷ b1 ∷ b2 ∷ rest) =
    letter (b0 / 2 ^ 2)
    ∷ letter (bit_or (bit_and b0 0x03 * 2 ^ 4) (b1 / 2 ^ 4))
    ∷ letter (bit_or (bit_and b1 0x0f * 2 ^ 2) (b2 / 2 ^ 6))
    ∷ letter (bit_and b2 0x3f)
    ∷ base64_encode rest
base64_encode [] = []
base64_encode (b0 ∷ []) = letter (b0 / 2 ^ 2) ∷ letter (bit_and b0 0x03 * 2 ^ 4) ∷ b'=' ∷ b'=' ∷ []
base64_encode (b0 ∷ b1 ∷ []) =
    letter (b0 / 2 ^ 2)
    ∷ letter (bit_or (bit_and b0 0x03 * 2 ^ 4) (b1 / 2 ^ 4))
    ∷ letter (bit_and b1 0x0f * 2 ^ 2)
    ∷ b'='
    ∷ []
