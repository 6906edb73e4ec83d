-- ===== src/Ws/Sha1.antt =====
-- src/server/ws_handshake.cpp, lines 10 to 154: SHA-1. A uint32_t is a number below 2^32.
pub mod Round
pub mod Blocks
pub mod Absorb
pub mod Padding
pub mod Digest
use Round.{Hash, process_block}
use chat_room.Common.{
  ℕ, zero, suc, ◌+◌, ◌-◌, ◌*◌, ◌/◌, ◌%◌, ◌^◌, bit_and, List, [], ◌∷◌, ◌++◌, length, take, drop,
  replicate, write_at, add64, mul64, ltb, leb, if◌then◌else◌,
}

-- struct Sha1: the members h, totalBits, buf and bufLen.
pub record Sha1 : Type 0 where
  pub hash : Hash
  pub total_bits : ℕ
  pub buf : List ℕ
  pub buf_len : ℕ

abbrev pub initial_hash : Hash
initial_hash = record {
  h0 = 0x67452301;
  h1 = 0xefcdab89;
  h2 = 0x98badcfe;
  h3 = 0x10325476;
  h4 = 0xc3d2e1f0;
}

-- Sha1::init, on an object whose buf holds what stood there before.
unfoldable pub init : List ℕ → Sha1
init garbage = record { hash = initial_hash; total_bits = 0; buf = garbage; buf_len = 0 }

-- while(len >= 64): the hash after the whole blocks, and the bytes that are left. One round for
-- each byte is more than enough; `process_blocks_lem` shows that less than a block is left.
pub process_blocks : ℕ → Hash → List ℕ → Hash × List ℕ
process_blocks zero h bytes = (h, bytes)
process_blocks (suc fuel) h bytes =
    let rest = process_blocks fuel (process_block (take 64 bytes) h) (drop 64 bytes) in
    if leb 64 (length bytes) then rest else (h, bytes)

-- The end of update: memcpy(buf, data, len); bufLen = len.
abbrev store_rest : Sha1 → Hash × List ℕ → Sha1
store_rest s (h, rest) =
    if ltb 0 (length rest)
    then record s { hash = h; buf = write_at s.buf 0 rest; buf_len = length rest }
    else record s { hash = h; buf_len = 0 }

-- update with bufLen = 0.
pub update_blocks : Sha1 → List ℕ → Sha1
unfolding process_blocks
update_blocks s bytes = store_rest s (process_blocks (length bytes) s.hash bytes)

-- Sha1::update
unfoldable pub update : List ℕ → Sha1 → Sha1
unfolding update_blocks
update bytes s =
    let counted = record s { total_bits = add64 s.total_bits (mul64 (length bytes) 8) } in
    if ltb 0 s.buf_len
    then (let need = 64 - s.buf_len in
        if ltb (length bytes) need
        then record counted {
          buf = write_at s.buf s.buf_len bytes;
          buf_len = s.buf_len + length bytes;
        }
        else (let full = write_at s.buf s.buf_len (take need bytes) in
            update_blocks
              (record counted { hash = process_block full s.hash; buf = full; buf_len = 0 })
              (drop need bytes)))
    else update_blocks counted bytes

-- while(bufLen < limit) buf[bufLen++] = 0, for `n` rounds that are left.
pub fill_zeros : ℕ → List ℕ → ℕ → List ℕ
fill_zeros zero buf at = buf
fill_zeros (suc n) buf at = fill_zeros n (write_at buf at (0 ∷ [])) (at + 1)

-- The bytes of a 64-bit number and of a 32-bit number, the highest first, as final writes them.
abbrev pub bytes64 : ℕ → List ℕ
bytes64 n =
    bit_and (n / 2 ^ 56) 0xff % 2 ^ 8
    ∷ bit_and (n / 2 ^ 48) 0xff % 2 ^ 8
    ∷ bit_and (n / 2 ^ 40) 0xff % 2 ^ 8
    ∷ bit_and (n / 2 ^ 32) 0xff % 2 ^ 8
    ∷ bit_and (n / 2 ^ 24) 0xff % 2 ^ 8
    ∷ bit_and (n / 2 ^ 16) 0xff % 2 ^ 8
    ∷ bit_and (n / 2 ^ 8) 0xff % 2 ^ 8
    ∷ bit_and n 0xff % 2 ^ 8
    ∷ []

abbrev pub bytes32 : ℕ → List ℕ
bytes32 n =
    bit_and (n / 2 ^ 24) 0xff % 2 ^ 8
    ∷ bit_and (n / 2 ^ 16) 0xff % 2 ^ 8
    ∷ bit_and (n / 2 ^ 8) 0xff % 2 ^ 8
    ∷ bit_and n 0xff % 2 ^ 8
    ∷ []

unfoldable pub hash_bytes : Hash → List ℕ
hash_bytes h = bytes32 h.h0 ++ (bytes32 h.h1 ++ (bytes32 h.h2 ++ (bytes32 h.h3 ++ bytes32 h.h4)))

-- Step 3 to 5 of final: zeros up to 56, the length, and the last block.
pub last_block : Sha1 → ℕ → List ℕ → Hash → Hash
unfolding fill_zeros
last_block s at buf h =
    process_block (write_at (fill_zeros (56 - at) buf at) 56 (bytes64 s.total_bits)) h

-- Sha1::final
unfoldable pub final : Sha1 → List ℕ
unfolding last_block
final s =
    let buf = write_at s.buf s.buf_len (0x80 ∷ []) in
    let at = s.buf_len + 1 in
    if ltb 56 at
    then (let filled = fill_zeros (64 - at) buf at in
        hash_bytes (last_block s 0 filled (process_block filled s.hash)))
    else hash_bytes (last_block s at buf s.hash)
