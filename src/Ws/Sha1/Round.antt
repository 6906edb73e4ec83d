-- ===== src/Ws/Sha1/Round.antt =====
-- Sha1::processBlock: the message schedule and the eighty rounds.
pub mod Rfc
use chat_room.Common.{
  ℕ, zero, suc, ◌+◌, ◌-◌, ◌*◌, ◌/◌, ◌%◌, ◌^◌, bit_and, bit_or, bit_xor, List, [], ◌∷◌, ◌++◌, get_or,
  add32, ltb, if◌then◌else◌,
}

pub record Hash : Type 0 where
  pub h0 : ℕ
  pub h1 : ℕ
  pub h2 : ℕ
  pub h3 : ℕ
  pub h4 : ℕ

-- rotl, for the shifts 1, 5 and 30 that the code uses.
pub rotl : ℕ → ℕ → ℕ
rotl x n = bit_or (x * 2 ^ n % 2 ^ 32) (x / 2 ^ (32 - n))

-- ~x
abbrev pub complement : ℕ → ℕ
complement x = 2 ^ 32 - 1 - x

-- W[i] for i < 16: four bytes of the block, the highest first.
pub block_word : List ℕ → ℕ → ℕ
block_word block i =
    bit_or
      (bit_or (bit_or (get_or block (4 * i) 0 * 2 ^ 24) (get_or block (4 * i + 1) 0 * 2 ^ 16))
        (get_or block (4 * i + 2) 0 * 2 ^ 8))
      (get_or block (4 * i + 3) 0)

-- The first `n` words, from word `i` on.
pub block_words : ℕ → List ℕ → ℕ → List ℕ
unfolding block_word
block_words zero block i = []
block_words (suc n) block i = block_word block i ∷ block_words n block (i + 1)

-- for(i = 16; i < 80; ++i), with `n` rounds left.
pub expand : ℕ → List ℕ → ℕ → List ℕ
unfolding rotl
expand zero w i = w
expand (suc n) w i =
    let x =
      bit_xor (bit_xor (bit_xor (get_or w (i - 3) 0) (get_or w (i - 8) 0)) (get_or w (i - 14) 0))
        (get_or w (i - 16) 0) in
    expand n (w ++ (rotl x 1 ∷ [])) (i + 1)

-- f and K of round t.
pub round_f : ℕ → ℕ → ℕ → ℕ → ℕ
round_f t b c d =
    if ltb t 20
    then bit_or (bit_and b c) (bit_and (complement b) d)
    else if ltb t 40
    then bit_xor (bit_xor b c) d
    else if ltb t 60
    then bit_or (bit_or (bit_and b c) (bit_and b d)) (bit_and c d)
    else bit_xor (bit_xor b c) d

pub round_k : ℕ → ℕ
round_k t =
    if ltb t 20
    then 0x5a827999
    else if ltb t 40
    then 0x6ed9eba1
    else if ltb t 60
    then 0x8f1bbcdc
    else 0xca62c1d6

-- One round: the new (a, b, c, d, e).
pub round : List ℕ → ℕ → Hash → Hash
unfolding rotl round_f round_k
round w t h = record {
  h0 =
      add32 (add32 (add32 (add32 (rotl h.h0 5) (round_f t h.h1 h.h2 h.h3)) h.h4) (round_k t))
        (get_or w t 0);
  h1 = h.h0;
  h2 = rotl h.h1 30;
  h3 = h.h2;
  h4 = h.h3;
}

-- for(t = 0; t < 80; ++t), with `n` rounds left.
pub rounds : ℕ → List ℕ → ℕ → Hash → Hash
unfolding round
rounds zero w t h = h
rounds (suc n) w t h = rounds n w (t + 1) (round w t h)

-- Sha1::processBlock
unfoldable pub process_block : List ℕ → Hash → Hash
unfolding block_words expand rounds
process_block block h =
    let w = expand 64 (block_words 16 block 0) 16 in
    let r = rounds 80 w 0 h in
    record {
      h0 = add32 h.h0 r.h0;
      h1 = add32 h.h1 r.h1;
      h2 = add32 h.h2 r.h2;
      h3 = add32 h.h3 r.h3;
      h4 = add32 h.h4 r.h4;
    }
