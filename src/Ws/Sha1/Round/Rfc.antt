-- ===== src/Ws/Sha1/Round/Rfc.antt =====
-- The compression of a block as RFC 3174, 5 and 6.1, states it, and processBlock of
-- src/server/ws_handshake.cpp against it.
use chat_room.Common.{
  ℕ, zero, suc, ◌+◌, ◌-◌, ◌*◌, ◌/◌, ◌%◌, ◌^◌, ◌≤◌, ◌<◌, ◌≡◌, refl, ap, ap₂, ◌∙◌, bit_and, bit_or,
  bit_xor, List, [], ◌∷◌, ◌++◌, arith, length, get_or, length-append,
}
use chat_room.Ws.Sha1.Round.{
  Hash, rotl, block_word, block_words, expand, round_f, round_k, round, rounds, process_block,
}

-- S^n(X), a circular left shift.
abbrev shift : ℕ → ℕ → ℕ
shift n x = bit_or (x * 2 ^ n % 2 ^ 32) (x / 2 ^ (32 - n))

-- f and K of the four groups of twenty rounds.
abbrev choose : ℕ → ℕ → ℕ → ℕ
choose b c d = bit_or (bit_and b c) (bit_and (0xffffffff - b) d)

abbrev parity : ℕ → ℕ → ℕ → ℕ
parity b c d = bit_xor (bit_xor b c) d

abbrev majority : ℕ → ℕ → ℕ → ℕ
majority b c d = bit_or (bit_or (bit_and b c) (bit_and b d)) (bit_and c d)

-- The word of four bytes of a block, the highest first.
abbrev word_of : ℕ → ℕ → ℕ → ℕ → ℕ
word_of b0 b1 b2 b3 = bit_or (bit_or (bit_or (b0 * 2 ^ 24) (b1 * 2 ^ 16)) (b2 * 2 ^ 8)) b3

abbrev word_at : List ℕ → ℕ → ℕ
word_at block t =
    word_of (get_or block (4 * t) 0) (get_or block (4 * t + 1) 0) (get_or block (4 * t + 2) 0)
      (get_or block (4 * t + 3) 0)

abbrev reverse : List ℕ → List ℕ
reverse [] = []
reverse (x ∷ xs) = reverse xs ++ (x ∷ [])

-- W(t) = S^1(W(t-3) XOR W(t-8) XOR W(t-14) XOR W(t-16)), `n` times, with the last word first.
abbrev next_word : List ℕ → ℕ
next_word ws =
    shift 1 (
      bit_xor (bit_xor (bit_xor (get_or ws 2 0) (get_or ws 7 0)) (get_or ws 13 0)) (get_or ws 15 0))

more_words : ℕ → List ℕ → List ℕ
more_words zero ws = ws
more_words (suc n) ws = more_words n (next_word ws ∷ ws)

-- W(15), ..., W(0): the block.
abbrev first_words : List ℕ → List ℕ
first_words block =
    word_at block 15
    ∷ word_at block 14
    ∷ word_at block 13
    ∷ word_at block 12
    ∷ word_at block 11
    ∷ word_at block 10
    ∷ word_at block 9
    ∷ word_at block 8
    ∷ word_at block 7
    ∷ word_at block 6
    ∷ word_at block 5
    ∷ word_at block 4
    ∷ word_at block 3
    ∷ word_at block 2
    ∷ word_at block 1
    ∷ word_at block 0
    ∷ []

-- W(0), ..., W(79)
schedule : List ℕ → List ℕ
unfolding more_words
schedule block = reverse (more_words 64 (first_words block))

-- TEMP = S^5(A) + f(B,C,D) + E + W(t) + K; E = D; D = C; C = S^30(B); B = A; A = TEMP, for `n` rounds.
stage : (ℕ → ℕ → ℕ → ℕ) → ℕ → ℕ → List ℕ → ℕ → Hash → Hash
stage f k zero w t h = h
stage f k (suc n) w t h = stage f k n w (t + 1) (record {
  h0 = (shift 5 h.h0 + f h.h1 h.h2 h.h3 + h.h4 + get_or w t 0 + k) % 2 ^ 32;
  h1 = h.h0;
  h2 = shift 30 h.h1;
  h3 = h.h2;
  h4 = h.h3;
})

eighty_rounds : List ℕ → Hash → Hash
unfolding stage
eighty_rounds w h = stage parity 0xca62c1d6 20 w 60 (
    stage majority 0x8f1bbcdc 20 w 40
      (stage parity 0x6ed9eba1 20 w 20 (stage choose 0x5a827999 20 w 0 h)))

-- The hash after a block.
unfoldable pub rfc_block : List ℕ → Hash → Hash
unfolding schedule eighty_rounds
rfc_block block h =
    let r = eighty_rounds (schedule block) h in
    record {
      h0 = (h.h0 + r.h0) % 2 ^ 32;
      h1 = (h.h1 + r.h1) % 2 ^ 32;
      h2 = (h.h2 + r.h2) % 2 ^ 32;
      h3 = (h.h3 + r.h3) % 2 ^ 32;
      h4 = (h.h4 + r.h4) % 2 ^ 32;
    }

abbrev pub rfc_initial : Hash
rfc_initial = record {
  h0 = 0x67452301;
  h1 = 0xefcdab89;
  h2 = 0x98badcfe;
  h3 = 0x10325476;
  h4 = 0xc3d2e1f0;
}

length-reverse : (xs : List ℕ) → length (reverse xs) ≡ length xs
length-reverse [] = refl
length-reverse (x ∷ xs) = omega (arith, length-append (reverse xs) (x ∷ []), length-reverse xs)

get_or-append : (xs ys : List ℕ) (i : ℕ) → i < length xs → get_or (xs ++ ys) i 0 ≡ get_or xs i 0
get_or-append [] ys i h = absurd (omega (arith, h))
get_or-append (x ∷ xs) ys zero h = refl
get_or-append (x ∷ xs) ys (suc i) h = get_or-append xs ys i (omega (arith, h))

get_or_last : (xs : List ℕ) (x : ℕ) → get_or (xs ++ (x ∷ [])) (length xs) 0 ≡ x
get_or_last [] x = refl
get_or_last (y ∷ xs) x = get_or_last xs x

-- The word `k` places before the end.
get_or-reverse :
    (ws : List ℕ) (k i : ℕ) → i + suc k ≡ length ws → get_or (reverse ws) i 0 ≡ get_or ws k 0
get_or-reverse [] k i h = absurd (omega (arith, h))
get_or-reverse (x ∷ ws) zero i h =
    let at : i ≡ length (reverse ws) = omega (arith, h, length-reverse ws) in
    ap (λ (j : ℕ). get_or (reverse ws ++ (x ∷ [])) j 0) at ∙ get_or_last (reverse ws) x
get_or-reverse (x ∷ ws) (suc k) i h =
    get_or-append (reverse ws) (x ∷ []) i (omega (arith, h, length-reverse ws))
    ∙ get_or-reverse ws k i (omega (arith, h))

expand-reverse :
    (n : ℕ) (ws : List ℕ)
    → 16 ≤ length ws
    → expand n (reverse ws) (length ws) ≡ reverse (more_words n ws)
unfolding expand rotl more_words
expand-reverse zero ws h = refl
expand-reverse (suc n) ws h =
    let back = λ (k : ℕ) (e : length ws - suc k + suc k ≡ length ws).
      get_or-reverse ws k (length ws - suc k) e in
    rw
      (
        back 2 (omega (arith, h)),
        back 7 (omega (arith, h)),
        back 13 (omega (arith, h)),
        back 15 (omega (arith, h)),
      )
      (ap (λ (j : ℕ). expand n (reverse (next_word ws ∷ ws)) j)
          (let e : length ws + 1 ≡ suc (length ws) = omega arith in e)
        ∙ expand-reverse n (next_word ws ∷ ws) (omega (arith, h)))

schedule_lem : (block : List ℕ) → expand 64 (block_words 16 block 0) 16 ≡ schedule block
unfolding block_words block_word schedule
schedule_lem block = expand-reverse 64 (first_words block) (omega arith)

add_lem :
    (a b c d e : ℕ)
    → ((((a + b) % 2 ^ 32 + c) % 2 ^ 32 + e) % 2 ^ 32 + d) % 2 ^ 32 ≡ (a + b + c + d + e) % 2 ^ 32
add_lem a b c d e = omega arith

module _ (w : List ℕ) where
  -- The rounds of a group are the code's, where f and K of the group are.
  rounds-stage :
      (f : ℕ → ℕ → ℕ → ℕ) (k lo hi : ℕ)
      → ((t b c d : ℕ) → lo ≤ t → t < hi → round_f t b c d ≡ f b c d)
      → ((t : ℕ) → lo ≤ t → t < hi → round_k t ≡ k)
      → (n t : ℕ) (h : Hash) → lo ≤ t
      → t + n ≤ hi
      → rounds n w t h ≡ stage f k n w t h
  unfolding rounds round rotl stage
  rounds-stage f k lo hi same_f same_k zero t h low high = refl
  rounds-stage f k lo hi same_f same_k (suc n) t h low high =
      rw
        (
          same_f t h.h1 h.h2 h.h3 low (omega (arith, high)),
          same_k t low (omega (arith, high)),
          add_lem (shift 5 h.h0) (f h.h1 h.h2 h.h3) h.h4 (get_or w t 0) k,
        )
        (rounds-stage f k lo hi same_f same_k n (t + 1) _ (omega (arith, low))
          (omega (arith, high)))

  rounds_add : (n m t : ℕ) (h : Hash) → rounds (n + m) w t h ≡ rounds m w (t + n) (rounds n w t h)
  unfolding rounds
  rounds_add zero m t h =
      ap₂ (λ (a b : ℕ). rounds a w b h) (let e : 0 + m ≡ m = omega arith in e)
        (let e : t ≡ t + 0 = omega arith in e)
  rounds_add (suc n) m t h =
      ap (λ (a : ℕ). rounds a w t h) (let e : suc n + m ≡ suc (n + m) = omega arith in e)
      ∙ rounds_add n m (t + 1) (round w t h)
      ∙ ap (λ (b : ℕ). rounds m w b (rounds n w (t + 1) (round w t h)))
          (let e : t + 1 + n ≡ t + suc n = omega arith in e)

  eighty_lem : (h : Hash) → rounds 80 w 0 h ≡ eighty_rounds w h
  unfolding eighty_rounds round_f round_k
  eighty_lem h =
      rounds_add 20 60 0 h
      ∙ rounds_add 20 40 20 _
      ∙ rounds_add 20 20 40 _
      ∙ rounds-stage parity 0xca62c1d6 60 80 (λ t b c d l u. ground (arith, l, u))
          (λ t l u. ground (arith, l, u)) 20 60 _ (omega arith) (omega arith)
      ∙ ap (stage parity 0xca62c1d6 20 w 60) (
          rounds-stage majority 0x8f1bbcdc 40 60 (λ t b c d l u. ground (arith, l, u))
            (λ t l u. ground (arith, l, u)) 20 40 _ (omega arith) (omega arith)
          ∙ ap (stage majority 0x8f1bbcdc 20 w 40) (
              rounds-stage parity 0x6ed9eba1 20 40 (λ t b c d l u. ground (arith, l, u))
                (λ t l u. ground (arith, l, u)) 20 20 _ (omega arith) (omega arith)
              ∙ ap (stage parity 0x6ed9eba1 20 w 20) (
                  rounds-stage choose 0x5a827999 0 20 (λ t b c d l u. ground (arith, l, u))
                    (λ t l u. ground (arith, l, u)) 20 0 h (omega arith) (omega arith))))

-- processBlock is the compression of RFC 3174.
pub process_block_lem : (block : List ℕ) (h : Hash) → process_block block h ≡ rfc_block block h
unfolding process_block rfc_block
process_block_lem block h =
    ap
      (λ r. record {
        h0 = (h.h0 + r.h0) % 2 ^ 32;
        h1 = (h.h1 + r.h1) % 2 ^ 32;
        h2 = (h.h2 + r.h2) % 2 ^ 32;
        h3 = (h.h3 + r.h3) % 2 ^ 32;
        h4 = (h.h4 + r.h4) % 2 ^ 32;
      })
      (ap (λ w. rounds 80 w 0 h) (schedule_lem block) ∙ eighty_lem (schedule block) h)
