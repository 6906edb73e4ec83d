-- ===== src/Ws/Sha1/Padding.antt =====
-- final: the padding of RFC 3174, section 4, and the last one or two blocks.
use chat_room.Common.{
  ℕ, zero, suc, ◌+◌, ◌-◌, ◌%◌, ◌≤◌, ◌<◌, ◌≡◌, refl, sym, ap, ap₂, ◌∙◌, inl, inr, List, [], ◌∷◌,
  ◌++◌, arith, length, take, replicate, write_at, ltb, Bool-cases, length-append, length-take,
  length-replicate, length-write_at, take-write_at, take-all, drop-all, take-append, drop-append,
  append_assoc, append-nil,
}
use chat_room.Ws.Sha1.Round.{Hash, process_block}
use chat_room.Ws.Sha1.{Sha1, bytes64, hash_bytes, fill_zeros, last_block, final}
use chat_room.Ws.Sha1.Blocks.{absorb, absorb_short, absorb_long}
use chat_room.Ws.Sha1.Absorb.{pending, IsValid}

pub absorb_block :
    (h : Hash) (block rest : List ℕ)
    → length block ≡ 64
    → absorb h (block ++ rest) ≡ absorb (process_block block h) rest
absorb_block h block rest e =
    absorb_long h (block ++ rest) (omega (arith, length-append block rest))
    ∙ ap₂ (λ b r. absorb (process_block b h) r)
        (take-append 64 block rest (omega arith) ∙ take-all 64 block (omega arith))
        (drop-append 64 block rest (omega arith)
          ∙ ap (λ t. t ++ rest) (drop-all 64 block (omega arith)))

pub absorb_last :
    (h : Hash) (block : List ℕ) → length block ≡ 64 → absorb h block ≡ (process_block block h, [])
absorb_last h block e =
    ap (absorb h) (sym (append-nil block))
    ∙ (absorb_block h block [] e ∙ absorb_short (process_block block h) [] (omega arith))

length-fill_zeros :
    (n : ℕ) (buf : List ℕ) (at : ℕ)
    → at + n ≤ length buf
    → length (fill_zeros n buf at) ≡ length buf
unfolding fill_zeros
length-fill_zeros zero buf at h = refl
length-fill_zeros (suc n) buf at h =
    length-fill_zeros n (write_at buf at (0 ∷ [])) (at + 1)
      (omega (arith, length-write_at buf at (0 ∷ [])))
    ∙ length-write_at buf at (0 ∷ []) (omega arith)

take-fill_zeros :
    (n : ℕ) (buf : List ℕ) (at : ℕ)
    → at + n ≤ length buf
    → take (at + n) (fill_zeros n buf at) ≡ take at buf ++ replicate n 0
unfolding fill_zeros
take-fill_zeros zero buf at h =
    ap (λ k. take k buf) (let e : at + 0 ≡ at = omega arith in e) ∙ sym (append-nil (take at buf))
take-fill_zeros (suc n) buf at h =
    ap (λ k. take k (fill_zeros n (write_at buf at (0 ∷ [])) (at + 1)))
      (let e : at + suc n ≡ at + 1 + n = omega arith in e)
    ∙ (take-fill_zeros n (write_at buf at (0 ∷ [])) (at + 1)
          (omega (arith, length-write_at buf at (0 ∷ [])))
        ∙ (ap (λ t. t ++ replicate n 0) (take-write_at buf at (0 ∷ []) (omega arith))
            ∙ append_assoc (take at buf) (0 ∷ []) (replicate n 0)))

replicate-add : (n m : ℕ) → replicate {A = ℕ} (n + m) 0 ≡ replicate n 0 ++ replicate m 0
replicate-add zero m = ap (λ k. replicate k 0) (let e : 0 + m ≡ m = omega arith in e)
replicate-add (suc n) m =
    ap (λ k. replicate k 0) (let e : suc n + m ≡ suc (n + m) = omega arith in e)
    ∙ ap (◌∷◌ 0) (replicate-add n m)

-- The last block, from a buffer whose first `at` bytes are to stay.
last_block_lem :
    (s : Sha1) (at : ℕ) (buf : List ℕ) (h : Hash)
    → length buf ≡ 64
    → at ≤ 56
    → last_block s at buf h
      ≡ process_block (take at buf ++ (replicate (56 - at) 0 ++ bytes64 s.total_bits)) h
unfolding last_block write_at
last_block_lem s at buf h size small =
    ap (λ b. process_block b h)
      (ap₂ (λ a b. a ++ (bytes64 s.total_bits ++ b))
          (ap (λ n. take n filled) (let e : 56 ≡ at + (56 - at) = omega arith in e)
            ∙ take-fill_zeros (56 - at) buf at (omega arith))
          (drop-all 64 filled (omega (arith, length-fill_zeros (56 - at) buf at)))
        ∙ append_assoc (take at buf) (replicate (56 - at) 0) (bytes64 s.total_bits))
  where
    filled : List ℕ
    filled = fill_zeros (56 - at) buf at

-- 0x80, zeros up to 56 modulo 64, and the length in bits.
abbrev pub zero_count : ℕ → ℕ
zero_count n = (119 - n) % 64

abbrev pub padding : ℕ → ℕ → List ℕ
padding n bits = 0x80 ∷ (replicate (zero_count n) 0 ++ bytes64 bits)

module _ (s : Sha1) (v : IsValid s) where
  marked : List ℕ
  marked = write_at s.buf s.buf_len (0x80 ∷ [])

  marked_size : length marked ≡ 64
  unfolding marked
  marked_size =
      length-write_at s.buf s.buf_len (0x80 ∷ []) (omega (arith, v.size, v.partial)) ∙ v.size

  marked_bytes : take (s.buf_len + 1) marked ≡ pending s ++ (0x80 ∷ [])
  unfolding marked
  marked_bytes = take-write_at s.buf s.buf_len (0x80 ∷ []) (omega (arith, v.size, v.partial))

  waiting : length (pending s) ≡ s.buf_len
  waiting = omega (arith, length-take s.buf_len s.buf, v.size, v.partial)

  whole : List ℕ
  whole = pending s ++ padding s.buf_len s.total_bits

  whole_size : length whole ≡ s.buf_len + 1 + zero_count s.buf_len + 8
  unfolding whole
  whole_size = omega (
    arith,
    waiting,
    length-append (pending s) (padding s.buf_len s.total_bits),
    length-append (replicate (zero_count s.buf_len) 0) (bytes64 s.total_bits),
    length-replicate {A = ℕ} (zero_count s.buf_len) 0,
  )

  one_block :
      s.buf_len + 1 ≤ 56 → last_block s (s.buf_len + 1) marked s.hash ≡ (absorb s.hash whole).0
  unfolding whole
  one_block h =
      last_block_lem s (s.buf_len + 1) marked s.hash marked_size h
      ∙ (ap (λ b. process_block b s.hash) same
          ∙ sym (ap (λ a. a.0) (absorb_last s.hash whole (omega (arith, whole_size, v.partial)))))
    where
      same :
          take (s.buf_len + 1) marked
            ++ (replicate (56 - (s.buf_len + 1)) 0 ++ bytes64 s.total_bits)
          ≡ whole
      same = rw marked_bytes (
          append_assoc (pending s) (0x80 ∷ []) _
          ∙ ap (λ k. pending s ++ (0x80 ∷ (replicate k 0 ++ bytes64 s.total_bits)))
              (let e : 56 - (s.buf_len + 1) ≡ zero_count s.buf_len = omega arith in e))

  filled : List ℕ
  filled = fill_zeros (64 - (s.buf_len + 1)) marked (s.buf_len + 1)

  filled_size : length filled ≡ 64
  unfolding filled
  filled_size =
      length-fill_zeros (64 - (s.buf_len + 1)) marked (s.buf_len + 1)
        (omega (arith, marked_size, v.partial))
      ∙ marked_size

  filled_bytes : filled ≡ pending s ++ (0x80 ∷ replicate (64 - (s.buf_len + 1)) 0)
  unfolding filled
  filled_bytes =
      sym (take-all 64 filled (omega (arith, filled_size)))
      ∙ (ap (λ k. take k filled)
            (let e : 64 ≡ s.buf_len + 1 + (64 - (s.buf_len + 1)) = omega (arith, v.partial) in e)
          ∙ (take-fill_zeros (64 - (s.buf_len + 1)) marked (s.buf_len + 1)
                (omega (arith, marked_size, v.partial))
              ∙ rw marked_bytes (append_assoc (pending s) (0x80 ∷ []) _)))

  abbrev last : List ℕ
  last = replicate 56 0 ++ bytes64 s.total_bits

  whole_split : 56 < s.buf_len + 1 → whole ≡ filled ++ last
  unfolding whole
  whole_split h =
      ap (λ k. pending s ++ (0x80 ∷ (replicate k 0 ++ bytes64 s.total_bits)))
        (let e : zero_count s.buf_len ≡ 64 - (s.buf_len + 1) + 56 = omega (arith, v.partial) in e)
      ∙ (ap (λ z. pending s ++ (0x80 ∷ (z ++ bytes64 s.total_bits)))
            (replicate-add (64 - (s.buf_len + 1)) 56)
          ∙ (ap (λ z. pending s ++ (0x80 ∷ z))
                (append_assoc (replicate (64 - (s.buf_len + 1)) 0) (replicate 56 0)
                  (bytes64 s.total_bits))
              ∙ (sym (append_assoc (pending s) (0x80 ∷ replicate (64 - (s.buf_len + 1)) 0) last)
                  ∙ ap (λ z. z ++ last) (sym filled_bytes))))

  two_blocks :
      56 < s.buf_len + 1
      → last_block s 0 filled (process_block filled s.hash) ≡ (absorb s.hash whole).0
  two_blocks h =
      last_block_lem s 0 filled (process_block filled s.hash) filled_size (omega arith)
      ∙ sym (
          ap (λ a. a.0)
            (ap (absorb s.hash) (whole_split h)
              ∙ (absorb_block s.hash filled last filled_size
                  ∙ absorb_last (process_block filled s.hash) last (omega arith))))

  -- final is the hash of what has been absorbed, with its padding.
  pub final_lem :
      final s ≡ hash_bytes (absorb s.hash (pending s ++ padding s.buf_len s.total_bits)).0
  unfolding final marked filled whole
  final_lem = elim (Bool-cases (ltb 56 (s.buf_len + 1))) [
    | inl over ↦ rw over (ap hash_bytes (two_blocks (ground arith)))
    | inr fits ↦ rw fits (ap hash_bytes (one_block (ground arith)))
  ]
