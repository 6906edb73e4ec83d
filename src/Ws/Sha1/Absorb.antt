-- ===== src/Ws/Sha1/Absorb.antt =====
-- update: what the object holds is the text so far, absorbed.
use chat_room.Common.{
  ℕ, ◌+◌, ◌-◌, ◌≤◌, ◌<◌, ◌≡◌, refl, sym, ap, ◌∙◌, true, inl, inr, List, [], ◌∷◌, ◌++◌, arith,
  length, take, drop, write_at, add64, mul64, ltb, Bool-cases, length-append, length-take,
  length-write_at, take-write_at, take-all, take-append_more, drop-append_more, length-eq-zero,
}
use chat_room.Ws.Sha1.Round.{Hash, process_block}
use chat_room.Ws.Sha1.{Sha1, store_rest, update_blocks, update}
use chat_room.Ws.Sha1.Blocks.{absorb, absorb_short, absorb_long, absorb_rest}

-- The bytes that wait for a whole block.
abbrev pub pending : Sha1 → List ℕ
pending s = take s.buf_len s.buf

pub record IsValid (s : Sha1) : Type 0 where
  pub size : length s.buf ≡ 64
  pub partial : s.buf_len < 64

-- `s` holds the hash `a.0` and the bytes `a.1`, and has counted `bits`.
pub record Holds (s : Sha1) (a : Hash × List ℕ) (bits : ℕ) : Type 0 where
  pub valid : IsValid s
  pub hash : s.hash ≡ a.0
  pub bytes : pending s ≡ a.1
  pub counted : s.total_bits ≡ bits

store_rest-Holds :
    (s : Sha1) (h : Hash) (rest : List ℕ)
    → length s.buf ≡ 64
    → length rest < 64
    → Holds (store_rest s (h, rest)) (h, rest) s.total_bits
unfolding write_at
store_rest-Holds s h [] size short = record {
  valid = record { size = size; partial = omega arith };
  hash = refl;
  bytes = refl;
  counted = refl;
}
store_rest-Holds s h (x ∷ xs) size short =
    rw (let e : ltb 0 (length (x ∷ xs)) ≡ true = ground arith in e) (record {
      valid = record {
        size = length-write_at s.buf 0 (x ∷ xs) (omega arith) ∙ size;
        partial = short;
      };
      hash = refl;
      bytes =
          ap (λ n. take n (write_at s.buf 0 (x ∷ xs)))
            (let e : length (x ∷ xs) ≡ 0 + length (x ∷ xs) = omega arith in e)
          ∙ take-write_at s.buf 0 (x ∷ xs) (omega arith);
      counted = refl;
    })

update_blocks-Holds :
    (s : Sha1) (bytes : List ℕ)
    → length s.buf ≡ 64
    → Holds (update_blocks s bytes) (absorb s.hash bytes) s.total_bits
unfolding update_blocks
update_blocks-Holds s bytes size =
    store_rest-Holds s (absorb s.hash bytes).0 (absorb s.hash bytes).1 size
      (absorb_rest s.hash bytes)

abbrev pub count : ℕ → List ℕ → ℕ
count bits bytes = add64 bits (mul64 (length bytes) 8)

module _ (s : Sha1) (bytes : List ℕ) (v : IsValid s) where
  waiting : length (pending s) ≡ s.buf_len
  waiting = omega (arith, length-take s.buf_len s.buf, v.size, v.partial)

  -- The new bytes do not fill the block.
  stay :
      length bytes < 64 - s.buf_len
      → Holds
          (record s {
            total_bits = count s.total_bits bytes;
            buf = write_at s.buf s.buf_len bytes;
            buf_len = s.buf_len + length bytes;
          })
          (absorb s.hash (pending s ++ bytes))
          (count s.total_bits bytes)
  stay h =
      rw
        (absorb_short s.hash (pending s ++ bytes)
          (omega (arith, waiting, length-append (pending s) bytes)))
        (record {
          valid = record {
            size = length-write_at s.buf s.buf_len bytes (omega (arith, v.size)) ∙ v.size;
            partial = omega arith;
          };
          hash = refl;
          bytes = take-write_at s.buf s.buf_len bytes (omega (arith, v.size));
          counted = refl;
        })

  need : ℕ
  need = 64 - s.buf_len

  full : List ℕ
  full = write_at s.buf s.buf_len (take need bytes)

  module _ (enough : need ≤ length bytes) where
    taken : length (take need bytes) ≡ need
    taken = omega (arith, length-take need bytes)

    full_size : length full ≡ 64
    unfolding full need
    full_size =
        length-write_at s.buf s.buf_len (take need bytes) (omega (arith, taken, v.size)) ∙ v.size

    full_lem : full ≡ take 64 (pending s ++ bytes)
    unfolding full need
    full_lem =
        sym (take-all 64 full (omega (arith, full_size)))
        ∙ (ap (λ n. take n full)
              (let e : 64 ≡ s.buf_len + length (take need bytes) = omega (arith, taken) in e)
            ∙ (take-write_at s.buf s.buf_len (take need bytes) (omega (arith, v.size))
                ∙ sym (
                    take-append_more 64 (pending s) bytes (omega (arith, waiting))
                    ∙ ap (λ n. pending s ++ take n bytes)
                        (let e : 64 - length (pending s) ≡ need = omega (arith, waiting) in e))))

    fill :
        Holds
          (update_blocks
            (record s {
              hash = process_block full s.hash;
              total_bits = count s.total_bits bytes;
              buf = full;
              buf_len = 0;
            })
            (drop need bytes))
          (absorb s.hash (pending s ++ bytes))
          (count s.total_bits bytes)
    unfolding need
    fill =
        rw
          (
            absorb_long s.hash (pending s ++ bytes)
                (omega (arith, waiting, length-append (pending s) bytes)),
            ← full_lem,
            drop-append_more 64 (pending s) bytes (omega (arith, waiting)),
            let e : 64 - length (pending s) ≡ need = omega (arith, waiting) in e,
          )
          (update_blocks-Holds _ (drop need bytes) full_size)

  -- update absorbs its bytes behind those that wait.
  pub update-Holds :
      Holds (update bytes s) (absorb s.hash (pending s ++ bytes)) (count s.total_bits bytes)
  unfolding update need full
  update-Holds = elim (Bool-cases (ltb 0 s.buf_len)) [
    | inl some_wait ↦ rw some_wait (elim (Bool-cases (ltb (length bytes) (64 - s.buf_len))) [
      | inl short ↦ rw short (stay (ground arith))
      | inr enough ↦ rw enough (fill (ground arith))
    ])
    | inr none_wait ↦
        rw (none_wait, length-eq-zero (pending s) (ground (arith, waiting)))
          (update_blocks-Holds (record s { total_bits = count s.total_bits bytes }) bytes v.size)
  ]
