-- ===== src/Ws/Sha1/Blocks.antt =====
-- The loop over the whole blocks: it ends by its test, and can be cut anywhere.
use chat_room.Common.{
  ℕ, zero, suc, ◌≤◌, ◌<◌, ◌≡◌, refl, sym, ◌∙◌, true, false, inl, inr, List, [], ◌∷◌, ◌++◌, arith,
  length, take, drop, leb, Bool-cases, length-append, length-drop, take-append, drop-append,
}
use chat_room.Ws.Sha1.Round.{Hash, process_block}
use chat_room.Ws.Sha1.{process_blocks}

-- The hash after the whole blocks of a text, and the bytes that are left.
abbrev pub absorb : Hash → List ℕ → Hash × List ℕ
absorb h bytes = process_blocks (length bytes) h bytes

process_blocks_short :
    (n : ℕ) (h : Hash) (bytes : List ℕ) → length bytes < 64 → process_blocks n h bytes ≡ (h, bytes)
unfolding process_blocks
process_blocks_short zero h bytes s = refl
process_blocks_short (suc n) h bytes s =
    rw (let e : leb 64 (length bytes) ≡ false = ground arith in e)

process_blocks_long :
    (n : ℕ) (h : Hash) (bytes : List ℕ)
    → 64 ≤ length bytes
    → process_blocks (suc n) h bytes
      ≡ process_blocks n (process_block (take 64 bytes) h) (drop 64 bytes)
unfolding process_blocks
process_blocks_long n h bytes l = rw (let e : leb 64 (length bytes) ≡ true = ground arith in e)

-- More rounds than bytes change nothing.
process_blocks_fuel :
    (n m : ℕ) (h : Hash) (bytes : List ℕ)
    → length bytes ≤ n
    → length bytes ≤ m
    → process_blocks n h bytes ≡ process_blocks m h bytes
process_blocks_fuel zero m h bytes p q =
    process_blocks_short zero h bytes (omega arith)
    ∙ sym (process_blocks_short m h bytes (omega arith))
process_blocks_fuel (suc n) zero h bytes p q =
    process_blocks_short (suc n) h bytes (omega arith)
    ∙ sym (process_blocks_short zero h bytes (omega arith))
process_blocks_fuel (suc n) (suc m) h bytes p q = elim (Bool-cases (leb 64 (length bytes))) [
  | inl l ↦
      process_blocks_long n h bytes (ground arith)
      ∙ (process_blocks_fuel n m _ (drop 64 bytes) (ground (arith, length-drop 64 bytes))
            (ground (arith, length-drop 64 bytes))
          ∙ sym (process_blocks_long m h bytes (ground arith)))
  | inr s ↦
      process_blocks_short (suc n) h bytes (ground arith)
      ∙ sym (process_blocks_short (suc m) h bytes (ground arith))
]

pub absorb_short : (h : Hash) (bytes : List ℕ) → length bytes < 64 → absorb h bytes ≡ (h, bytes)
absorb_short h bytes s = process_blocks_short (length bytes) h bytes s

pub absorb_long :
    (h : Hash) (bytes : List ℕ)
    → 64 ≤ length bytes
    → absorb h bytes ≡ absorb (process_block (take 64 bytes) h) (drop 64 bytes)
absorb_long h [] l = absurd (omega arith)
absorb_long h (x ∷ xs) l =
    process_blocks_long (length xs) h (x ∷ xs) l
    ∙ process_blocks_fuel (length xs) (length (drop 64 (x ∷ xs))) _ (drop 64 (x ∷ xs))
        (omega (arith, length-drop 64 (x ∷ xs))) (omega arith)

-- Less than a block is left.
absorb_rest_fuel :
    (n : ℕ) (h : Hash) (bytes : List ℕ)
    → length bytes ≤ n
    → length (process_blocks n h bytes).1 < 64
absorb_rest_fuel zero h bytes p = rw (process_blocks_short zero h bytes (omega arith)) (omega arith)
absorb_rest_fuel (suc n) h bytes p = elim (Bool-cases (leb 64 (length bytes))) [
  | inl l ↦
      rw (process_blocks_long n h bytes (ground arith))
        (absorb_rest_fuel n _ (drop 64 bytes) (ground (arith, length-drop 64 bytes)))
  | inr s ↦ rw (process_blocks_short (suc n) h bytes (ground arith)) (ground arith)
]

pub absorb_rest : (h : Hash) (bytes : List ℕ) → length (absorb h bytes).1 < 64
absorb_rest h bytes = absorb_rest_fuel (length bytes) h bytes (omega arith)

absorb-append_fuel :
    (n : ℕ) (h : Hash) (xs ys : List ℕ)
    → length xs ≤ n
    → absorb h (xs ++ ys) ≡ absorb (absorb h xs).0 ((absorb h xs).1 ++ ys)
absorb-append_fuel zero h xs ys p = rw (absorb_short h xs (omega arith))
absorb-append_fuel (suc n) h xs ys p = elim (Bool-cases (leb 64 (length xs))) [
  | inl l ↦
      absorb_long h (xs ++ ys) (ground (arith, length-append xs ys))
      ∙ rw
          (
            take-append 64 xs ys (ground arith),
            drop-append 64 xs ys (ground arith),
            absorb_long h xs (ground arith),
          )
          (absorb-append_fuel n (process_block (take 64 xs) h) (drop 64 xs) ys
            (ground (arith, length-drop 64 xs)))
  | inr s ↦ rw (absorb_short h xs (ground arith))
]

-- A text can be absorbed in two parts.
pub absorb-append :
    (h : Hash) (xs ys : List ℕ)
    → absorb h (xs ++ ys) ≡ absorb (absorb h xs).0 ((absorb h xs).1 ++ ys)
absorb-append h xs ys = absorb-append_fuel (length xs) h xs ys (omega arith)
