-- ===== src/Ws/Sha1/Digest.antt =====
-- The whole of SHA-1 against RFC 3174: pad the message, cut it into blocks, fold.
use chat_room.Common.{
  ℕ, zero, suc, ◌+◌, ◌-◌, ◌*◌, ◌/◌, ◌%◌, ◌^◌, ◌≤◌, ◌<◌, ◌≡◌, refl, sym, ap, ap₂, subst, ◌∙◌, inl,
  inr, bit_and, List, [], ◌∷◌, ◌++◌, arith, length, take, drop, replicate, leb, Bool-cases,
  length-append, length-take, length-drop, append_assoc, append-nil,
}
use chat_room.Common.Bits.{bit_and_low_eight}
use chat_room.Ws.Sha1.Round.{Hash, process_block}
use chat_room.Ws.Sha1.Round.Rfc.{rfc_block, rfc_initial, process_block_lem}
use chat_room.Ws.Sha1.{
  Sha1, init, initial_hash, update, final, hash_bytes, bytes32, bytes64, process_blocks,
}
use chat_room.Ws.Sha1.Blocks.{absorb, absorb_short, absorb_long, absorb-append}
use chat_room.Ws.Sha1.Absorb.{pending, Holds, count, update-Holds}
use chat_room.Ws.Sha1.Padding.{padding, final_lem}

-- The specification.
abbrev pub be32 : ℕ → List ℕ
be32 n = n / 2 ^ 24 % 256 ∷ n / 2 ^ 16 % 256 ∷ n / 2 ^ 8 % 256 ∷ n % 256 ∷ []

abbrev pub be64 : ℕ → List ℕ
be64 n =
    n / 2 ^ 56 % 256
    ∷ n / 2 ^ 48 % 256
    ∷ n / 2 ^ 40 % 256
    ∷ n / 2 ^ 32 % 256
    ∷ n / 2 ^ 24 % 256
    ∷ n / 2 ^ 16 % 256
    ∷ n / 2 ^ 8 % 256
    ∷ n % 256
    ∷ []

-- A 1 bit, as few 0 bits as make the length 448 modulo 512 bits, and the length in bits.
abbrev pub pad : List ℕ → List ℕ
pad msg =
    msg ++ (0x80 ∷ (replicate ((119 - length msg % 64) % 64) 0 ++ be64 (length msg * 8 % 2 ^ 64)))

abbrev pub chunks : ℕ → List ℕ → List (List ℕ)
chunks zero bytes = []
chunks (suc n) bytes = take 64 bytes ∷ chunks n (drop 64 bytes)

-- The code's hash after all blocks.
abbrev fold_blocks : Hash → List (List ℕ) → Hash
fold_blocks h [] = h
fold_blocks h (b ∷ bs) = fold_blocks (process_block b h) bs

unfoldable pub digest : Hash → List ℕ
digest h = be32 h.h0 ++ (be32 h.h1 ++ (be32 h.h2 ++ (be32 h.h3 ++ be32 h.h4)))

-- The hash after all blocks of RFC 3174.
abbrev pub rfc_blocks : Hash → List (List ℕ) → Hash
rfc_blocks h [] = h
rfc_blocks h (b ∷ bs) = rfc_blocks (rfc_block b h) bs

unfoldable pub sha1_spec : List ℕ → List ℕ
sha1_spec msg = digest (rfc_blocks rfc_initial (chunks (length (pad msg) / 64) (pad msg)))

fold_blocks_lem : (bs : List (List ℕ)) (h : Hash) → fold_blocks h bs ≡ rfc_blocks h bs
fold_blocks_lem [] h = refl
fold_blocks_lem (b ∷ bs) h =
    ap (λ k. fold_blocks k bs) (process_block_lem b h) ∙ fold_blocks_lem bs (rfc_block b h)

low_byte : (n : ℕ) → bit_and n 0xff % 2 ^ 8 ≡ n % 256
low_byte n = omega (arith, bit_and_low_eight n)

bytes32_lem : (n : ℕ) → bytes32 n ≡ be32 n
bytes32_lem n = rw (low_byte n, low_byte (n / 2 ^ 8), low_byte (n / 2 ^ 16), low_byte (n / 2 ^ 24))

bytes64_lem : (n : ℕ) → bytes64 n ≡ be64 n
bytes64_lem n = rw (
  low_byte n,
  low_byte (n / 2 ^ 8),
  low_byte (n / 2 ^ 16),
  low_byte (n / 2 ^ 24),
  low_byte (n / 2 ^ 32),
  low_byte (n / 2 ^ 40),
  low_byte (n / 2 ^ 48),
  low_byte (n / 2 ^ 56),
)

hash_bytes_lem : (h : Hash) → hash_bytes h ≡ digest h
unfolding hash_bytes digest
hash_bytes_lem h = ap₂ ◌++◌ (bytes32_lem h.h0) (
    ap₂ ◌++◌ (bytes32_lem h.h1)
      (ap₂ ◌++◌ (bytes32_lem h.h2) (ap₂ ◌++◌ (bytes32_lem h.h3) (bytes32_lem h.h4))))

absorb-fold :
    (n : ℕ) (h : Hash) (bytes : List ℕ)
    → n * 64 ≤ length bytes
    → length bytes < n * 64 + 64
    → (absorb h bytes).0 ≡ fold_blocks h (chunks n bytes)
absorb-fold zero h bytes p q = ap (λ a. a.0) (absorb_short h bytes (omega arith))
absorb-fold (suc n) h bytes p q =
    ap (λ a. a.0) (absorb_long h bytes (omega arith))
    ∙ absorb-fold n (process_block (take 64 bytes) h) (drop 64 bytes)
        (omega (arith, length-drop 64 bytes)) (omega (arith, length-drop 64 bytes))

length-absorb_fuel :
    (n : ℕ) (h : Hash) (bytes : List ℕ)
    → length bytes ≤ n
    → length (absorb h bytes).1 ≡ length bytes % 64
length-absorb_fuel zero h bytes p =
    ap (λ a. length a.1) (absorb_short h bytes (omega arith)) ∙ omega arith
length-absorb_fuel (suc n) h bytes p = elim (Bool-cases (leb 64 (length bytes))) [
  | inl l ↦
      let long : 64 ≤ length bytes = ground arith in
      ap (λ a. length a.1) (absorb_long h bytes long)
      ∙ (length-absorb_fuel n _ (drop 64 bytes) (omega (arith, length-drop 64 bytes))
          ∙ omega (arith, length-drop 64 bytes))
  | inr s ↦ ap (λ a. length a.1) (absorb_short h bytes (ground arith)) ∙ ground arith
]

-- Many updates.
abbrev pub update_all : List (List ℕ) → Sha1 → Sha1
update_all [] s = s
update_all (part ∷ parts) s = update_all parts (update part s)

abbrev pub concat : List (List ℕ) → List ℕ
concat [] = []
concat (part ∷ parts) = part ++ concat parts

update_all-Holds :
    (parts : List (List ℕ)) (so_far : List ℕ) (s : Sha1)
    → Holds s (absorb initial_hash so_far) (length so_far * 8 % 2 ^ 64)
    → Holds
        (update_all parts s)
        (absorb initial_hash (so_far ++ concat parts))
        (length (so_far ++ concat parts) * 8 % 2 ^ 64)
update_all-Holds [] so_far s h = rw append-nil h
update_all-Holds (part ∷ parts) so_far s h =
    subst
      (λ t.
        Holds (update_all parts (update part s)) (absorb initial_hash t) (length t * 8 % 2 ^ 64))
      (append_assoc so_far part (concat parts))
      (update_all-Holds parts (so_far ++ part) (update part s) step)
  where
    step :
        Holds
          (update part s)
          (absorb initial_hash (so_far ++ part))
          (length (so_far ++ part) * 8 % 2 ^ 64)
    step =
        subst (λ a. Holds (update part s) a (length (so_far ++ part) * 8 % 2 ^ 64)) absorbed
          (subst (Holds (update part s) (absorb s.hash (pending s ++ part))) counted
            (update-Holds s part h.valid))
      where
        absorbed : absorb s.hash (pending s ++ part) ≡ absorb initial_hash (so_far ++ part)
        absorbed =
            ap₂ (λ x y. absorb x (y ++ part)) h.hash h.bytes
            ∙ sym (absorb-append initial_hash so_far part)

        counted : count s.total_bits part ≡ length (so_far ++ part) * 8 % 2 ^ 64
        counted = omega (arith, h.counted, length-append so_far part)

pad_lem : (msg : List ℕ) → msg ++ padding (length msg % 64) (length msg * 8 % 2 ^ 64) ≡ pad msg
pad_lem msg =
    ap (λ b. msg ++ (0x80 ∷ (replicate ((119 - length msg % 64) % 64) 0 ++ b)))
      (bytes64_lem (length msg * 8 % 2 ^ 64))

final_of_Holds :
    (s : Sha1) (msg : List ℕ)
    → Holds s (absorb initial_hash msg) (length msg * 8 % 2 ^ 64)
    → final s ≡ sha1_spec msg
unfolding sha1_spec
final_of_Holds s msg h =
    final_lem s h.valid
    ∙ (ap (λ a. hash_bytes a.0) absorbed
        ∙ (hash_bytes_lem _
            ∙ ap digest (
                absorb-fold (length (pad msg) / 64) initial_hash (pad msg) (omega arith)
                  (omega arith)
                ∙ fold_blocks_lem (chunks (length (pad msg) / 64) (pad msg)) initial_hash)))
  where
    waiting : s.buf_len ≡ length msg % 64
    waiting = omega (
      arith,
      h.valid.size,
      h.valid.partial,
      length-take s.buf_len s.buf,
      ap length h.bytes,
      length-absorb_fuel (length msg) initial_hash msg (omega arith),
    )

    absorbed :
        absorb s.hash (pending s ++ padding s.buf_len s.total_bits) ≡ absorb initial_hash (pad msg)
    absorbed =
        ap₂ (λ n b. absorb s.hash (pending s ++ padding n b)) waiting h.counted
        ∙ (ap₂ (λ x y. absorb x (y ++ padding (length msg % 64) (length msg * 8 % 2 ^ 64))) h.hash
              h.bytes
            ∙ (sym (
                  absorb-append initial_hash msg
                    (padding (length msg % 64) (length msg * 8 % 2 ^ 64)))
                ∙ ap (absorb initial_hash) (pad_lem msg)))

init-Holds :
    (garbage : List ℕ) → length garbage ≡ 64 → Holds (init garbage) (absorb initial_hash []) 0
unfolding init process_blocks
init-Holds garbage g = record {
  valid = record { size = g; partial = omega arith };
  hash = refl;
  bytes = refl;
  counted = refl;
}

-- The object gives the digest of RFC 3174 of the whole text, with the padding, the initial value, the
-- message schedule, the functions and the constants that the RFC lists, however the text is cut into updates
-- and whatever its buffer held before init (which has 64 bytes).
pub final-update_all :
    (parts : List (List ℕ)) (garbage : List ℕ)
    → length garbage ≡ 64
    → final (update_all parts (init garbage)) ≡ sha1_spec (concat parts)
final-update_all parts garbage g =
    final_of_Holds (update_all parts (init garbage)) (concat parts)
      (update_all-Holds parts [] (init garbage) (init-Holds garbage g))
