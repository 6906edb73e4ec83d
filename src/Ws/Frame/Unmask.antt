-- ===== src/Ws/Frame/Unmask.antt =====
-- The loop that takes the mask off, against the mask of RFC 6455, 5.3.
use chat_room.Common.{
  ℕ, zero, suc, ◌+◌, ◌%◌, ◌<◌, ◌≡◌, refl, ap, ◌∙◌, bit_xor, some, List, [], ◌∷◌, ◌++◌, arith,
  length, get_elem?, get_or, drop, All,
}
use chat_room.Common.Bits.{bit_xor_twice}
use chat_room.Ws.Frame.{returned, unmask}

-- transformed-octet-i = original-octet-i XOR masking-key-octet-(i MOD 4)
abbrev pub mask_from : List ℕ → ℕ → List ℕ → List ℕ
mask_from mkey i [] = []
mask_from mkey i (x ∷ xs) = bit_xor x (get_or mkey (i % 4) 0) ∷ mask_from mkey (i + 1) xs

pub length-mask_from :
    (mkey : List ℕ) (i : ℕ) (xs : List ℕ) → length (mask_from mkey i xs) ≡ length xs
length-mask_from mkey i [] = refl
length-mask_from mkey i (x ∷ xs) = ap suc (length-mask_from mkey (i + 1) xs)

pub drop-cons {ℓ} :
    {A : Type ℓ} (n : ℕ) (xs : List A) (y : A) (ys : List A)
    → drop n xs ≡ y ∷ ys
    → (get_elem? xs n ≡ some y) × (drop (suc n) xs ≡ ys)
drop-cons zero [] y ys e = cc
drop-cons zero (x ∷ xs) y ys e = ground arith
drop-cons (suc n) [] y ys e = cc
drop-cons (suc n) (x ∷ xs) y ys e = drop-cons n xs y ys e

key_byte : (mkey : List ℕ) (i : ℕ) → All (λ k. k < 256) mkey → get_or mkey i 0 < 256
key_byte [] i h = omega arith
key_byte (k ∷ ks) zero h = h.0
key_byte (k ∷ ks) (suc i) h = key_byte ks i h.1

-- Where masked bytes stand at `at`, the loop finds the bytes that were masked.
pub unmask-mask_from :
    (mkey payload rest memory : List ℕ) (i at : ℕ)
    → All (λ k. k < 256) mkey
    → All (λ x. x < 256) payload
    → drop at memory ≡ mask_from mkey i payload ++ rest
    → unmask (length payload) memory mkey i at ≡ returned payload
unfolding unmask
unmask-mask_from mkey [] rest memory i at hk hp e = refl
unmask-mask_from mkey (x ∷ xs) rest memory i at hk hp e =
    let here = drop-cons at memory _ _ e in
    let next : drop (at + 1) memory ≡ mask_from mkey (i + 1) xs ++ rest =
      ap (λ n. drop n memory) (let one : at + 1 ≡ suc at = omega arith in one) ∙ here.1 in
    rw (here.0, unmask-mask_from mkey xs rest memory (i + 1) (at + 1) hk hp.1 next)
      (ap (λ t. returned (t ∷ xs))
        (bit_xor_twice x (get_or mkey (i % 4) 0) hp.0 (key_byte mkey (i % 4) hk)))
