-- ===== src/Common/Segments.antt =====
-- Cutting lists, and overwriting a segment of a list as `memcpy` does.
use Prim.Native.Nat.{ℕ, zero, suc, ◌+◌, ◌-◌, ◌≤◌, zero-le}
use mathlib.Core.Path.{◌≡◌, refl, ap, ◌∙◌, sym}
use mathlib.Core.List.{List, [], ◌∷◌, ◌++◌}
use native.Mathlib.Omega.{arith}
use chat_room.Common.Lists.{length, take, drop, length-append, length-take, length-drop}

module _ {ℓ} {A : Type ℓ} where
  pub take-all : (n : ℕ) (xs : List A) → length xs ≤ n → take n xs ≡ xs
  take-all zero [] h = refl
  take-all (suc n) [] h = refl
  take-all zero (x ∷ xs) h = absurd (omega arith)
  take-all (suc n) (x ∷ xs) h = ap (◌∷◌ x) (take-all n xs (omega arith))

  pub drop-all : (n : ℕ) (xs : List A) → length xs ≤ n → drop n xs ≡ []
  drop-all zero [] h = refl
  drop-all (suc n) [] h = refl
  drop-all zero (x ∷ xs) h = absurd (omega arith)
  drop-all (suc n) (x ∷ xs) h = drop-all n xs (omega arith)

  pub take-append : (n : ℕ) (xs ys : List A) → n ≤ length xs → take n (xs ++ ys) ≡ take n xs
  take-append zero xs ys h = refl
  take-append (suc n) [] ys h = absurd (omega arith)
  take-append (suc n) (x ∷ xs) ys h = ap (◌∷◌ x) (take-append n xs ys (omega arith))

  pub take-append_more :
      (n : ℕ) (xs ys : List A) → length xs ≤ n → take n (xs ++ ys) ≡ xs ++ take (n - length xs) ys
  take-append_more n [] ys h = ap (λ k. take k ys) (omega arith)
  take-append_more zero (x ∷ xs) ys h = absurd (omega arith)
  take-append_more (suc n) (x ∷ xs) ys h =
      ap (◌∷◌ x) (take-append_more n xs ys (omega arith) ∙ ap (λ k. xs ++ take k ys) (omega arith))

  pub drop-append : (n : ℕ) (xs ys : List A) → n ≤ length xs → drop n (xs ++ ys) ≡ drop n xs ++ ys
  drop-append zero xs ys h = refl
  drop-append (suc n) [] ys h = absurd (omega arith)
  drop-append (suc n) (x ∷ xs) ys h = drop-append n xs ys (omega arith)

  pub drop-append_more :
      (n : ℕ) (xs ys : List A) → length xs ≤ n → drop n (xs ++ ys) ≡ drop (n - length xs) ys
  drop-append_more n [] ys h = ap (λ k. drop k ys) (omega arith)
  drop-append_more zero (x ∷ xs) ys h = absurd (omega arith)
  drop-append_more (suc n) (x ∷ xs) ys h =
      drop-append_more n xs ys (omega arith) ∙ ap (λ k. drop k ys) (omega arith)

  pub drop-drop : (n m : ℕ) (xs : List A) → drop m (drop n xs) ≡ drop (n + m) xs
  drop-drop zero m xs = ap (λ k. drop k xs) (omega arith)
  drop-drop (suc n) m [] = drop-all m [] zero-le ∙ sym (drop-all (suc n + m) [] zero-le)
  drop-drop (suc n) m (x ∷ xs) =
      drop-drop n m xs
      ∙ ap (λ k. drop k (x ∷ xs)) (let e : suc (n + m) ≡ suc n + m = omega arith in e)

  pub take-take : (n m : ℕ) (xs : List A) → n ≤ m → take n (take m xs) ≡ take n xs
  take-take zero m xs h = refl
  take-take (suc n) zero xs h = absurd (omega arith)
  take-take (suc n) (suc m) [] h = refl
  take-take (suc n) (suc m) (x ∷ xs) h = ap (◌∷◌ x) (take-take n m xs (omega arith))

  pub drop-take : (n m : ℕ) (xs : List A) → drop n (take m xs) ≡ take (m - n) (drop n xs)
  drop-take zero m xs = ap (λ k. take k xs) (omega arith)
  drop-take (suc n) zero [] = sym (take-all (0 - suc n) [] zero-le)
  drop-take (suc n) zero (x ∷ xs) =
      sym (ap (λ k. take k (drop n xs)) (let e : 0 - suc n ≡ 0 = omega arith in e))
  drop-take (suc n) (suc m) [] = sym (take-all (suc m - suc n) [] (omega arith))
  drop-take (suc n) (suc m) (x ∷ xs) =
      drop-take n m xs
      ∙ ap (λ k. take k (drop n xs)) (let e : m - n ≡ suc m - suc n = omega arith in e)

  -- memcpy(target + at, bytes, size): `bytes` replaces what stands from `at` on. The part of the
  -- segment that lies outside of the target is undefined behaviour: the callers' bounds are lemmas.
  unfoldable pub write_at : List A → ℕ → List A → List A
  write_at target at bytes = take at target ++ (bytes ++ drop (at + length bytes) target)

  pub length-write_at :
      (target : List A) (at : ℕ) (bytes : List A)
      → at + length bytes ≤ length target
      → length (write_at target at bytes) ≡ length target
  unfolding write_at
  length-write_at target at bytes h = omega (
    arith,
    length-append (take at target) (bytes ++ drop (at + length bytes) target),
    length-append bytes (drop (at + length bytes) target),
    length-take at target,
    length-drop (at + length bytes) target,
  )

  pub take-write_at :
      (target : List A) (at : ℕ) (bytes : List A)
      → at ≤ length target
      → take (at + length bytes) (write_at target at bytes) ≡ take at target ++ bytes
  unfolding write_at
  take-write_at target at bytes h =
      take-append_more (at + length bytes) (take at target)
        (bytes ++ drop (at + length bytes) target) (omega (arith, length-take at target))
      ∙ ap (◌++◌ (take at target)) (
          ap (λ k. take k (bytes ++ drop (at + length bytes) target))
            (let e : at + length bytes - length (take at target) ≡ length bytes =
                omega (arith, length-take at target) in
              e)
          ∙ (take-append (length bytes) bytes _ (omega arith)
              ∙ take-all (length bytes) bytes (omega arith)))
