-- ===== src/Http/Response/Digits.antt =====
-- The decimal numbers that src/server/http_response.cpp prints are read back.
use chat_room.Common.{
  ℕ, zero, suc, ◌+◌, ◌-◌, ◌*◌, ◌/◌, ◌%◌, ◌<◌, true, [], ◌∷◌, ◌++◌, ltb, ◌≡◌, refl, ap, ◌∙◌, inl,
  inr, Bool-cases, arith, All, All-append,
}
use chat_room.Common.Text.{Bytes}
use chat_room.Http.Request.Text.{is_digit, digits_value}
use chat_room.Http.Response.{digits}

-- A number of digits is read as the number that they stand for.
pub digits_value-append :
    (n : ℕ) (s t : Bytes)
    → All (λ c. is_digit c ≡ true) s
    → digits_value n (s ++ t) ≡ digits_value (digits_value n s) t
unfolding digits_value
digits_value-append n [] t h = refl
digits_value-append n (c ∷ s) t h = rw h.0 (digits_value-append (n * 10 + (c - 48)) s t h.1)

pub digit_lem : (n : ℕ) → n < 10 → is_digit (48 + n) ≡ true
digit_lem n h = ground (arith, h)

pub digits-AreDigits : (fuel n : ℕ) → All (λ c. is_digit c ≡ true) (digits fuel n)
unfolding digits
digits-AreDigits zero n = tt
digits-AreDigits (suc fuel) n = elim (Bool-cases (ltb n 10)) [
  | inl e ↦ rw e (digit_lem n (ground (arith, e)), tt)
  | inr e ↦ rw e (
      All-append (λ c. is_digit c ≡ true) (digits fuel (n / 10)) ((48 + n % 10) ∷ [])
        (digits-AreDigits fuel (n / 10)) (digit_lem (n % 10) (omega arith), tt))
]

pub last_digit : (a d : ℕ) → d < 10 → digits_value a ((48 + d) ∷ []) ≡ a * 10 + d
unfolding digits_value
last_digit a d h = rw (digit_lem d h) (omega arith)

-- 10 to a power.
abbrev pub limit : ℕ → ℕ
limit zero = 1
limit (suc k) = 10 * limit k

pub digits_value-digits : (fuel n : ℕ) → n < limit fuel → digits_value 0 (digits fuel n) ≡ n
unfolding digits digits_value
digits_value-digits zero n h = omega (arith, h)
digits_value-digits (suc fuel) n h = elim (Bool-cases (ltb n 10)) [
  | inl e ↦ rw e (last_digit 0 n (ground (arith, e)) ∙ omega arith)
  | inr e ↦ rw e (
      digits_value-append 0 (digits fuel (n / 10)) ((48 + n % 10) ∷ [])
        (digits-AreDigits fuel (n / 10))
      ∙ ap (λ a. digits_value a ((48 + n % 10) ∷ []))
          (digits_value-digits fuel (n / 10) (omega (arith, h)))
      ∙ last_digit (n / 10) (n % 10) (omega arith)
      ∙ omega arith)
]
