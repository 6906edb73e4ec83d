-- ===== src/Common/Bits.antt =====
-- Laws of the bit operations at variables: by tables over a byte, and from the digit recursion.
use Prim.Native.Nat.{
  ℕ, zero, suc, ◌+◌, ◌*◌, ◌/◌, ◌%◌, ◌^◌, ◌≤◌, ◌<◌, max, bit_and, bit_or, bit_xor, digits, bitwise,
  bit_or-bitwise, bit_and-bitwise, min,
}
use mathlib.Core.Path.{◌≡◌, refl, ap, sym, subst, ◌∙◌}
use mathlib.Core.Logic.{inl, inr}
use mathlib.Core.Bool.{Bool, true, ◌&&◌}
use native.Mathlib.Omega.{arith}
use native.Mathlib.Nat.{pow-suc}
use chat_room.Common.Tests.{◌==◌, ==_iff, Bool-cases, and_true}

-- Two functions compared at the numbers below a bound, by evaluation.
unfoldable pub agree_below : (ℕ → ℕ) → (ℕ → ℕ) → ℕ → Bool
agree_below f g zero = true
agree_below f g (suc n) = agree_below f g n && f n == g n

at_number : (f g : ℕ → ℕ) (n x : ℕ) → x < n → agree_below f g n ≡ true → f x ≡ g x
unfolding agree_below
at_number f g zero x small table = absurd (omega arith)
at_number f g (suc n) x small table = ground (arith, at_number f g n x, ==_iff (f n) (g n))

-- Two functions that agree on every byte.
pub on_bytes : (f g : ℕ → ℕ) → agree_below f g 256 ≡ true → (x : ℕ) → x < 256 → f x ≡ g x
on_bytes f g table x small = at_number f g 256 x small table

-- x ^ k ^ k is x, for every byte x and every key k below a bound.
xor_tables : ℕ → Bool
xor_tables zero = true
xor_tables (suc k) = agree_below (λ x. bit_xor (bit_xor x k) k) (λ x. x) 256 && xor_tables k

xor_table :
    (n k : ℕ)
    → k < n
    → xor_tables n ≡ true
    → agree_below (λ x. bit_xor (bit_xor x k) k) (λ x. x) 256 ≡ true
unfolding xor_tables
xor_table zero k small tables = absurd (omega arith)
xor_table (suc n) k small tables = elim (Bool-cases (k == n)) [
  | inl e ↦
      let same : k ≡ n = ground (arith, ==_iff k n) in
      subst (λ m. agree_below (λ x. bit_xor (bit_xor x m) m) (λ x. x) 256 ≡ true) (sym same)
        (and_true tables).0
  | inr e ↦ xor_table n k (ground (arith, ==_iff k n)) (and_true tables).1
]

all_keys : xor_tables 256 ≡ true
unfolding xor_tables agree_below
all_keys = refl

pub bit_xor_twice : (x k : ℕ) → x < 256 → k < 256 → bit_xor (bit_xor x k) k ≡ x
bit_xor_twice x k byte key =
    at_number (λ x. bit_xor (bit_xor x k) k) (λ x. x) 256 x byte (xor_table 256 k key all_keys)

-- The law for the lowest digit, of every operation that the library defines digit by digit.
module _ (z : ℕ → ℕ) (f : ℕ → ℕ → ℕ) (out : (b : ℕ) → z b ≡ z (b / 2) * 2 + f 0 (b % 2)) where
  digits_enough : (n m a b : ℕ) → a ≤ n → a ≤ m → digits z f n a b ≡ digits z f m a b
  digits_enough zero zero a b p q = refl
  digits_enough zero (suc m) zero b p q = refl
  digits_enough (suc n) zero zero b p q = refl
  digits_enough (suc n) (suc m) zero b p q = refl
  digits_enough zero (suc m) (suc a) b p q = absurd (omega arith)
  digits_enough (suc n) zero (suc a) b p q = absurd (omega arith)
  digits_enough (suc n) (suc m) (suc a) b p q =
      ap (λ t. t * 2 + f (suc a % 2) (b % 2))
        (digits_enough n m (suc a / 2) (b / 2) (omega arith) (omega arith))

  bitwise_step : (a b : ℕ) → bitwise z f a b ≡ bitwise z f (a / 2) (b / 2) * 2 + f (a % 2) (b % 2)
  bitwise_step zero b = out b
  bitwise_step (suc a) b =
      ap (λ t. t * 2 + f (suc a % 2) (b % 2))
        (digits_enough a (suc a / 2) (suc a / 2) (b / 2) (omega arith) (omega arith))

pub bit_or_step : (a b : ℕ) → bit_or a b ≡ bit_or (a / 2) (b / 2) * 2 + max (a % 2) (b % 2)
bit_or_step a b =
    bit_or-bitwise a b
    ∙ (bitwise_step (λ b. b) max (λ b. omega arith) a b
        ∙ ap (λ t. t * 2 + max (a % 2) (b % 2)) (sym (bit_or-bitwise (a / 2) (b / 2))))

pub bit_and_step : (a b : ℕ) → bit_and a b ≡ bit_and (a / 2) (b / 2) * 2 + min (a % 2) (b % 2)
bit_and_step a b =
    bit_and-bitwise a b
    ∙ (bitwise_step (λ b. zero) min (λ b. omega arith) a b
        ∙ ap (λ t. t * 2 + min (a % 2) (b % 2)) (sym (bit_and-bitwise (a / 2) (b / 2))))

-- Both operations with 0 on the right, by halving; `n` bounds the number.
zero_right : (n a : ℕ) → a ≤ n → (bit_or a 0 ≡ a) × (bit_and a 0 ≡ 0)
zero_right n zero h = (refl, refl)
zero_right zero (suc a) h = absurd (omega arith)
zero_right (suc n) (suc a) h =
    let half = zero_right n (suc a / 2) (omega arith) in
    (omega (arith, bit_or_step (suc a) 0, half.0), omega (arith, bit_and_step (suc a) 0, half.1))

pub bit_or-zero : (a : ℕ) → bit_or a 0 ≡ a
bit_or-zero a = (zero_right a a (omega arith)).0

-- A mask of k ones keeps the k lowest digits.
ones : ℕ → ℕ
ones zero = 0
ones (suc k) = ones k * 2 + 1

half_ones : (k : ℕ) → (ones (suc k) / 2 ≡ ones k) × (ones (suc k) % 2 ≡ 1)
unfolding ones
half_ones k = (omega arith, omega arith)

bit_and-ones :
    (k a : ℕ) → (r : ℕ) × (a ≡ r * 2 ^ k + bit_and a (ones k)) × (bit_and a (ones k) < 2 ^ k)
unfolding ones
bit_and-ones zero a = (
  a,
  omega (arith, (zero_right a a (omega arith)).1),
  omega (arith, (zero_right a a (omega arith)).1),
)
bit_and-ones (suc k) a =
    let ih = bit_and-ones k (a / 2) in
    let step : bit_and a (ones (suc k)) ≡ bit_and (a / 2) (ones k) * 2 + a % 2 =
      bit_and_step a (ones (suc k))
      ∙ omega (arith, ap (bit_and (a / 2)) (half_ones k).0, (half_ones k).1) in
    (
      ih.0,
      omega (arith, step, ih.1, pow-suc 2 k, ap (λ (t : ℕ). ih.0 * t) (pow-suc 2 k)),
      omega (arith, step, ih.2, pow-suc 2 k),
    )

-- x & 0xff
pub bit_and_low_eight : (x : ℕ) → bit_and x 0xff ≡ x % 256
unfolding ones
bit_and_low_eight x = let h = bit_and-ones 8 x in omega (arith, h.1, h.2)

-- x & 0xf
pub bit_and_low_nibble : (x : ℕ) → bit_and x 0xf ≡ x % 16
unfolding ones
bit_and_low_nibble x = let h = bit_and-ones 4 x in omega (arith, h.1, h.2)

mul-pow-suc : (a k : ℕ) → a * 2 ^ suc k ≡ a * 2 ^ k * 2
mul-pow-suc a k = omega (arith, ap (λ (t : ℕ). a * t) (pow-suc 2 k))

half-mul-pow : (a k : ℕ) → a * 2 ^ suc k / 2 ≡ a * 2 ^ k
half-mul-pow a k = omega (arith, mul-pow-suc a k)

-- (a << k) | b, where b has k bits.
pub bit_or_shift : (k a b : ℕ) → b < 2 ^ k → bit_or (a * 2 ^ k) b ≡ a * 2 ^ k + b
bit_or_shift zero a zero h = omega (arith, bit_or-zero (a * 2 ^ 0))
bit_or_shift zero a (suc b) h = absurd (omega arith)
bit_or_shift (suc k) a b h = omega (
  arith,
  bit_or_step (a * 2 ^ suc k) b,
  mul-pow-suc a k,
  ap (λ t. bit_or t (b / 2)) (half-mul-pow a k),
  bit_or_shift k a (b / 2) (omega (arith, pow-suc 2 k)),
)
