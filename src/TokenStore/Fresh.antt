-- ===== src/TokenStore/Fresh.antt =====
-- Tokens are distinct, and a token is good for its user until it is revoked.
use chat_room.Common.{
  ℕ, zero, suc, ◌+◌, ◌*◌, ◌/◌, ◌%◌, ◌^◌, ◌≤◌, ◌<◌, ◌≡◌, refl, sym, ap, ◌∙◌, bit_and, false, inl,
  inr, List, [], ◌∷◌, arith, length, get_or, drop, ◌==◌, add64, if◌then◌else◌, Bool-cases,
}
use native.Mathlib.Nat.{div-div-eq-div-mul, pow-suc}
use chat_room.Common.Bits.{agree_below, on_bytes, bit_and_low_nibble}
use chat_room.Common.Text.{Bytes, text_eq, text_eq_iff, text_eq_refl}
use chat_room.Common.Dict
use chat_room.Common.Dict.{lookup-insert, lookup-erase, has-lookup, has-insert, has-erase}
use chat_room.Common.Keys.{text_key}
use chat_room.TokenStore.{TokenStore, init, hex, hex_digits, make_token, issue, lookup, revoke}

-- The value of a hexadecimal digit.
abbrev digit_from : ℕ → Bytes → ℕ → ℕ
digit_from c [] i = 0
digit_from c (d ∷ ds) i = let rest = digit_from c ds (suc i) in if c == d then i else rest

digit_of : ℕ → ℕ
digit_of c = digit_from c hex 0

digit_hex : (x : ℕ) → digit_of (get_or hex (bit_and x 0xf) 0) ≡ x % 16
unfolding agree_below digit_of
digit_hex x =
    ap (λ t. digit_of (get_or hex t 0)) (bit_and_low_nibble x ∙ same)
    ∙ (on_bytes (λ t. digit_of (get_or hex (t % 16) 0)) (λ t. t % 16) refl (x % 16) (omega arith)
        ∙ omega arith)
  where
    same : x % 16 ≡ x % 16 % 16
    same = omega arith

-- The number that hexadecimal digits write, after the digits of `v`.
hex_value : ℕ → Bytes → ℕ
hex_value v [] = v
hex_value v (d ∷ ds) = hex_value (v * 16 + digit_of d) ds

split_power : (k : ℕ) → 2 ^ (suc k * 4) ≡ 2 ^ (k * 4) * 16
split_power k =
    let e : suc k * 4 ≡ suc (suc (suc (suc (k * 4)))) = omega arith in
    ap (λ (t : ℕ). 2 ^ t) e
    ∙ omega (
      arith,
      pow-suc 2 (k * 4),
      pow-suc 2 (suc (k * 4)),
      pow-suc 2 (suc (suc (k * 4))),
      pow-suc 2 (suc (suc (suc (k * 4)))),
    )

split_digit : (x k : ℕ) → x / 2 ^ (suc k * 4) ≡ x / 2 ^ (k * 4) / 16
split_digit x k =
    ap (λ (t : ℕ). x / t) (split_power k) ∙ sym (div-div-eq-div-mul x (2 ^ (k * 4)) 16)

hex_value-hex_digits : (x k : ℕ) → hex_value (x / 2 ^ (k * 4)) (hex_digits k x) ≡ x
unfolding hex_digits hex_value
hex_value-hex_digits x zero = omega arith
hex_value-hex_digits x (suc k) =
    let e : x / 2 ^ (suc k * 4) * 16 + digit_of (get_or hex (bit_and (x / 2 ^ (k * 4)) 0xf) 0)
        ≡ x / 2 ^ (k * 4) =
      rw (digit_hex (x / 2 ^ (k * 4)), split_digit x k) (omega arith) in
    ap (λ t. hex_value t (hex_digits k x)) e ∙ hex_value-hex_digits x k

-- A token writes its number.
token_value : (n : ℕ) → n < 2 ^ 64 → hex_value 0 (drop 4 (make_token n)) ≡ n
unfolding make_token
token_value n h =
    let e : n / 2 ^ 64 ≡ 0 = omega (arith, h) in
    ap (λ t. hex_value t (hex_digits 16 n)) (sym e) ∙ hex_value-hex_digits n 16

pub make_token_injective : (n m : ℕ) → n < 2 ^ 64 → m < 2 ^ 64 → make_token n ≡ make_token m → n ≡ m
make_token_injective n m hn hm e =
    sym (token_value n hn) ∙ ap (λ t. hex_value 0 (drop 4 t)) e ∙ token_value m hm

-- No token of a number that is still to come is in the store.
abbrev pub IsFresh : TokenStore → Type 0
IsFresh s = (k : ℕ) → s.counter < k → k < 2 ^ 64 → Dict.has (make_token k) s.tok2user ≡ false

pub init-IsFresh : IsFresh init
unfolding Dict.has
init-IsFresh k h w = refl

pub issued : (s : TokenStore) → s.counter + 1 < 2 ^ 64 → add64 s.counter 1 ≡ s.counter + 1
issued s b = omega (arith, b)

module _ (s : TokenStore) (v : IsFresh s) where
  issue-IsFresh : (user : Bytes) → s.counter + 1 < 2 ^ 64 → IsFresh (issue user s).1
  unfolding issue
  issue-IsFresh user b k h w = rw (issued s b) (
      rw (has-insert (make_token (s.counter + 1)) (make_token k) user s.tok2user)
        (elim (Bool-cases (text_eq (make_token (s.counter + 1)) (make_token k))) [
          | inl e ↦ ground (
            arith,
            make_token_injective (s.counter + 1) k b w
                ((text_eq_iff (make_token (s.counter + 1)) (make_token k)).0 e),
          )
          | inr e ↦ rw e (v k (omega (arith, h)) w)
        ]))

  revoke-IsFresh : (t : Bytes) → IsFresh (revoke t s)
  unfolding revoke
  revoke-IsFresh t k h w = rw (has-erase t (make_token k) s.tok2user) (ground (arith, v k h w))

-- The calls that change the store.
pub data Op : Type 0 where
  issue_op : Bytes → Op
  revoke_op : Bytes → Op

abbrev pub step : Op → TokenStore → TokenStore
step (issue_op user) s = (issue user s).1
step (revoke_op t) s = revoke t s

abbrev pub run : List Op → TokenStore → TokenStore
run [] s = s
run (op ∷ ops) s = run ops (step op s)

pub lookup-revoke :
    (t u : Bytes) (s : TokenStore)
    → lookup t (revoke u s) ≡ (if text_eq u t then [] else lookup t s)
unfolding lookup revoke
lookup-revoke t u s =
    rw (lookup, lookup-erase u t s.tok2user)
      (elim (Bool-cases (text_eq u t)) [ inl e ↦ rw e refl | inr e ↦ rw e refl ])

pub revoke_counter : (t : Bytes) (s : TokenStore) → (revoke t s).counter ≡ s.counter
unfolding revoke
revoke_counter t s = refl

pub issue_counter :
    (user : Bytes) (s : TokenStore)
    → s.counter + 1 < 2 ^ 64
    → (issue user s).1.counter ≡ s.counter + 1
unfolding issue
issue_counter user s b = issued s b

-- A token of a number that was given out is not given out again.
pub lookup-issue_old :
    (user : Bytes) (k : ℕ) (s : TokenStore)
    → k ≤ s.counter
    → s.counter + 1 < 2 ^ 64
    → lookup (make_token k) (issue user s).1 ≡ lookup (make_token k) s
unfolding issue lookup
lookup-issue_old user k s h b = rw (issued s b) (
    rw (lookup, lookup-insert (make_token (s.counter + 1)) (make_token k) user s.tok2user)
      (elim (Bool-cases (text_eq (make_token (s.counter + 1)) (make_token k))) [
        | inl e ↦ ground (
          arith,
          make_token_injective (s.counter + 1) k b (omega (arith, h, b))
              ((text_eq_iff (make_token (s.counter + 1)) (make_token k)).0 e),
        )
        | inr e ↦ rw e refl
      ]))

lookup-run_dead :
    (ops : List Op) (k : ℕ) (s : TokenStore)
    → k ≤ s.counter
    → s.counter + length ops < 2 ^ 64
    → lookup (make_token k) s ≡ []
    → lookup (make_token k) (run ops s) ≡ []
lookup-run_dead [] k s h b e = e
lookup-run_dead (issue_op user ∷ ops) k s h b e =
    let c : s.counter + 1 < 2 ^ 64 = omega (arith, b) in
    lookup-run_dead ops k (issue user s).1 (rw (issue_counter user s c) (omega (arith, h)))
      (rw (issue_counter user s c) (omega (arith, b))) (lookup-issue_old user k s h c ∙ e)
lookup-run_dead (revoke_op t ∷ ops) k s h b e =
    lookup-run_dead ops k (revoke t s) (rw (revoke_counter t s) h)
      (rw (revoke_counter t s) (omega (arith, b)))
      (lookup-revoke (make_token k) t s ∙ (ground (arith, e)))

-- A token that was given out and then revoked names nobody after any later calls of issue and
-- revoke, where the tokens given out so far and the later calls are fewer than 2^64 together.
pub lookup-run-revoke :
    (ops : List Op) (k : ℕ) (s : TokenStore)
    → k ≤ s.counter
    → s.counter + length ops < 2 ^ 64
    → lookup (make_token k) (run ops (revoke (make_token k) s)) ≡ []
lookup-run-revoke ops k s h b =
    lookup-run_dead ops k (revoke (make_token k) s) (rw (revoke_counter (make_token k) s) h)
      (rw (revoke_counter (make_token k) s) b)
      (lookup-revoke (make_token k) (make_token k) s ∙ rw (text_eq_refl (make_token k)) refl)

-- From a store in which no token of a number still to come stands, any calls of issue and revoke
-- reach such a store, where the tokens given out so far and the calls are fewer than 2^64 together.
pub run-IsFresh :
    (ops : List Op) (s : TokenStore)
    → IsFresh s
    → s.counter + length ops < 2 ^ 64
    → IsFresh (run ops s)
run-IsFresh [] s v b = v
run-IsFresh (issue_op user ∷ ops) s v b =
    let c : s.counter + 1 < 2 ^ 64 = omega (arith, b) in
    run-IsFresh ops (issue user s).1 (issue-IsFresh s v user c)
      (rw (issue_counter user s c) (omega (arith, b)))
run-IsFresh (revoke_op t ∷ ops) s v b =
    run-IsFresh ops (revoke t s) (revoke-IsFresh s v t) (rw (revoke_counter t s) (omega (arith, b)))
