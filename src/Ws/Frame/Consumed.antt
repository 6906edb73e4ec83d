-- ===== src/Ws/Frame/Consumed.antt =====
-- What tryDecode of src/server/ws_frame.cpp gives as consumed: an int of 32 bits.
use chat_room.Common.{
  ℕ, ◌+◌, ◌^◌, ◌%◌, ◌<◌, Bool, true, false, not, Option, none, some, List, ◌==◌, if◌then◌else◌, ltb,
  add64, bit_and, bit_or, inl, inr, Bool-cases, arith,
}
use chat_room.Common.Int.{ℤ, pos, negsuc, to_int32}
use chat_room.Ws.Frame.{
  Outcome, returned, out_of_bounds, length_error, ◌>>=◌, DecodeResult, read_at, unmask,
  read_payload, read_mask, read_length, after_length, try_decode, max_vector,
}

-- What holds of a result, where the call gives one.
abbrev pub Yields {ℓ} : {A : Type ℓ} → (A → Type 0) → Outcome A → Type 0
Yields P (returned a) = P a
Yields P out_of_bounds = Unit
Yields P length_error = Unit

Yields-any {ℓ κ} :
    {A : Type ℓ} {B : Type κ} (Q : B → Type 0) (o : Outcome A) (f : A → Outcome B)
    → ((a : A) → Yields Q (f a))
    → Yields Q (o >>= f)
Yields-any Q (returned a) f h = h a
Yields-any Q out_of_bounds f h = tt
Yields-any Q length_error f h = tt

Yields-either {ℓ} :
    {A : Type ℓ} (P : A → Type 0) (b : Bool) (r s : Outcome A)
    → Yields P r
    → Yields P s
    → Yields P (if b then r else s)
Yields-either P true r s hr hs = hr
Yields-either P false r s hr hs = hs

-- At least -2^31.
abbrev pub IsInt : ℤ → Type 0
IsInt (pos n) = Unit
IsInt (negsuc n) = n < 2 ^ 31

to_int32-IsInt : (n : ℕ) → IsInt (to_int32 n)
to_int32-IsInt n = elim (Bool-cases (ltb (n % 2 ^ 32) (2 ^ 31))) [
  | inl e ↦ rw e tt
  | inr e ↦ rw e (ground (arith, e))
]

abbrev FitsInt : DecodeResult → Type 0
FitsInt r = IsInt r.consumed

read_payload-FitsInt :
    (memory : List ℕ) (len : ℕ) (fin : Bool) (opcode : ℕ) (key : List ℕ) (at plen : ℕ)
    → Yields FitsInt (read_payload memory len fin opcode key at plen)
unfolding read_payload
read_payload-FitsInt memory len fin opcode key at plen =
    Yields-either FitsInt (ltb len (add64 at plen)) _ _ (omega arith) (
      Yields-either FitsInt (ltb max_vector plen) _ _ tt (
        Yields-any FitsInt (unmask plen memory key 0 at) _
          (λ payload. to_int32-IsInt (add64 at plen))))

read_mask-FitsInt :
    (memory : List ℕ) (len : ℕ) (fin : Bool) (opcode mask at plen : ℕ)
    → Yields FitsInt (read_mask memory len fin opcode mask at plen)
unfolding read_mask
read_mask-FitsInt memory len fin opcode mask at plen =
    Yields-either FitsInt (mask == 1) _ _
      (Yields-any FitsInt (read_at memory at) _ (λ k0.
        Yields-any FitsInt (read_at memory (at + 1)) _ (λ k1.
          Yields-any FitsInt (read_at memory (at + 2)) _ (λ k2.
            Yields-any FitsInt (read_at memory (at + 3)) _
              (λ k3. read_payload-FitsInt memory len fin opcode _ (at + 4) plen)))))
      tt

after_length-FitsInt :
    (memory : List ℕ) (len : ℕ) (fin : Bool) (opcode mask : ℕ) (step : Option (ℕ × ℕ))
    → Yields FitsInt (after_length memory len fin opcode mask step)
after_length-FitsInt memory len fin opcode mask none = omega arith
after_length-FitsInt memory len fin opcode mask (some (at, plen)) =
    read_mask-FitsInt memory len fin opcode mask at plen

pub try_decode-IsInt :
    (memory : List ℕ) (len : ℕ) → Yields (λ r. IsInt r.consumed) (try_decode memory len)
unfolding try_decode
try_decode-IsInt memory len = Yields-either FitsInt (ltb len 2) _ _ (omega arith) (
    Yields-any FitsInt (read_at memory 0) _ (λ b0.
      Yields-either FitsInt (not (bit_or (bit_and b0 0x70) 0x8f == 0x8f)) _ _ tt (
        Yields-any FitsInt (read_at memory 1) _ (λ b1.
          Yields-any FitsInt (read_length memory len (bit_and b1 0x7f)) _
            (λ step. after_length-FitsInt memory len _ _ _ step)))))
