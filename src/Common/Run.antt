-- ===== src/Common/Run.antt =====
-- What a call comes to: a result, an exception that leaves it, or no result within the fuel.
use mathlib.Core.Path.{◌≡◌, refl}
use mathlib.Core.Bool.{Bool, true, false}
use chat_room.Common.Tests.{if◌then◌else◌}
use mathlib.Core.Option.{Option, none, some}

pub data Run {ℓ} (A : Type ℓ) : Type ℓ where
  done : A → Run A
  thrown : Run A
  no_fuel : Run A

infixl 5 ◌>>=◌
abbrev pub ◌>>=◌ {ℓ κ} : {A : Type ℓ} {B : Type κ} → Run A → (A → Run B) → Run B
done a >>= f = f a
thrown >>= f = thrown
no_fuel >>= f = no_fuel

abbrev pub or_throw {ℓ} : {A : Type ℓ} → Option A → Run A
or_throw none = thrown
or_throw (some a) = done a

-- What holds of the result, where there is one.
abbrev pub Returns {ℓ κ} : {A : Type ℓ} → (A → Type κ) → Run A → Type κ
Returns P (done a) = P a
Returns P thrown = Unit
Returns P no_fuel = Unit

-- What holds after a call holds after what continues from there.
pub Returns-bind {ℓ κ ι μ} :
    {A : Type ℓ} {B : Type κ} (P : A → Type ι) (Q : B → Type μ) (r : Run A) (f : A → Run B)
    → Returns P r
    → ((a : A) → P a → Returns Q (f a))
    → Returns Q (r >>= f)
Returns-bind P Q (done a) f hr hf = hf a hr
Returns-bind P Q thrown f hr hf = tt
Returns-bind P Q no_fuel f hr hf = tt

-- What holds of every value holds after a call that gives one.
pub Returns-any {ℓ κ μ} :
    {A : Type ℓ} {B : Type κ} (Q : B → Type μ) (r : Run A) (f : A → Run B)
    → ((a : A) → Returns Q (f a))
    → Returns Q (r >>= f)
Returns-any Q (done a) f hf = hf a
Returns-any Q thrown f hf = tt
Returns-any Q no_fuel f hf = tt

-- Either branch.
pub Returns-either {ℓ κ} :
    {A : Type ℓ} (P : A → Type κ) (b : Bool) (r s : Run A)
    → Returns P r
    → Returns P s
    → Returns P (if b then r else s)
Returns-either P true r s hr hs = hr
Returns-either P false r s hr hs = hs

-- There is a result.
abbrev pub IsDone {ℓ} : {A : Type ℓ} → Run A → Type 0
IsDone (done a) = Unit
IsDone thrown = ⊥
IsDone no_fuel = ⊥

pub IsDone-bind {ℓ κ} :
    {A : Type ℓ} {B : Type κ} (r : Run A) (f : A → Run B)
    → IsDone r
    → ((a : A) → IsDone (f a))
    → IsDone (r >>= f)
IsDone-bind (done a) f hr hf = hf a
IsDone-bind thrown f hr hf = hr
IsDone-bind no_fuel f hr hf = hr

pub IsDone-either {ℓ} :
    {A : Type ℓ} (b : Bool) (r s : Run A) → IsDone r → IsDone s → IsDone (if b then r else s)
IsDone-either true r s hr hs = hr
IsDone-either false r s hr hs = hs

-- The result, where there is one.
pub result_of {ℓ κ} :
    {A : Type ℓ} (P : A → Type κ) (r : Run A)
    → IsDone r
    → Returns P r
    → (a : A) × (r ≡ done a) × P a
result_of P (done a) hr p = (a, refl, p)
result_of P thrown hr p = absurd hr
result_of P no_fuel hr p = absurd hr

-- There is enough fuel, and what holds of the result, unless an exception leaves the call.
abbrev pub Ends {ℓ} : {A : Type ℓ} → (A → Type 0) → Run A → Type 0
Ends P (done a) = P a
Ends P thrown = Unit
Ends P no_fuel = ⊥

pub Ends-bind {ℓ κ} :
    {A : Type ℓ} {B : Type κ} (P : A → Type 0) (Q : B → Type 0) (r : Run A) (f : A → Run B)
    → Ends P r
    → ((a : A) → P a → Ends Q (f a))
    → Ends Q (r >>= f)
Ends-bind P Q (done a) f hr hf = hf a hr
Ends-bind P Q thrown f hr hf = tt
Ends-bind P Q no_fuel f hr hf = absurd hr

pub Ends-or_throw {ℓ κ} :
    {A : Type ℓ} {B : Type κ} (Q : B → Type 0) (o : Option A) (f : A → Run B)
    → ((a : A) → Ends Q (f a))
    → Ends Q (or_throw o >>= f)
Ends-or_throw Q none f hf = tt
Ends-or_throw Q (some a) f hf = hf a

pub Ends-either {ℓ} :
    {A : Type ℓ} (P : A → Type 0) (b : Bool) (r s : Run A)
    → Ends P r
    → Ends P s
    → Ends P (if b then r else s)
Ends-either P true r s hr hs = hr
Ends-either P false r s hr hs = hs

pub Ends-weaken {ℓ} :
    {A : Type ℓ} (P Q : A → Type 0) (r : Run A) → ((a : A) → P a → Q a) → Ends P r → Ends Q r
Ends-weaken P Q (done a) h p = h a p
Ends-weaken P Q thrown h p = tt
Ends-weaken P Q no_fuel h p = p
