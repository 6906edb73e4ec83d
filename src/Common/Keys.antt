-- ===== src/Common/Keys.antt =====
-- Keys with an equality test that decides equality.
use mathlib.Core.Path.{◌≡◌}
use mathlib.Core.Logic.{◌↔◌}
use mathlib.Core.Bool.{Bool, true}
use Prim.Native.Nat.{ℕ}
use chat_room.Common.Tests.{==_iff, ◌==◌ as nat_beq}
use chat_room.Common.Text.{Bytes, text_eq, text_eq_iff}

pub record Eq {ℓ} (A : Type ℓ) : Type ℓ where
  pub beq : A → A → Bool
  pub beq_iff : (a b : A) → (beq a b ≡ true) ↔ (a ≡ b)

instance abbrev pub nat_key : Eq ℕ
nat_key = record { beq = nat_beq; beq_iff = ==_iff }

instance abbrev pub text_key : Eq Bytes
text_key = record { beq = text_eq; beq_iff = text_eq_iff }
