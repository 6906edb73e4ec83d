-- ===== src/Web/Io/Receive.antt =====
-- The loop over recv that both kinds of connection have: it ends, and the bytes come in order. `stream` is
-- what the kernel still has for the connection.
use chat_room.Common.{
  ℕ, zero, suc, ◌+◌, ◌^◌, ◌≤◌, ◌<◌, Bool, true, false, [], ◌∷◌, ◌++◌, if◌then◌else◌, ◌≡◌, ap, sym,
  ◌∙◌, arith, length, length-append, append_assoc,
}
use chat_room.Common.Text.{Bytes, is_empty}
use chat_room.Common.Run.{Run, done, Ends, Ends-weaken}
use chat_room.Buffer
use chat_room.Buffer.{Buffer, IsValid}
use chat_room.Buffer.View.{append-IsValid, view-append}
use chat_room.Tcp.Io.{Received, received, recv_again, recv_failed}
use chat_room.Web.Io.{receive, chunk}

-- What recv takes from the front of the stream.
abbrev pub IsReceived : Bytes → Bytes → Received → Type 0
IsReceived before after (received bytes) = before ≡ bytes ++ after
IsReceived before after recv_again = after ≡ before
IsReceived before after recv_failed = after ≡ before

module _ {κ} {K : Type κ} (recv : K → ℕ → Received × K) (stream : K → Bytes)
    (law : (k : K) (n : ℕ) → IsReceived (stream k) (stream (recv k n).1) (recv k n).0) where
  -- What is held and what is to come make up what they made up before.
  abbrev pub IsRead : K → Buffer → Bool × Buffer × K → Type 0
  IsRead k b r = IsValid r.1 × (Buffer.view r.1 ++ stream r.2 ≡ Buffer.view b ++ stream k)

  pub receive-IsRead :
      (n : ℕ) (k : K) (b : Buffer)
      → IsValid b
      → length (Buffer.view b) + length (stream k) ≤ 2 ^ 57
      → length (stream k) < n
      → Ends (IsRead k b) (receive recv n k b)
  unfolding receive
  receive-IsRead zero k b v small h = omega (arith, h)
  receive-IsRead (suc n) k b v small h =
      round (recv k chunk).0 (recv k chunk).1 (law k chunk)
        (λ l c w s g. receive-IsRead n l c w s g)
    where
      round :
          (t : Received) (l : K)
          → IsReceived (stream k) (stream l) t
          → ((l : K) (c : Buffer)
              → IsValid c
              → length (Buffer.view c) + length (stream l) ≤ 2 ^ 57
              → length (stream l) < n
              → Ends (IsRead l c) (receive recv n l c))
          → Ends (IsRead k b) (elim t as (λ t. Run (Bool × Buffer × K)) [
            | received bytes ↦
                (let rest = receive recv n l (Buffer.append bytes b) in
                  if is_empty bytes then done (true, b, l) else rest)
            | recv_again ↦ done (false, b, l)
            | recv_failed ↦ done (true, b, l)
          ])
      round (received []) l e next = (v, ap (λ t. Buffer.view b ++ t) (sym e))
      round (received (x ∷ bytes)) l e next =
          let total : length (stream k) ≡ length (x ∷ bytes) + length (stream l) =
            ap length e ∙ length-append (x ∷ bytes) (stream l) in
          let fits : length (Buffer.view b) + length (x ∷ bytes) ≤ 2 ^ 57 =
            omega (arith, total, small) in
          let more = Buffer.append (x ∷ bytes) b in
          let held : Buffer.view more ≡ Buffer.view b ++ x ∷ bytes =
            view-append (x ∷ bytes) b v fits in
          let size : length (Buffer.view more) ≡ length (Buffer.view b) + length (x ∷ bytes) =
            ap length held ∙ length-append (Buffer.view b) (x ∷ bytes) in
          Ends-weaken (IsRead l more) (IsRead k b) (receive recv n l more)
            (λ r g. (
              g.0,
              g.1
                  ∙ ap (λ t. t ++ stream l) held
                  ∙ append_assoc (Buffer.view b) (x ∷ bytes) (stream l)
                  ∙ ap (λ t. Buffer.view b ++ t) (sym e),
            ))
            (next l more (append-IsValid (x ∷ bytes) b v fits) (omega (arith, size, total, small))
              (omega (arith, total, h)))
      round recv_again l e next = (v, ap (λ t. Buffer.view b ++ t) e)
      round recv_failed l e next = (v, ap (λ t. Buffer.view b ++ t) e)
