-- ===== src/Web/Io/Drain.antt =====
-- The loop over send that both kinds of connection have, with a kernel that takes bytes at every call.
use chat_room.Common.{
  ℕ, zero, suc, ◌≤◌, ◌<◌, false, [], ◌++◌, ◌==◌, ==_iff, if◌then◌else◌, ◌≡◌, refl, sym, ap, ◌∙◌,
  inl, inr, Bool-cases, arith, length, take, drop, take-append-drop, append_assoc, append-nil,
  length-eq-zero,
}
use chat_room.Common.Text.{Bytes}
use chat_room.Common.Run.{Run, done}
use chat_room.Buffer
use chat_room.Buffer.{Buffer, IsValid}
use chat_room.Buffer.View.{consume-IsValid, view-consume, readable-length}
use chat_room.Tcp.Io.{Sent, sent, send_again, send_failed, WriteEnd, emptied, would_block, broken}
use chat_room.Tcp.Loops.{readable-consume}
use chat_room.Web.Io.{flush}

-- send takes at least one byte from the front of what it is offered; `before` and `after` are what it
-- has taken.
abbrev pub TakesSome : Bytes → Bytes → Bytes → Sent → Type 0
TakesSome bytes before after (sent m) =
    (1 ≤ m) × (m ≤ length bytes) × (after ≡ before ++ take m bytes)
TakesSome bytes before after send_again = ⊥
TakesSome bytes before after send_failed = ⊥

module _ {κ} {K : Type κ} (send_to : K → Bytes → Sent × K) (out : K → Bytes)
    (law : (k : K) (bytes : Bytes)
      → 1 ≤ length bytes
      → TakesSome bytes (out k) (out (send_to k bytes).1) (send_to k bytes).0) where
  -- The loop ends with the buffer empty, and all that was in it taken in order.
  abbrev pub Drains : ℕ → K → Buffer → Type κ
  Drains n k b =
      (l : K) × (c : Buffer) × (flush send_to n k b ≡ done (emptied, c, l))
      × (out l ≡ out k ++ Buffer.view b)
      × (Buffer.view c ≡ [])

  pub flush-Drains :
      (n : ℕ) (k : K) (b : Buffer) → IsValid b → Buffer.readable_bytes b < n → Drains n k b
  unfolding flush
  flush-Drains zero k b v h = absurd (omega (arith, h))
  flush-Drains (suc n) k b v h = elim (Bool-cases (Buffer.readable_bytes b == 0)) [
    | inl e ↦
        let nothing : Buffer.view b ≡ [] =
          length-eq-zero (Buffer.view b)
            (sym (readable-length b v) ∙ (==_iff (Buffer.readable_bytes b) 0).0 e) in
        (
          k,
          b,
          rw (flush, e) refl,
          sym (append-nil (out k)) ∙ ap (λ t. out k ++ t) (sym nothing),
          nothing,
        )
    | inr e ↦
        let some_left : 1 ≤ length (Buffer.view b) = ground (arith, readable-length b v, e) in
        let r =
          round (send_to k (Buffer.view b)).0 (send_to k (Buffer.view b)).1
            (law k (Buffer.view b) some_left) (λ l c w g. flush-Drains n l c w g) in
        (r.0, r.1, rw (flush, e) r.2, r.3, r.4)
  ]
    where
      round :
          (t : Sent) (l : K)
          → TakesSome (Buffer.view b) (out k) (out l) t
          → ((l : K) (c : Buffer) → IsValid c → Buffer.readable_bytes c < n → Drains n l c)
          → (j : K) × (c : Buffer) × ((elim t as (λ t. Run (WriteEnd × Buffer × K)) [
            | sent m ↦
                (let rest = flush send_to n l (Buffer.consume m b) in
                  if m == 0 then done (broken, b, l) else rest)
            | send_again ↦ done (would_block, b, l)
            | send_failed ↦ done (broken, b, l)
          ])
              ≡ done (emptied, c, j))
            × (out j ≡ out k ++ Buffer.view b)
            × (Buffer.view c ≡ [])
      round (sent m) l taken next =
          let left = Buffer.consume m b in
          let positive : (m == 0) ≡ false = ground (arith, taken.0) in
          let size = readable-consume m b v in
          let r =
            next l left (consume-IsValid b v m)
              (omega (arith, size, taken.0, taken.1, h, readable-length b v)) in
          (
            r.0,
            r.1,
            rw positive r.2,
            r.3
                ∙ ap (λ t. t ++ Buffer.view left) taken.2
                ∙ ap (λ t. (out k ++ take m (Buffer.view b)) ++ t) (view-consume b v m)
                ∙ append_assoc (out k) (take m (Buffer.view b)) (drop m (Buffer.view b))
                ∙ ap (λ t. out k ++ t) (take-append-drop m (Buffer.view b)),
            r.4,
          )
      round send_again l taken next = absurd taken
      round send_failed l taken next = absurd taken
