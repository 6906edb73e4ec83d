-- ===== src/Tcp/Delivery.antt =====
-- Who receives a broadcast: what every connection has queued after it.
use chat_room.Common.{
  ℕ, zero, suc, false, some, [], ◌∷◌, ◌==◌, ==_iff, if◌then◌else◌, not, ◌≡◌, ◌≢◌, refl, sym, ap,
  subst, ◌∙◌, inl, inr, Bool-cases, arith, ◌&&◌,
}
use chat_room.Common.Text.{Bytes, text_eq_iff, text_eq_refl}
use chat_room.Common.Dict
use chat_room.Common.Dict.{Dict, IsDistinct, has_of_lookup, has-lookup}
use chat_room.Common.Keys.{text_key}
use chat_room.Buffer
use chat_room.Buffer.{Buffer}
use chat_room.Packet
use chat_room.Packet.{Packet}
use chat_room.Tcp.Users.{Users}
use chat_room.Tcp.World.{World, authenticated, is_authenticated, send, send_each_but, broadcast_but}
use chat_room.Tcp.Sessions.{IsConsistent}
use chat_room.Tcp.Sessions.Closing.{is_authenticated_iff}

-- How many entries stand for a connection that is not null and not the one left out.
abbrev targets : ℕ → ℕ → Users → ℕ
targets x q [] = 0
targets x q ((n, p) ∷ l) =
    let rest = targets x q l in
    if (not (p == 0) && not (p == x)) && (p == q) then suc rest else rest

abbrev queued : ℕ → Packet → Buffer → Buffer
queued zero pkt b = b
queued (suc n) pkt b = queued n pkt (Buffer.append (Packet.encode pkt) b)

send_write_buf_self :
    (p : ℕ) (pkt : Packet) (w : World)
    → ((send p pkt w).heap p).write_buf ≡ Buffer.append (Packet.encode pkt) (w.heap p).write_buf
unfolding send
send_write_buf_self p pkt w = ground (arith, ==_iff p p)

send_write_buf :
    (p q : ℕ) (pkt : Packet) (w : World)
    → ((send p pkt w).heap q).write_buf ≡ (
        if p == q
        then Buffer.append (Packet.encode pkt) (w.heap q).write_buf
        else (w.heap q).write_buf)
unfolding send
send_write_buf p q pkt w = elim (Bool-cases (p == q)) [
  | inl e ↦ rw e (
      subst
        (λ t.
          ((send p pkt w).heap t).write_buf
          ≡ Buffer.append (Packet.encode pkt) (w.heap t).write_buf)
        ((==_iff p q).0 e) (send_write_buf_self p pkt w))
  | inr e ↦ ground (arith, e)
]

send_each_but_write_buf :
    (x q : ℕ) (l : Users) (pkt : Packet) (w : World)
    → ((send_each_but x l pkt w).heap q).write_buf ≡ queued (targets x q l) pkt (w.heap q).write_buf
unfolding send_each_but
send_each_but_write_buf x q [] pkt w = refl
send_each_but_write_buf x q ((n, p) ∷ l) pkt w = elim (Bool-cases (not (p == 0) && not (p == x))) [
  | inl e ↦
      rw (send_each_but, e)
        (send_each_but_write_buf x q l pkt (send p pkt w)
          ∙ ap (queued (targets x q l) pkt) (send_write_buf p q pkt w)
          ∙ elim (Bool-cases (p == q)) [ inl f ↦ rw f refl | inr f ↦ rw f refl ])
  | inr e ↦ rw (send_each_but, e) (send_each_but_write_buf x q l pkt w)
]

-- A connection that no name stands for is no target.
targets_none :
    (x q : ℕ) (l : Users)
    → IsDistinct l
    → ((n : Bytes) → Dict.lookup n l ≢ some q)
    → targets x q l ≡ 0
unfolding Dict.lookup
targets_none x q [] d h = refl
targets_none x q ((m, p) ∷ l) d h =
    let other : (p == q) ≡ false = ground (arith, h m, text_eq_refl m, ==_iff p q) in
    let rest : targets x q l ≡ 0 =
      targets_none x q l d.1
        (λ n e. ground (arith, h n, e, d.0, has_of_lookup n l q e, text_eq_iff m n)) in
    ground (arith, other, rest)

-- A connection that one name stands for is one target, where it is not null and not left out.
targets_one :
    (x q : ℕ) (n : Bytes) (l : Users)
    → IsDistinct l
    → Dict.lookup n l ≡ some q
    → ((m : Bytes) → Dict.lookup m l ≡ some q → m ≡ n)
    → targets x q l ≡ (if not (q == 0) && not (q == x) then 1 else 0)
unfolding Dict.lookup
targets_one x q n [] d e only = ground (arith, e)
targets_one x q n ((m, p) ∷ l) d e only = elim (Bool-cases (p == q)) [
  | inl same ↦
      let here : m ≡ n = only m (ground (arith, same, text_eq_refl m, ==_iff p q)) in
      let rest : targets x q l ≡ 0 =
        targets_none x q l d.1
          (λ k f. ground (arith, only k, f, d.0, has_of_lookup k l q f, text_eq_iff m k, here)) in
      ground (arith, rest, same, ==_iff p q)
  | inr other ↦
      let later : Dict.lookup n l ≡ some q =
        ground (arith, e, other, text_eq_iff m n, ==_iff p q) in
      let rest : targets x q l ≡ (if not (q == 0) && not (q == x) then 1 else 0) =
        targets_one x q n l d.1 later
          (λ k f. only k (ground (arith, f, d.0, has_of_lookup k l q f, text_eq_iff m k))) in
      ground (arith, rest, other)
]

-- A message for everybody but one, where users and connections agree: every other connection that
-- is logged in has the packet's bytes appended to what it had queued, once; every connection that is
-- not logged in, and the one left out, has queued what it had.
pub broadcast_but-Delivers :
    (x q : ℕ) (pkt : Packet) (w : World)
    → IsConsistent w
    → ((broadcast_but x pkt w).heap q).write_buf ≡ (
        if is_authenticated (w.heap q).state && (not (q == 0) && not (q == x))
        then Buffer.append (Packet.encode pkt) (w.heap q).write_buf
        else (w.heap q).write_buf)
unfolding broadcast_but
broadcast_but-Delivers x q pkt w c =
    let b = (w.heap q).write_buf in
    send_each_but_write_buf x q w.users pkt w
    ∙ elim (Bool-cases (is_authenticated (w.heap q).state)) [
      | inl e ↦
          let state : (w.heap q).state ≡ authenticated = is_authenticated_iff (w.heap q).state e in
          let one =
            targets_one x q (w.heap q).username w.users c.distinct (c.to_user q state)
              (λ m f. sym (c.to_conn m q f).1) in
          ap (λ (t : ℕ). queued t pkt b) one ∙ elim (Bool-cases (not (q == 0) && not (q == x))) [
            | inl f ↦ rw (e, f) refl
            | inr f ↦ rw (e, f) refl
          ]
      | inr e ↦
          ap (λ (t : ℕ). queued t pkt b)
            (targets_none x q w.users c.distinct (λ n f. ground (arith, e, (c.to_conn n q f).0)))
          ∙ rw e refl
    ]
