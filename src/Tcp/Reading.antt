-- ===== src/Tcp/Reading.antt =====
-- What a packet leaves alone: the read buffer of every connection. Each handler ends, with a result
-- or with an exception.
use chat_room.Common.{
  ℕ, Bool, true, false, Option, none, some, [], ◌∷◌, ◌==◌, ==_iff, not, ◌≡◌, refl, ◌∙◌, inl, inr,
  Bool-cases, arith, ◌&&◌,
}
use chat_room.Common.Text.{Bytes, codes, is_empty}
use chat_room.Common.Keys.{nat_key, text_key}
use chat_room.Common.Run.{
  Run, done, thrown, no_fuel, ◌>>=◌, or_throw, Ends, Ends-bind, Ends-or_throw, Ends-either,
}
use chat_room.Json.{Json}
use chat_room.Packet
use chat_room.Packet.{Packet}
use chat_room.Reactor.{remove_fd}
use chat_room.Tcp.Users
use chat_room.Tcp.Users.{Users}
use chat_room.Tcp.World.{
  World, is_authenticated, is_closed, set_username, send, send_each, send_each_but, broadcast,
  broadcast_but,
}
use chat_room.Tcp.Handler.{
  remove_managed, remove_user, finish_close, dumped, send_ack, broadcast_system,
  broadcast_user_list, on_close, close, login_as, handle_login, say, handle_chat, tell,
  handle_private, handle_user_list, handle_ping, handle_log_out, on_packet,
}

abbrev pub SameReads : World → World → Type 0
SameReads v w = (q : ℕ) → (w.heap q).read_buf ≡ (v.heap q).read_buf

send-SameReads : (p : ℕ) (pkt : Packet) (w : World) → SameReads w (send p pkt w)
unfolding send
send-SameReads p pkt w q = ground (arith, ==_iff p q)

send_each-SameReads : (l : Users) (pkt : Packet) (w : World) → SameReads w (send_each l pkt w)
unfolding send_each
send_each-SameReads [] pkt w q = refl
send_each-SameReads ((n, p) ∷ l) pkt w q = elim (Bool-cases (p == 0)) [
  | inl e ↦ rw (send_each, e) (send_each-SameReads l pkt w q)
  | inr e ↦
      rw (send_each, e) (send_each-SameReads l pkt (send p pkt w) q ∙ send-SameReads p pkt w q)
]

send_each_but-SameReads :
    (x : ℕ) (l : Users) (pkt : Packet) (w : World) → SameReads w (send_each_but x l pkt w)
unfolding send_each_but
send_each_but-SameReads x [] pkt w q = refl
send_each_but-SameReads x ((n, p) ∷ l) pkt w q = elim (Bool-cases (not (p == 0) && not (p == x))) [
  | inl e ↦
      rw (send_each_but, e)
        (send_each_but-SameReads x l pkt (send p pkt w) q ∙ send-SameReads p pkt w q)
  | inr e ↦ rw (send_each_but, e) (send_each_but-SameReads x l pkt w q)
]

broadcast-SameReads : (pkt : Packet) (w : World) → SameReads w (broadcast pkt w)
unfolding broadcast
broadcast-SameReads pkt w = send_each-SameReads w.users pkt w

broadcast_but-SameReads : (x : ℕ) (pkt : Packet) (w : World) → SameReads w (broadcast_but x pkt w)
unfolding broadcast_but
broadcast_but-SameReads x pkt w = send_each_but-SameReads x w.users pkt w

-- One step after another.
then_same :
    (w : World) (r : Run World) (f : World → Run World)
    → Ends (SameReads w) r
    → ((v : World) → Ends (SameReads v) (f v))
    → Ends (SameReads w) (r >>= f)
then_same w r f hr hf =
    Ends-bind (SameReads w) (SameReads w) r f hr (λ v s. onward v s (f v) (hf v))
  where
    onward :
        (v : World) → SameReads w v → (t : Run World) → Ends (SameReads v) t → Ends (SameReads w) t
    onward v s (done u) h = λ q. h q ∙ s q
    onward v s thrown h = tt
    onward v s no_fuel h = h

module _ (json : Json) where
  -- A packet is made and sent off.
  with_packet :
      (type : ℕ) (j : json.Value) (w : World) (f : Packet → World)
      → ((pkt : Packet) → SameReads w (f pkt))
      → Ends (SameReads w) (dumped json type j >>= λ pkt. done (f pkt))
  with_packet type j w f h =
      elim (json.dump j)
        as (λ o. Ends (SameReads w) (
          ((or_throw o) >>= λ body. done (record { type = type; body = body })) >>= λ pkt.
          done (f pkt))) [ none ↦ tt | some body ↦ h (record { type = type; body = body }) ]

  send_ack-SameReads :
      (p : ℕ) (ok : Bool) (err : Bytes) (w : World) → Ends (SameReads w) (send_ack json p ok err w)
  unfolding send_ack
  send_ack-SameReads p ok err w =
      with_packet _ _ w (λ pkt. send p pkt w) (λ pkt. send-SameReads p pkt w)

  broadcast_system-SameReads :
      (t : Bytes) (w : World) → Ends (SameReads w) (broadcast_system json t w)
  unfolding broadcast_system
  broadcast_system-SameReads t w =
      with_packet _ _ w (λ pkt. broadcast pkt w) (λ pkt. broadcast-SameReads pkt w)

  broadcast_user_list-SameReads : (w : World) → Ends (SameReads w) (broadcast_user_list json w)
  unfolding broadcast_user_list
  broadcast_user_list-SameReads w =
      with_packet _ _ w (λ pkt. broadcast pkt w) (λ pkt. broadcast-SameReads pkt w)

  on_close-SameReads : (p : ℕ) (w : World) → Ends (SameReads w) (on_close json p w)
  unfolding on_close
  on_close-SameReads p w =
      Ends-either (SameReads w) (is_authenticated (w.heap p).state) _ _
        (then_same w (broadcast_system json _ (remove_user p w)) (broadcast_user_list json)
          (broadcast_system-SameReads _ (remove_user p w)) broadcast_user_list-SameReads)
        (λ q. refl)

  finish_close-SameReads : (p : ℕ) (w : World) → SameReads w (finish_close p w)
  finish_close-SameReads p w q = ground (arith, ==_iff p q)

  pub close-SameReads : (p : ℕ) (w : World) → Ends (SameReads w) (close json p w)
  unfolding close
  close-SameReads p w =
      Ends-either (SameReads w) (is_closed (w.heap p).state) _ _ (λ q. refl)
        (then_same w (on_close json p (record w { reactor = remove_fd (w.heap p).fd w.reactor })) _
          (on_close-SameReads p (record w { reactor = remove_fd (w.heap p).fd w.reactor }))
          (λ v. finish_close-SameReads p (remove_managed p v)))

  login_as-SameReads : (p : ℕ) (n : Bytes) (w : World) → Ends (SameReads w) (login_as json p n w)
  unfolding login_as
  login_as-SameReads p n w =
      Ends-either (SameReads w) (is_empty n) _ _ (send_ack-SameReads p false _ w) (
        Ends-either (SameReads w) (Users.add n p w.users).0 _ _
          (then_same w (send_ack json p true [] new) _
            (named (send_ack json p true [] new) (send_ack-SameReads p true [] new))
            (λ v.
              then_same v (broadcast_system json _ v) (broadcast_user_list json)
                (broadcast_system-SameReads _ v) broadcast_user_list-SameReads))
          (send_ack-SameReads p false _ w))
    where
      new : World
      new = set_username p n (record w { users = (Users.add n p w.users).1 })

      named : (r : Run World) → Ends (SameReads new) r → Ends (SameReads w) r
      named (done v) h = λ q. h q ∙ ground (arith, ==_iff p q)
      named thrown h = tt
      named no_fuel h = h

  module _ (p : ℕ) (pkt : Packet) (w : World) where
    parsed :
        (f : json.Value → Run World) (r : Run World) (o : Option json.Value)
        → Ends (SameReads w) r
        → ((j : json.Value) → Ends (SameReads w) (f j))
        → Ends (SameReads w) (elim o [ none ↦ r | some j ↦ f j ])
    parsed f r none hr hf = hr
    parsed f r (some j) hr hf = hf j

    handle_login-SameReads : Ends (SameReads w) (handle_login json p pkt w)
    unfolding handle_login
    handle_login-SameReads =
        Ends-either (SameReads w) (is_authenticated (w.heap p).state) _ _
          (send_ack-SameReads p false _ w)
          (parsed _ _ (json.parse pkt.body) (send_ack-SameReads p false _ w) (λ j.
            Ends-or_throw (SameReads w) (json.value j (codes "username") []) _
              (λ name. login_as-SameReads p name w)))

    say-SameReads : (content : Bytes) → Ends (SameReads w) (say json p content w)
    unfolding say
    say-SameReads content =
        Ends-either (SameReads w) (is_empty content) _ _ (λ q. refl)
          (with_packet _ _ w (λ bp. broadcast_but p bp w) (λ bp. broadcast_but-SameReads p bp w))

    handle_chat-SameReads : Ends (SameReads w) (handle_chat json p pkt w)
    unfolding handle_chat
    handle_chat-SameReads =
        Ends-either (SameReads w) (is_authenticated (w.heap p).state) _ _
          (parsed _ _ (json.parse pkt.body) (λ q. refl)
            (λ j. Ends-or_throw (SameReads w) (json.value j (codes "content") []) _ say-SameReads))
          (send_ack-SameReads p false _ w)

    tell-SameReads : (to content : Bytes) → Ends (SameReads w) (tell json p to content w)
    unfolding tell
    tell-SameReads to content =
        Ends-either (SameReads w) (Users.get to w.users == 0) _ _ (send_ack-SameReads p false _ w) (
          with_packet _ _ w (λ bp. send (Users.get to w.users) bp w)
            (λ bp. send-SameReads (Users.get to w.users) bp w))

    handle_private-SameReads : Ends (SameReads w) (handle_private json p pkt w)
    unfolding handle_private
    handle_private-SameReads =
        Ends-either (SameReads w) (is_authenticated (w.heap p).state) _ _
          (parsed _ _ (json.parse pkt.body) (λ q. refl)
            (λ j. Ends-or_throw (SameReads w) (json.value j (codes "to") []) _ (λ to.
              Ends-or_throw (SameReads w) (json.value j (codes "content") []) _
                (tell-SameReads to))))
          (send_ack-SameReads p false _ w)

    handle_log_out-SameReads : Ends (SameReads w) (handle_log_out json p w)
    unfolding handle_log_out
    handle_log_out-SameReads =
        Ends-either (SameReads w) (is_closed (w.heap p).state) _ _ (λ q. refl)
          (close-SameReads p (remove_user p w))

    -- The answer to any packet ends, with a result or an exception, and leaves what every
    -- connection has received as it is.
    pub on_packet-SameReads : Ends (SameReads w) (on_packet json p pkt w)
    unfolding on_packet handle_user_list handle_ping
    on_packet-SameReads =
        let t = pkt.type in
        let S = SameReads w in
        Ends-either S (t == Packet.msg_login) _ _ handle_login-SameReads (
          Ends-either S (t == Packet.msg_chat) _ _ handle_chat-SameReads (
            Ends-either S (t == Packet.msg_private) _ _ handle_private-SameReads (
              Ends-either S (t == Packet.msg_user_list) _ _
                (with_packet _ _ w (λ bp. send p bp w) (λ bp. send-SameReads p bp w))
                (Ends-either S (t == Packet.msg_ping) _ _ (send-SameReads p _ w) (
                  Ends-either S (t == Packet.msg_logout) _ _ handle_log_out-SameReads
                    (λ q. refl))))))
