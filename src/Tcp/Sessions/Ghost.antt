-- ===== src/Tcp/Sessions/Ghost.antt =====
-- A login on a connection that is closed, as where a login packet follows a logout packet in one
-- segment: handleLogin tests for AUTHENTICATED only.
use chat_room.Common.{ℕ, true, false, some, [], ==_iff, ◌≡◌, refl, ap, ◌∙◌, arith}
use chat_room.Common.Text.{Bytes, codes, is_empty, text_eq_refl}
use chat_room.Common.Dict
use chat_room.Common.Dict.{lookup-insert}
use chat_room.Common.Keys.{text_key}
use chat_room.Common.Run.{Run, done, thrown, no_fuel, Returns, Returns-bind}
use chat_room.Json.{Json}
use chat_room.Packet
use chat_room.Packet.{Packet}
use chat_room.Tcp.Users
use chat_room.Tcp.World.{World, authenticated, closed, set_username}
use chat_room.Tcp.Handler.{send_ack, login_as, handle_login, on_packet}
use chat_room.Tcp.Sessions.{SameSessions, SameSessions-trans}
use chat_room.Tcp.Sessions.Keeps.{send_ack-SameSessions, announce-SameSessions}

module _ (json : Json) (p : ℕ) (n : Bytes) (w : World) where
  -- The connections and users as a login as `n` leaves them.
  logged_in : World
  logged_in = set_username p n (record w { users = Dict.insert n p w.users })

  login_as-SameSessions :
      is_empty n ≡ false
      → Dict.has n w.users ≡ false
      → Returns (SameSessions logged_in) (login_as json p n w)
  unfolding login_as Users.add logged_in
  login_as-SameSessions e f =
      rw (e, f)
        (Returns-bind (SameSessions logged_in) (SameSessions logged_in)
          (send_ack json p true [] logged_in) _ (send_ack-SameSessions json p true [] logged_in)
          (λ w1 s. onward w1 s _ (announce-SameSessions json _ w1)))
    where
      onward :
          (v : World)
          → SameSessions logged_in v
          → (r : Run World) → Returns (SameSessions v) r
          → Returns (SameSessions logged_in) r
      onward v s (done u) t = SameSessions-trans s t
      onward v s thrown t = tt
      onward v s no_fuel t = tt

  pub TakesName : World → Type 0
  TakesName v = (Dict.lookup n v.users ≡ some p) × ((v.heap p).state ≡ authenticated)

  SameSessions-TakesName :
      (r : Run World) → Returns (SameSessions logged_in) r → Returns TakesName r
  unfolding logged_in TakesName
  SameSessions-TakesName (done v) s = (
    ap (Dict.lookup n) s.users ∙ (lookup-insert n n p w.users ∙ rw (text_eq_refl n) refl),
    s.state p ∙ ground (arith, ==_iff p p),
  )
  SameSessions-TakesName thrown s = tt
  SameSessions-TakesName no_fuel s = tt

  -- A login packet with a free name that comes in on a closed connection logs it in: the name then
  -- stands for that connection, whose state is AUTHENTICATED again; unless an exception leaves the
  -- handler.
  pub on_packet-closed :
      (pkt : Packet) (j : json.Value)
      → (w.heap p).state ≡ closed
      → pkt.type ≡ Packet.msg_login
      → json.parse pkt.body ≡ some j
      → json.value j (codes "username") [] ≡ some n
      → is_empty n ≡ false
      → Dict.has n w.users ≡ false
      → Returns TakesName (on_packet json p pkt w)
  unfolding on_packet handle_login
  on_packet-closed pkt j c t parsed named e f =
      rw (t, c, parsed, named)
        (SameSessions-TakesName (login_as json p n w) (login_as-SameSessions e f))
