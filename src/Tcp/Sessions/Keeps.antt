-- ===== src/Tcp/Sessions/Keeps.antt =====
-- Answers, broadcasts and closing keep the users and the states in agreement.
use chat_room.Common.{ℕ, Bool, true, false, ◌≡◌, refl, ap, ◌⊎◌, inl, inr, Bool-cases}
use chat_room.Common.Text.{Bytes}
use chat_room.Common.Keys.{nat_key, text_key}
use chat_room.Common.Run.{Run, done, thrown, no_fuel, ◌>>=◌, Returns, Returns-bind, Returns-any}
use chat_room.Json.{Json}
use chat_room.Reactor.{remove_fd}
use chat_room.Tcp.World.{World, is_authenticated, is_closed, send, broadcast}
use chat_room.Tcp.Sessions.{
  IsConsistent, IsDetached, SameSessions, SameSessions-trans, send-SameSessions,
  broadcast-SameSessions, IsConsistent-same, IsDetached-same,
}
use chat_room.Tcp.Handler.{
  remove_managed, remove_user, finish_close, dumped, send_ack, broadcast_system,
  broadcast_user_list, on_close, close,
}
use chat_room.Tcp.Sessions.Closing.{
  remove_user-IsDetached, remove_user-IsDetached', IsDetached-of_state, finish_close-IsConsistent,
}

-- A step that leaves heap and users alone.
same_parts : (v w : World) → w.users ≡ v.users → w.heap ≡ v.heap → SameSessions v w
same_parts v w u h = record {
  users = u;
  state = λ q. ap (λ t. (t q).state) h;
  username = λ q. ap (λ t. (t q).username) h;
}

pub Returns-same :
    {v : World} (r : Run World)
    → IsConsistent v
    → Returns (SameSessions v) r
    → Returns IsConsistent r
Returns-same (done w) c s = IsConsistent-same s c
Returns-same thrown c s = tt
Returns-same no_fuel c s = tt

module _ (json : Json) where
  pub send_ack-SameSessions :
      (p : ℕ) (ok : Bool) (err : Bytes) (w : World)
      → Returns (SameSessions w) (send_ack json p ok err w)
  unfolding send_ack
  send_ack-SameSessions p ok err w =
      Returns-any (SameSessions w) (dumped json _ _) (λ pkt. done (send p pkt w))
        (λ pkt. send-SameSessions p pkt w)

  broadcast_system-SameSessions :
      (t : Bytes) (w : World) → Returns (SameSessions w) (broadcast_system json t w)
  unfolding broadcast_system
  broadcast_system-SameSessions t w =
      Returns-any (SameSessions w) (dumped json _ _) (λ pkt. done (broadcast pkt w))
        (λ pkt. broadcast-SameSessions pkt w)

  pub broadcast_user_list-SameSessions :
      (w : World) → Returns (SameSessions w) (broadcast_user_list json w)
  unfolding broadcast_user_list
  broadcast_user_list-SameSessions w =
      Returns-any (SameSessions w) (dumped json _ _) (λ pkt. done (broadcast pkt w))
        (λ pkt. broadcast-SameSessions pkt w)

  -- The two broadcasts that a login and the end of a session make.
  pub announce-SameSessions :
      (t : Bytes) (w : World)
      → Returns (SameSessions w) (broadcast_system json t w >>= λ v. broadcast_user_list json v)
  announce-SameSessions t w =
      Returns-bind (SameSessions w) (SameSessions w) (broadcast_system json t w)
        (λ v. broadcast_user_list json v) (broadcast_system-SameSessions t w)
        (λ v s. after v s (broadcast_user_list json v) (broadcast_user_list-SameSessions v))
    where
      after :
          (v : World)
          → SameSessions w v
          → (r : Run World) → Returns (SameSessions v) r
          → Returns (SameSessions w) r
      after v s (done u) t = SameSessions-trans s t
      after v s thrown t = tt
      after v s no_fuel t = tt

  Returns-IsDetached :
      {v : World} (p : ℕ) (r : Run World)
      → IsDetached p v
      → Returns (SameSessions v) r
      → Returns (IsDetached p) r
  Returns-IsDetached p (done w) c s = IsDetached-same p s c
  Returns-IsDetached p thrown c s = tt
  Returns-IsDetached p no_fuel c s = tt

  on_close-IsDetached :
      (p : ℕ) (w : World)
      → IsConsistent w ⊎ IsDetached p w
      → Returns (IsDetached p) (on_close json p w)
  unfolding on_close
  on_close-IsDetached p w c = elim (Bool-cases (is_authenticated (w.heap p).state)) [
    | inl e ↦ rw e (Returns-IsDetached p _ (gone c) (announce-SameSessions _ (remove_user p w)))
    | inr e ↦ rw e (apart e c)
  ]
    where
      gone : IsConsistent w ⊎ IsDetached p w → IsDetached p (remove_user p w)
      gone (inl c) = remove_user-IsDetached p w c
      gone (inr c) = remove_user-IsDetached' p w c

      apart :
          is_authenticated (w.heap p).state ≡ false
          → IsConsistent w ⊎ IsDetached p w
          → IsDetached p w
      apart e (inl c) = IsDetached-of_state p w e c
      apart e (inr c) = c

  -- close ends in agreement, from agreement and also where the name was given up before.
  pub close-IsConsistent_open :
      (p : ℕ) (w : World)
      → is_closed (w.heap p).state ≡ false
      → IsConsistent w ⊎ IsDetached p w
      → Returns IsConsistent (close json p w)
  unfolding close
  close-IsConsistent_open p w e c = rw e (
      Returns-bind (IsDetached p) IsConsistent (on_close json p v)
        (λ w1. done (finish_close p (remove_managed p w1))) (on_close-IsDetached p v (moved c))
        (λ w1 d.
          finish_close-IsConsistent p (remove_managed p w1)
            (IsDetached-same p (same_parts w1 (remove_managed p w1) refl refl) d)))
    where
      v : World
      v = record w { reactor = remove_fd (w.heap p).fd w.reactor }

      moved : IsConsistent w ⊎ IsDetached p w → IsConsistent v ⊎ IsDetached p v
      moved (inl c) = inl (IsConsistent-same (same_parts w v refl refl) c)
      moved (inr c) = inr (IsDetached-same p (same_parts w v refl refl) c)

  close_closed : (p : ℕ) (w : World) → is_closed (w.heap p).state ≡ true → close json p w ≡ done w
  unfolding close
  close_closed p w e = rw e refl

  -- Where the users and the connections' states agree, they agree after any connection is closed,
  -- with its close callback, unless an exception leaves the call.
  pub close-IsConsistent :
      (p : ℕ) (w : World) → IsConsistent w → Returns IsConsistent (close json p w)
  close-IsConsistent p w c = elim (Bool-cases (is_closed (w.heap p).state)) [
    | inl e ↦ rw (close_closed p w e) c
    | inr e ↦ close-IsConsistent_open p w e (inl c)
  ]
