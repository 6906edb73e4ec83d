-- ===== src/Tcp/Sessions.antt =====
-- The users and the connections' states agree: a name stands for the connection that is logged in
-- under it, and every connection that is logged in is found under its name.
pub mod Closing
pub mod Keeps
pub mod Login
pub mod Packets
pub mod Ghost
pub mod Callbacks
pub mod IoLoops
pub mod Main
use chat_room.Common.{
  ℕ, Bool, true, false, Option, none, some, List, [], ◌∷◌, ◌++◌, ◌==◌, ==_iff, if◌then◌else◌, not,
  ◌≡◌, ◌≢◌, refl, sym, ap, subst, ◌∙◌, ◌⊎◌, inl, inr, Bool-cases, Option-cases, arith, ◌&&◌,
}
use chat_room.Common.Text.{Bytes, codes, is_empty, text_eq, text_eq_iff, text_eq_refl}
use chat_room.Common.Dict
use chat_room.Common.Dict.{
  Dict, IsDistinct, lookup-insert, lookup-erase, has-lookup, has_of_lookup, insert-IsDistinct,
  erase-IsDistinct,
}
use chat_room.Common.Keys.{nat_key, text_key}
use chat_room.Common.Run.{
  Run, done, thrown, no_fuel, ◌>>=◌, or_throw, Returns, Returns-bind, Returns-any,
}
use chat_room.Json.{Json}
use chat_room.Packet.{Packet}
use chat_room.Tcp.Users
use chat_room.Tcp.Users.{Users}
use chat_room.Tcp.World.{
  World, Connection, State, connecting, authenticated, closed, is_authenticated, is_closed,
  set_conn, set_username, send, send_each, send_each_but, broadcast, broadcast_but,
}

-- The first name with this connection is one of its names, as no name stands twice.
pub lookup-name_of :
    (p : ℕ) (n : Bytes) (users : Users)
    → IsDistinct users
    → Users.name_of p users ≡ some n
    → Dict.lookup n users ≡ some p
unfolding Users.name_of Dict.lookup
lookup-name_of p n [] d h = ground (arith, h)
lookup-name_of p n ((m, q) ∷ users) d h = elim (Bool-cases (q == p)) [
  | inl e ↦
      let same : m ≡ n = ground (arith, e, h) in
      let found : q ≡ p = (==_iff q p).0 e in rw (same, text_eq_refl n, found) refl
  | inr e ↦
      let rest : Users.name_of p users ≡ some n = ground (arith, e, h) in
      let ih : Dict.lookup n users ≡ some p = lookup-name_of p n users d.1 rest in
      let here : Dict.has n users ≡ true = has_of_lookup n users p ih in
      ground (arith, ih, here, d.0, text_eq_iff m n)
]

-- A connection with a name has a first one.
pub name_of-lookup :
    (p : ℕ) (n : Bytes) (users : Users)
    → Dict.lookup n users ≡ some p
    → Users.name_of p users ≢ none
unfolding Users.name_of Dict.lookup
name_of-lookup p n [] h = ground (arith, h)
name_of-lookup p n ((m, q) ∷ users) h = ground (arith, h, name_of-lookup p n users, ==_iff q p)

-- The names that stand for a connection, apart from one, as its state and its name say.
pub record IsDetached (p : ℕ) (w : World) : Type 0 where
  pub distinct : IsDistinct w.users
  pub apart : (n : Bytes) → Dict.lookup n w.users ≢ some p
  pub to_conn :
      (n : Bytes) (q : ℕ)
      → Dict.lookup n w.users ≡ some q
      → ((w.heap q).state ≡ authenticated) × ((w.heap q).username ≡ n)
  pub to_user :
      (q : ℕ)
      → q ≢ p
      → (w.heap q).state ≡ authenticated
      → Dict.lookup (w.heap q).username w.users ≡ some q

pub record IsConsistent (w : World) : Type 0 where
  pub distinct : IsDistinct w.users
  pub to_conn :
      (n : Bytes) (q : ℕ)
      → Dict.lookup n w.users ≡ some q
      → ((w.heap q).state ≡ authenticated) × ((w.heap q).username ≡ n)
  pub to_user :
      (q : ℕ) → (w.heap q).state ≡ authenticated → Dict.lookup (w.heap q).username w.users ≡ some q

-- A step that changes no state, no name and no user.
pub record SameSessions (v w : World) : Type 0 where
  pub users : w.users ≡ v.users
  pub state : (q : ℕ) → (w.heap q).state ≡ (v.heap q).state
  pub username : (q : ℕ) → (w.heap q).username ≡ (v.heap q).username

pub SameSessions-refl : (w : World) → SameSessions w w
SameSessions-refl w = record { users = refl; state = λ q. refl; username = λ q. refl }

pub SameSessions-trans : {u v w : World} → SameSessions u v → SameSessions v w → SameSessions u w
SameSessions-trans s t = record {
  users = t.users ∙ s.users;
  state = λ q. t.state q ∙ s.state q;
  username = λ q. t.username q ∙ s.username q;
}

pub send-SameSessions : (p : ℕ) (pkt : Packet) (w : World) → SameSessions w (send p pkt w)
unfolding send
send-SameSessions p pkt w = record {
  users = ground arith;
  state = λ q. ground (arith, ==_iff p q);
  username = λ q. ground (arith, ==_iff p q);
}

send_each-SameSessions : (l : Users) (pkt : Packet) (w : World) → SameSessions w (send_each l pkt w)
unfolding send_each
send_each-SameSessions [] pkt w = SameSessions-refl w
send_each-SameSessions ((n, p) ∷ l) pkt w = elim (Bool-cases (p == 0)) [
  | inl e ↦ rw e (send_each-SameSessions l pkt w)
  | inr e ↦
      rw e (
        SameSessions-trans (send-SameSessions p pkt w)
          (send_each-SameSessions l pkt (send p pkt w)))
]

send_each_but-SameSessions :
    (x : ℕ) (l : Users) (pkt : Packet) (w : World) → SameSessions w (send_each_but x l pkt w)
unfolding send_each_but
send_each_but-SameSessions x [] pkt w = SameSessions-refl w
send_each_but-SameSessions x ((n, p) ∷ l) pkt w = elim (Bool-cases (not (p == 0) && not (p == x))) [
  | inl e ↦ rw e (
      SameSessions-trans (send-SameSessions p pkt w)
        (send_each_but-SameSessions x l pkt (send p pkt w)))
  | inr e ↦ rw e (send_each_but-SameSessions x l pkt w)
]

pub broadcast-SameSessions : (pkt : Packet) (w : World) → SameSessions w (broadcast pkt w)
unfolding broadcast
broadcast-SameSessions pkt w = send_each-SameSessions w.users pkt w

pub broadcast_but-SameSessions :
    (x : ℕ) (pkt : Packet) (w : World) → SameSessions w (broadcast_but x pkt w)
unfolding broadcast_but
broadcast_but-SameSessions x pkt w = send_each_but-SameSessions x w.users pkt w

pub IsConsistent-same : {v w : World} → SameSessions v w → IsConsistent v → IsConsistent w
IsConsistent-same {v = v} {w = w} s c = record {
  distinct = subst (λ t. IsDistinct t) (sym s.users) c.distinct;
  to_conn = λ n q h.
      let old = c.to_conn n q (subst (λ t. Dict.lookup n t ≡ some q) s.users h) in
      (s.state q ∙ old.0, s.username q ∙ old.1);
  to_user = λ q h. rw (s.users, s.username q) (c.to_user q (sym (s.state q) ∙ h));
}

pub IsDetached-same : {v w : World} (p : ℕ) → SameSessions v w → IsDetached p v → IsDetached p w
IsDetached-same {v = v} {w = w} p s c = record {
  distinct = subst (λ t. IsDistinct t) (sym s.users) c.distinct;
  apart = λ n. subst (λ t. Dict.lookup n t ≢ some p) (sym s.users) (c.apart n);
  to_conn = λ n q h.
      let old = c.to_conn n q (subst (λ t. Dict.lookup n t ≡ some q) s.users h) in
      (s.state q ∙ old.0, s.username q ∙ old.1);
  to_user = λ q d h. rw (s.users, s.username q) (c.to_user q d (sym (s.state q) ∙ h));
}
