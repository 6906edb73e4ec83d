-- ===== src/Tcp/Sessions/Login.antt =====
-- A login adds one name for one connection.
use chat_room.Common.{
  ℕ, true, false, none, some, [], ◌==◌, ==_iff, ◌≡◌, inl, inr, Bool-cases, arith,
}
use chat_room.Common.Text.{Bytes, is_empty, text_eq, text_eq_iff, text_eq_refl}
use chat_room.Common.Dict
use chat_room.Common.Dict.{
  Dict, IsDistinct, lookup-insert, lookup-erase, has-lookup, has_of_lookup, insert-IsDistinct,
  erase-IsDistinct,
}
use chat_room.Common.Keys.{nat_key, text_key}
use chat_room.Common.Run.{Returns, Returns-bind}
use chat_room.Json.{Json}
use chat_room.Tcp.Users
use chat_room.Tcp.Users.{Users}
use chat_room.Tcp.World.{World, authenticated, is_authenticated, set_username}
use chat_room.Tcp.Sessions.{IsConsistent}
use chat_room.Tcp.Handler.{send_ack, login_as}
use chat_room.Tcp.Sessions.Keeps.{Returns-same, send_ack-SameSessions, announce-SameSessions}

-- A connection that was not logged in takes a name that nobody has.
take_name :
    (p : ℕ) (n : Bytes) (w : World)
    → is_authenticated (w.heap p).state ≡ false
    → Dict.has n w.users ≡ false
    → IsConsistent w
    → IsConsistent (set_username p n (record w { users = Dict.insert n p w.users }))
take_name p n w h free c = record {
  distinct = insert-IsDistinct n p w.users c.distinct;
  to_conn = λ m q e. elim (Bool-cases (text_eq n m)) [
    | inl same ↦ ground (arith, lookup-insert n m p w.users, e, same, text_eq_iff n m, ==_iff p q)
    | inr other ↦
        let old : Dict.lookup m w.users ≡ some q =
          ground (arith, lookup-insert n m p w.users, e, other) in
        ground (arith, c.to_conn m q old, h, ==_iff p q)
  ];
  to_user = λ q e. elim (Bool-cases (p == q)) [
    | inl same ↦ ground (arith, lookup-insert n n p w.users, text_eq_refl n, same, ==_iff p q)
    | inr other ↦
        let was : (w.heap q).state ≡ authenticated = ground (arith, e, other) in
        let old : Dict.lookup (w.heap q).username w.users ≡ some q = c.to_user q was in
        let none_yet : Dict.lookup n w.users ≡ none = has-lookup n w.users free in
        let new : Dict.lookup (w.heap q).username (Dict.insert n p w.users) ≡ some q = ground (
          arith,
          lookup-insert n (w.heap q).username p w.users,
          old,
          none_yet,
          text_eq_iff n (w.heap q).username,
        ) in
        rw other new
  ];
}

module _ (json : Json) where
  pub login_as-IsConsistent :
      (p : ℕ) (n : Bytes) (w : World)
      → is_authenticated (w.heap p).state ≡ false
      → IsConsistent w
      → Returns IsConsistent (login_as json p n w)
  unfolding login_as Users.add
  login_as-IsConsistent p n w h c = elim (Bool-cases (is_empty n)) [
    | inl e ↦ rw e (Returns-same _ c (send_ack-SameSessions json p false _ w))
    | inr e ↦ elim (Bool-cases (Dict.has n w.users)) [
      | inl f ↦ rw (e, f) (Returns-same _ c (send_ack-SameSessions json p false _ w))
      | inr f ↦
          rw (e, f)
            (Returns-bind IsConsistent IsConsistent (send_ack json p true [] new) _
              (Returns-same _ (take_name p n w h f c) (send_ack-SameSessions json p true [] new))
              (λ w1 c1. Returns-same _ c1 (announce-SameSessions json _ w1)))
    ]
  ]
    where
      new : World
      new = set_username p n (record w { users = Dict.insert n p w.users })
