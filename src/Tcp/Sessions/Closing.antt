-- ===== src/Tcp/Sessions/Closing.antt =====
-- Closing a connection: its name is given up before its state changes.
use chat_room.Common.{
  ℕ, true, false, none, some, ◌==◌, ==_iff, ◌≡◌, ◌≢◌, refl, sym, subst, ◌∙◌, inl, inr, Bool-cases,
  Option-cases, arith,
}
use chat_room.Common.Text.{Bytes, text_eq_iff}
use chat_room.Common.Dict
use chat_room.Common.Dict.{
  Dict, IsDistinct, lookup-insert, lookup-erase, has-lookup, has_of_lookup, insert-IsDistinct,
  erase-IsDistinct,
}
use chat_room.Common.Keys.{nat_key, text_key}
use chat_room.Tcp.Users
use chat_room.Tcp.Users.{Users}
use chat_room.Tcp.World.{World, State, connecting, authenticated, closed, is_authenticated}
use chat_room.Tcp.Sessions.{IsConsistent, IsDetached, lookup-name_of, name_of-lookup}
use chat_room.Tcp.Handler.{remove_user, finish_close}

pub is_authenticated_iff : (s : State) → is_authenticated s ≡ true → s ≡ authenticated
is_authenticated_iff connecting h = ground (arith, h)
is_authenticated_iff authenticated h = refl
is_authenticated_iff closed h = ground (arith, h)

remove-none : (p : ℕ) (l : Users) → Users.name_of p l ≡ none → Users.remove p l ≡ l
unfolding Users.remove
remove-none p l e = rw (Users.remove, e) refl

remove-some :
    (p : ℕ) (l : Users) (n : Bytes) → Users.name_of p l ≡ some n → Users.remove p l ≡ Dict.erase n l
unfolding Users.remove
remove-some p l n e = rw (Users.remove, e) refl

erased :
    (n m : Bytes) (q : ℕ) (l : Users)
    → Dict.lookup m (Dict.erase n l) ≡ some q
    → (n ≢ m) × (Dict.lookup m l ≡ some q)
erased n m q l h = ground (arith, lookup-erase n m l, h, text_eq_iff n m)

kept :
    (n m : Bytes) (q : ℕ) (l : Users)
    → n ≢ m
    → Dict.lookup m l ≡ some q
    → Dict.lookup m (Dict.erase n l) ≡ some q
kept n m q l d h = ground (arith, lookup-erase n m l, h, text_eq_iff n m)

-- A name that is given up leaves the others.
erase-IsDetached :
    (p : ℕ) (w : World) (n : Bytes)
    → IsConsistent w
    → Dict.lookup n w.users ≡ some p
    → IsDetached p (record w { users = Dict.erase n w.users })
erase-IsDetached p w n c named = record {
  distinct = erase-IsDistinct n w.users c.distinct;
  apart = λ m h.
      let old = erased n m p w.users h in
      old.0 (sym (c.to_conn n p named).1 ∙ (c.to_conn m p old.1).1);
  to_conn = λ m q h. c.to_conn m q (erased n m q w.users h).1;
  to_user = λ q d h.
      let old : Dict.lookup (w.heap q).username w.users ≡ some q = c.to_user q h in
      kept n (w.heap q).username q w.users
        (λ same. d (ground (arith, subst (λ t. Dict.lookup t w.users ≡ some p) same named, old)))
        old;
}

module _ (p : ℕ) (w : World) where
  -- Without its name, a connection is apart from the users.
  pub remove_user-IsDetached : IsConsistent w → IsDetached p (remove_user p w)
  remove_user-IsDetached c = elim (Option-cases (Users.name_of p w.users)) [
    | inl e ↦
        subst (λ u. IsDetached p (record w { users = u })) (sym (remove-none p w.users e))
          (record {
            distinct = c.distinct;
            apart = λ n h. name_of-lookup p n w.users h e;
            to_conn = c.to_conn;
            to_user = λ q d. c.to_user q;
          })
    | inr (n, e) ↦
        subst (λ u. IsDetached p (record w { users = u })) (sym (remove-some p w.users n e))
          (erase-IsDetached p w n c (lookup-name_of p n w.users c.distinct e))
  ]

  -- A connection that is apart has no name to remove.
  pub remove_user-IsDetached' : IsDetached p w → IsDetached p (remove_user p w)
  remove_user-IsDetached' c = elim (Option-cases (Users.name_of p w.users)) [
    | inl e ↦ subst (λ u. IsDetached p (record w { users = u })) (sym (remove-none p w.users e)) c
    | inr (n, e) ↦ absurd (c.apart n (lookup-name_of p n w.users c.distinct e))
  ]

  -- A connection that is not logged in is apart from the users.
  pub IsDetached-of_state :
      is_authenticated (w.heap p).state ≡ false → IsConsistent w → IsDetached p w
  IsDetached-of_state h c = record {
    distinct = c.distinct;
    apart = λ n e. ground (arith, h, (c.to_conn n p e).0);
    to_conn = c.to_conn;
    to_user = λ q d. c.to_user q;
  }

  finish_close_heap : (q : ℕ) → q ≢ p → (finish_close p w).heap q ≡ w.heap q
  finish_close_heap q d = ground (arith, d, ==_iff p q)

  finish_close_state : ((finish_close p w).heap p).state ≡ closed
  finish_close_state = ground (arith, ==_iff p p)

  -- A connection that is apart from the users can be closed.
  pub finish_close-IsConsistent : IsDetached p w → IsConsistent (finish_close p w)
  finish_close-IsConsistent c = record {
    distinct = c.distinct;
    to_conn = λ n q h.
        rw (finish_close_heap q (λ e. c.apart n (subst (λ t. Dict.lookup n w.users ≡ some t) e h)))
          (c.to_conn n q h);
    to_user = λ q h. elim (Bool-cases (q == p)) [
      | inl e ↦
          let same : q ≡ p = (==_iff q p).0 e in
          let is_closed_now : ((finish_close p w).heap q).state ≡ closed =
            rw same finish_close_state in
          ground (arith, sym h ∙ is_closed_now)
      | inr e ↦
          let d : q ≢ p = ground (arith, ==_iff q p, e) in
          rw (finish_close_heap q d)
            (c.to_user q d (subst (λ t. t.state ≡ authenticated) (finish_close_heap q d) h))
    ];
  }
