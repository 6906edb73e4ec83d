-- ===== src/Room/History.antt =====
-- The history of a room over runs of calls, and what its subscriber hears.
use chat_room.Common.{
  ℕ, ◌+◌, ◌-◌, ◌≤◌, Bool, true, false, Option, List, [], ◌∷◌, ◌++◌, if◌then◌else◌, ltb, length,
  drop, ◌≡◌, refl, sym, ap, ◌∙◌, arith, Bool-cases, inl, inr, append_assoc, append-nil,
  length-append, length-drop, drop-append, drop-drop,
}
use chat_room.Common.Text.{Bytes, text_eq}
use chat_room.Common.Dict.{has-insert, has-erase}
use chat_room.Common.Keys.{text_key}
use chat_room.Room.{
  Message, Room, notify, max_history, push_message, pop_front, add_message, add_user, remove_user,
  has_user,
}

-- The calls that change a room.
pub data Op : Type 0 where
  add_message_op : Message → Op
  add_user_op : Bytes → Op
  remove_user_op : Bytes → Op

module _ {S : Type 0} where
  abbrev pub step : Op → Room S → S → Room S × S
  step (add_message_op m) r s = add_message m r s
  step (add_user_op name) r s = (add_user name r, s)
  step (remove_user_op name) r s = (remove_user name r, s)

  abbrev pub run : List Op → Room S → S → Room S × S
  run [] r s = (r, s)
  run (op ∷ ops) r s = let next = step op r s in run ops next.0 next.1

-- The messages of the calls, in order.
abbrev pub said : List Op → List Message
said [] = []
said (add_message_op m ∷ ops) = m ∷ said ops
said (add_user_op name ∷ ops) = said ops
said (remove_user_op name ∷ ops) = said ops

-- Whether the last call about a name left it present.
abbrev pub present : Bytes → Bool → List Op → Bool
present name before [] = before
present name before (add_message_op m ∷ ops) = present name before ops
present name before (add_user_op other ∷ ops) =
    present name (if text_eq other name then true else before) ops
present name before (remove_user_op other ∷ ops) =
    present name (if text_eq other name then false else before) ops

-- The last n of a list.
abbrev pub last_of : ℕ → List Message → List Message
last_of n ms = drop (length ms - n) ms

pop_front_lem : (ms : List Message) → pop_front ms ≡ drop 1 ms
pop_front_lem [] = refl
pop_front_lem (m ∷ ms) = refl

-- Where the last 200 of a list are kept, one more message keeps the last 200 of the longer list.
push_message_lem :
    (m : Message) (all : List Message)
    → push_message m (last_of max_history all) ≡ last_of max_history (all ++ (m ∷ []))
unfolding push_message
push_message_lem m all =
    let n : length (all ++ (m ∷ [])) ≡ length all + 1 = length-append all (m ∷ []) in
    let k = length all - max_history in
    let joined : drop k all ++ (m ∷ []) ≡ drop k (all ++ (m ∷ [])) =
      sym (drop-append k all (m ∷ []) (omega arith)) in
    let size : length (drop k (all ++ (m ∷ []))) ≡ length all + 1 - k =
      length-drop k (all ++ (m ∷ [])) ∙ omega (arith, n) in
    elim (Bool-cases (ltb max_history (length (drop k (all ++ (m ∷ [])))))) [
      | inl e ↦
          rw (joined, e, pop_front_lem (drop k (all ++ (m ∷ []))), drop-drop k 1 (all ++ (m ∷ [])))
            (ap (λ (t : ℕ). drop t (all ++ (m ∷ []))) (ground (arith, e, size, n)))
      | inr e ↦
          rw (joined, e) (ap (λ (t : ℕ). drop t (all ++ (m ∷ []))) (ground (arith, e, size, n)))
    ]

module _ {S : Type 0} where
  run-messages_from :
      (ops : List Op) (all : List Message) (r : Room S) (s : S)
      → r.messages ≡ last_of max_history all
      → ((run ops r s).0).messages ≡ last_of max_history (all ++ said ops)
  unfolding add_message add_user remove_user
  run-messages_from [] all r s h = h ∙ ap (last_of max_history) (sym (append-nil all))
  run-messages_from (add_message_op m ∷ ops) all r s h =
      run-messages_from ops (all ++ (m ∷ [])) (add_message m r s).0 (add_message m r s).1
        (ap (push_message m) h ∙ push_message_lem m all)
      ∙ ap (last_of max_history) (append_assoc all (m ∷ []) (said ops))
  run-messages_from (add_user_op name ∷ ops) all r s h =
      run-messages_from ops all (add_user name r) s h
  run-messages_from (remove_user_op name ∷ ops) all r s h =
      run-messages_from ops all (remove_user name r) s h

  -- After any calls on a room that holds at most 200 messages, it holds the last 200 of the
  -- messages it held and those added, in order, whatever users came and went.
  pub run-messages :
      (ops : List Op) (r : Room S) (s : S)
      → length r.messages ≤ max_history
      → ((run ops r s).0).messages ≡ last_of max_history (r.messages ++ said ops)
  run-messages ops r s h =
      let none_dropped : 0 ≡ length r.messages - max_history = omega (arith, h) in
      run-messages_from ops r.messages r s (ap (λ (t : ℕ). drop t r.messages) none_dropped)

  -- A user is in the room exactly when the last call about the name added it, or when no call was
  -- about it and it was there before.
  pub has_user-run :
      (ops : List Op) (name : Bytes) (r : Room S) (s : S)
      → has_user name (run ops r s).0 ≡ present name (has_user name r) ops
  unfolding has_user add_message add_user remove_user
  has_user-run [] name r s = refl
  has_user-run (add_message_op m ∷ ops) name r s =
      has_user-run ops name (add_message m r s).0 (add_message m r s).1
  has_user-run (add_user_op other ∷ ops) name r s =
      has_user-run ops name (add_user other r) s
      ∙ ap (λ b. present name b ops) (has-insert other name tt r.users)
  has_user-run (remove_user_op other ∷ ops) name r s =
      has_user-run ops name (remove_user other r) s
      ∙ ap (λ b. present name b ops) (has-erase other name r.users)

  -- The subscriber's calls for a list of messages.
  abbrev pub heard : Option (Message → S → S) → List Message → S → S
  heard call [] s = s
  heard call (m ∷ ms) s = heard call ms (notify call m s)

  -- The subscriber hears each added message once, in the order of the calls, also those that the
  -- history has dropped.
  pub run-heard :
      (ops : List Op) (r : Room S) (s : S) → (run ops r s).1 ≡ heard r.on_message (said ops) s
  unfolding add_message add_user remove_user
  run-heard [] r s = refl
  run-heard (add_message_op m ∷ ops) r s = run-heard ops (add_message m r s).0 (add_message m r s).1
  run-heard (add_user_op name ∷ ops) r s = run-heard ops (add_user name r) s
  run-heard (remove_user_op name ∷ ops) r s = run-heard ops (remove_user name r) s
