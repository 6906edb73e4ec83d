-- ===== src/Room.antt =====
-- src/server/room.{h,cpp} and the record of src/server/message.h: the last messages, the users, and
-- the one subscriber, who is called after each message with what he keeps. The mutex makes each
-- method one step.
pub mod History
use chat_room.Common.{
  ℕ, suc, Bool, true, false, Option, none, some, List, [], ◌∷◌, ◌++◌, ◌==◌, if◌then◌else◌, ltb,
  length, map, drop,
}
use chat_room.Common.Text.{Bytes, codes}
use chat_room.Common.Int.{ℤ, ltb_ℤ}
use chat_room.Common.Dict
use chat_room.Common.Dict.{Dict}
use chat_room.Common.Keys.{text_key}

pub record Message : Type 0 where
  pub from : Bytes
  pub room : Bytes
  pub content : Bytes
  pub time : ℤ

abbrev pub max_history : ℕ
max_history = 200

-- S is what the subscriber's calls change.
pub record Room (S : Type 0) : Type 0 where
  pub messages : List Message
  pub users : Dict Bytes (Unit {0})
  pub on_message : Option (Message → S → S)

-- if(onMessage_) onMessage_(m);
abbrev pub notify : {S : Type 0} → Option (Message → S → S) → Message → S → S
notify none m s = s
notify (some call) m s = call m s

-- deque::pop_front
abbrev pub pop_front : List Message → List Message
pop_front [] = []
pop_front (m ∷ ms) = ms

-- messages_.push_back(m), and pop_front where there are too many.
unfoldable pub push_message : Message → List Message → List Message
push_message m ms =
    let more = ms ++ (m ∷ []) in if ltb max_history (length more) then pop_front more else more

-- for(auto& m:messages_) if(m.time>since) out.push_back(m);
unfoldable pub later_than : ℤ → List Message → List Message
later_than since [] = []
later_than since (m ∷ ms) =
    let rest = later_than since ms in if ltb_ℤ since m.time then m ∷ rest else rest

module _ {S : Type 0} where
  -- A Room before anything is called.
  abbrev pub init : Room S
  init = record { messages = []; users = []; on_message = none }

  -- Room::addMessage
  unfoldable pub add_message : Message → Room S → S → Room S × S
  add_message m r s = (record r { messages = push_message m r.messages }, notify r.on_message m s)

  -- Room::setOnMessage
  abbrev pub set_on_message : Option (Message → S → S) → Room S → Room S
  set_on_message call r = record r { on_message = call }

  -- Room::recentMessages
  unfoldable pub recent_messages : ℤ → Room S → List Message
  recent_messages since r = later_than since r.messages

  -- Room::addUser
  unfoldable pub add_user : Bytes → Room S → Room S
  add_user name r = record r { users = Dict.insert name tt r.users }

  -- Room::removeUser
  unfoldable pub remove_user : Bytes → Room S → Room S
  remove_user name r = record r { users = Dict.erase name r.users }

  -- Room::users
  abbrev pub users : Room S → List Bytes
  users r = map (λ entry. entry.0) r.users

  -- Room::hasUser
  unfoldable pub has_user : Bytes → Room S → Bool
  has_user name r = Dict.has name r.users

  -- Room::messageCount
  abbrev pub message_count : Room S → ℕ
  message_count r = length r.messages
