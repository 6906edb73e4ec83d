-- ===== src/Tests/Rooms.antt =====
-- The theorems on src/server/room.cpp at a concrete room, whose subscriber keeps a list.
use chat_room.Common.{some, List, [], ◌∷◌, ◌++◌, ◌≡◌, arith}
use chat_room.Common.Text.{codes}
use chat_room.Common.Int.{pos}
use chat_room.Room.{Message, Room, max_history, set_on_message, init}
use chat_room.Room.History.{
  Op, add_message_op, add_user_op, remove_user_op, run, said, last_of, run-messages,
}

abbrev hello : Message
hello = record { from = codes "ann"; room = codes "lobby"; content = codes "hello"; time = pos 7 }

abbrev listened : Room (List Message)
listened = set_on_message (some (λ m heard. heard ++ (m ∷ []))) init

abbrev evening : List Op
evening =
    add_user_op (codes "ann")
    ∷ add_message_op hello
    ∷ add_user_op (codes "bob")
    ∷ remove_user_op (codes "ann")
    ∷ add_message_op hello
    ∷ []

run-messages_example :
    ((run evening listened []).0).messages ≡ last_of max_history (listened.messages ++ said evening)
run-messages_example = run-messages evening listened [] (omega arith)
