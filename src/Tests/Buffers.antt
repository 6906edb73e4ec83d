-- ===== src/Tests/Buffers.antt =====
-- The byte buffer.
use chat_room.Common.{◌≡◌, refl, List, [], ◌∷◌, arith, write_at}
use chat_room.Buffer.{Buffer, IsValid, view, append}
use chat_room.Buffer.Queue.{Op, append_op, consume_op, retrieve_op, run, queue_run, run-Refines}

abbrev small : Buffer
small = record { storage = 1 ∷ 2 ∷ 3 ∷ 4 ∷ []; read_pos = 1; write_pos = 3 }

small-IsValid : IsValid small
small-IsValid = record {
  ordered = omega arith;
  inside = omega arith;
  nonempty = omega arith;
  bounded = omega arith;
}

-- It compacts for one byte, and grows for four.
appended :
    view (append (7 ∷ 8 ∷ 9 ∷ 10 ∷ []) (append (5 ∷ 6 ∷ []) small))
    ≡ 2 ∷ 3 ∷ 5 ∷ 6 ∷ 7 ∷ 8 ∷ 9 ∷ 10 ∷ []
unfolding view append write_at
appended = refl

abbrev calls : List Op
calls =
    append_op (5 ∷ 6 ∷ [])
    ∷ consume_op 3
    ∷ append_op (7 ∷ 8 ∷ 9 ∷ [])
    ∷ retrieve_op
    ∷ consume_op 1
    ∷ []

small-view : view small ≡ 2 ∷ 3 ∷ []
unfolding view
small-view = refl

run-Refines_example :
    ((run calls small).0 ≡ (queue_run calls (view small)).0)
    × IsValid (run calls small).1
    × (view (run calls small).1 ≡ (queue_run calls (view small)).1)
run-Refines_example = run-Refines calls small small-IsValid (rw small-view (omega arith))
