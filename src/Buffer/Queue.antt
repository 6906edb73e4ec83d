-- ===== src/Buffer/Queue.antt =====
-- The contract of common/buffer.h: the buffer is a queue of bytes.
use chat_room.Common.{
  ℕ, ◌+◌, ◌^◌, ◌≤◌, ◌≡◌, refl, sym, ap, ap₂, subst, ◌∙◌, List, [], ◌∷◌, ◌++◌, length, drop,
}
use chat_room.Common.Text.{Bytes}
use chat_room.Buffer.{Buffer, IsValid, view, consume, retrieve_all, append}
use chat_room.Buffer.View.{
  append-IsValid, view-append, consume-IsValid, view-consume, clear-IsValid, retrieve_all_lem,
}

pub data Op : Type 0 where
  append_op : Bytes → Op
  consume_op : ℕ → Op
  retrieve_op : Op

-- One call on the buffer, with the bytes that it returns.
pub step : Op → Buffer → Bytes × Buffer
step (append_op bytes) b = ([], append bytes b)
step (consume_op n) b = ([], consume n b)
step retrieve_op b = retrieve_all b

pub run : List Op → Buffer → List Bytes × Buffer
unfolding step
run [] b = ([], b)
run (op ∷ ops) b = let (out, b') = step op b in let (outs, last) = run ops b' in (out ∷ outs, last)

-- The same calls on a plain queue.
abbrev pub queue_step : Op → Bytes → Bytes × Bytes
queue_step (append_op bytes) q = ([], q ++ bytes)
queue_step (consume_op n) q = ([], drop n q)
queue_step retrieve_op q = (q, [])

abbrev pub queue_run : List Op → Bytes → List Bytes × Bytes
queue_run [] q = ([], q)
queue_run (op ∷ ops) q = (
  ((queue_step op q).0 ∷ (queue_run ops (queue_step op q).1).0),
  (queue_run ops (queue_step op q).1).1,
)

-- No append makes the queue longer than 2^57 bytes.
abbrev pub FitsIn : Op → Bytes → Type 0
FitsIn (append_op bytes) q = length q + length bytes ≤ 2 ^ 57
FitsIn (consume_op n) q = Unit {0}
FitsIn retrieve_op q = Unit {0}

abbrev pub AllFit : List Op → Bytes → Type 0
AllFit [] q = Unit {0}
AllFit (op ∷ ops) q = FitsIn op q × AllFit ops (queue_step op q).1

abbrev Refines : Bytes × Buffer → Bytes × Bytes → Type 0
Refines c a = (c.0 ≡ a.0) × IsValid c.1 × (view c.1 ≡ a.1)

step-Refines :
    (op : Op) (b : Buffer)
    → IsValid b
    → FitsIn op (view b)
    → Refines (step op b) (queue_step op (view b))
unfolding step
step-Refines (append_op bytes) b v h = (refl, append-IsValid bytes b v h, view-append bytes b v h)
step-Refines (consume_op n) b v h = (refl, consume-IsValid b v n, view-consume b v n)
step-Refines retrieve_op b v h = (
  (retrieve_all_lem b).0,
  subst IsValid (sym (retrieve_all_lem b).1) (clear-IsValid b v),
  ap view (retrieve_all_lem b).1 ∙ (retrieve_all_lem b).2,
)

run-Refines_at :
    (ops : List Op) (b : Buffer) (q : Bytes)
    → IsValid b
    → view b ≡ q
    → AllFit ops q
    → ((run ops b).0 ≡ (queue_run ops q).0)
      × IsValid (run ops b).1
      × (view (run ops b).1 ≡ (queue_run ops q).1)
unfolding run
run-Refines_at [] b q v e h = (refl, v, e)
run-Refines_at (op ∷ ops) b q v e h =
    let r : Refines (step op b) (queue_step op q) =
      subst (λ t. Refines (step op b) (queue_step op t)) e
        (step-Refines op b v (subst (FitsIn op) (sym e) h.0)) in
    let ih = run-Refines_at ops (step op b).1 (queue_step op q).1 r.1 r.2 h.1 in
    (ap₂ ◌∷◌ r.0 ih.0, ih.1, ih.2)

-- From a well-formed buffer, any calls of append, consume and retrieveAll return the bytes that the
-- same calls return on a plain queue of the bytes held, and leave a well-formed buffer that holds what the queue holds, as long
-- as no append makes the queue longer than 2^57 bytes.
pub run-Refines :
    (ops : List Op) (b : Buffer)
    → IsValid b
    → AllFit ops (view b)
    → ((run ops b).0 ≡ (queue_run ops (view b)).0)
      × IsValid (run ops b).1
      × (view (run ops b).1 ≡ (queue_run ops (view b)).1)
run-Refines ops b v h = run-Refines_at ops b (view b) v refl h
