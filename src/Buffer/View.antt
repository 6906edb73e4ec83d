-- ===== src/Buffer/View.antt =====
-- What each operation of the buffer does to the bytes that it holds.
use chat_room.Common.{
  ℕ, ◌+◌, ◌-◌, ◌^◌, ◌≤◌, ◌≡◌, refl, sym, ap, ◌∙◌, ◌⊎◌, inl, inr, min, true, false, [], ◌++◌, arith,
  length, take, drop, write_at, add64, leb, ◌==◌, Bool-cases, append-nil, length-take,
  length-write_at, drop-all, take-write_at, drop-take, drop-drop, drop-append, length-eq-zero,
}
use chat_room.Common.Text.{Bytes}
use chat_room.Buffer.{
  Buffer, IsValid, init, readable_bytes, view, consume, clear, retrieve_all, make_space,
  write_bytes, append,
}
use chat_room.Buffer.Space.{MakesSpace, make_space-MakesSpace, readable_lem, length-view, view_lem}

pub init-IsValid : IsValid init
unfolding init
init-IsValid = record {
  ordered = omega arith;
  inside = omega arith;
  nonempty = omega arith;
  bounded = omega arith;
}

pub view-init : view init ≡ []
unfolding view init readable_bytes
view-init = refl

module _ (b : Buffer) (v : IsValid b) where
  -- A read pointer moves over `n` bytes.
  consume_pos : (n : ℕ) → (consume n b).read_pos ≡ b.read_pos + min n (b.write_pos - b.read_pos)
  unfolding consume
  consume_pos n = ground (arith, readable_lem b v)

  pub consume-IsValid : (n : ℕ) → IsValid (consume n b)
  consume-IsValid n = record {
    ordered = unfold consume in omega (arith, consume_pos n);
    inside = unfold consume in v.inside;
    nonempty = unfold consume in v.nonempty;
    bounded = unfold consume in v.bounded;
  }

  view-drop :
      (n : ℕ)
      → n ≤ b.write_pos - b.read_pos
      → drop n (view b) ≡ take (b.write_pos - (b.read_pos + n)) (drop (b.read_pos + n) b.storage)
  view-drop n h =
      ap (drop n) (view_lem b v)
      ∙ (drop-take n (b.write_pos - b.read_pos) (drop b.read_pos b.storage)
          ∙ (ap (take (b.write_pos - b.read_pos - n)) (drop-drop b.read_pos n b.storage)
              ∙ ap (λ k. take k (drop (b.read_pos + n) b.storage))
                  (let e : b.write_pos - b.read_pos - n ≡ b.write_pos - (b.read_pos + n) =
                      omega arith in
                    e)))

  -- consume drops from the front, and at most what is there.
  pub view-consume : (n : ℕ) → view (consume n b) ≡ drop n (view b)
  unfolding consume view
  view-consume n =
      view_lem (consume n b) (consume-IsValid n)
      ∙ (ap (λ k. take (b.write_pos - k) (drop k b.storage)) (consume_pos n)
          ∙ least (Bool-cases (leb n (b.write_pos - b.read_pos))))
    where
      held : ℕ
      held = b.write_pos - b.read_pos

      whole : leb n held ≡ true → min n held ≡ n
      whole e = ground arith

      empty : leb n held ≡ false → b.write_pos - (b.read_pos + min n held) ≡ 0
      empty e = ground arith

      least :
          ((leb n held ≡ true) ⊎ (leb n held ≡ false))
          → take
              (b.write_pos - (b.read_pos + min n held))
              (drop (b.read_pos + min n held) b.storage)
            ≡ drop n (view b)
      least (inl e) = rw (whole e) (sym (view-drop n (ground arith)))
      least (inr e) = rw (empty e) (sym (drop-all n (view b) (ground (arith, length-view b v))))

  -- Bytes that fit behind the write position are appended to the view.
  module _ (bytes : Bytes) (fits : b.write_pos + length bytes ≤ length b.storage) where
    pub write_size : length (write_at b.storage b.write_pos bytes) ≡ length b.storage
    write_size = length-write_at b.storage b.write_pos bytes fits

    pub write_step : add64 b.write_pos (length bytes) ≡ b.write_pos + length bytes
    write_step = omega arith

    pub write_bytes-IsValid : IsValid (write_bytes bytes b)
    unfolding write_bytes
    write_bytes-IsValid = record {
      ordered = omega (arith, write_step);
      inside = omega (arith, write_size, write_step);
      nonempty = omega (arith, write_size);
      bounded = omega (arith, write_size);
    }

    written : Bytes
    written = write_at b.storage b.write_pos bytes

    segment :
        take (b.write_pos + length bytes - b.read_pos) (drop b.read_pos written) ≡ view b ++ bytes
    unfolding written
    segment =
        sym (drop-take b.read_pos (b.write_pos + length bytes) written)
        ∙ (ap (drop b.read_pos) (take-write_at b.storage b.write_pos bytes (omega arith))
            ∙ (drop-append b.read_pos (take b.write_pos b.storage) bytes
                  (omega (arith, length-take b.write_pos b.storage))
                ∙ ap (λ t. t ++ bytes)
                    (drop-take b.read_pos b.write_pos b.storage ∙ sym (view_lem b v))))

    pub view-write_bytes : view (write_bytes bytes b) ≡ view b ++ bytes
    unfolding write_bytes written
    view-write_bytes =
        view_lem (write_bytes bytes b) write_bytes-IsValid
        ∙ (ap (λ k. take (k - b.read_pos) (drop b.read_pos written)) write_step ∙ segment)

  pub clear-IsValid : IsValid (clear b)
  unfolding clear
  clear-IsValid = record {
    ordered = omega arith;
    inside = omega arith;
    nonempty = v.nonempty;
    bounded = v.bounded;
  }

-- append puts the bytes behind those that are held, whatever moves or grows underneath.
module _ (bytes : Bytes) (b : Buffer) (v : IsValid b)
    (room : length (view b) + length bytes ≤ 2 ^ 57) where
  made : MakesSpace (length bytes) b (make_space (length bytes) b)
  made = make_space-MakesSpace (length bytes) b v (omega (arith, length-view b v))

  pub append-IsValid : IsValid (append bytes b)
  unfolding append
  append-IsValid = elim (Bool-cases (length bytes == 0)) [
    | inl e ↦ rw e v
    | inr e ↦ rw e (write_bytes-IsValid _ made.valid bytes made.room)
  ]

  pub view-append : view (append bytes b) ≡ view b ++ bytes
  unfolding append
  view-append = elim (Bool-cases (length bytes == 0)) [
    | inl e ↦
        rw e (sym (ap (◌++◌ (view b)) (length-eq-zero bytes (ground arith)) ∙ append-nil (view b)))
    | inr e ↦ rw e (view-write_bytes _ made.valid bytes made.room ∙ ap (λ t. t ++ bytes) made.same)
  ]

-- retrieveAllAsString returns what is held and leaves nothing.
pub retrieve_all_lem :
    (b : Buffer)
    → ((retrieve_all b).0 ≡ view b) × ((retrieve_all b).1 ≡ clear b) × (view (clear b) ≡ [])
unfolding retrieve_all view clear readable_bytes
retrieve_all_lem b = (refl, refl, refl)

-- The number of bytes that are held is what readableBytes says.
pub readable-length : (b : Buffer) → IsValid b → readable_bytes b ≡ length (view b)
readable-length b v = readable_lem b v ∙ sym (length-view b v)
