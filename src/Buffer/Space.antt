-- ===== src/Buffer/Space.antt =====
-- makeSpace: its loop ends, there is room after it, and it keeps the bytes that were there.
use chat_room.Common.{
  ℕ, zero, suc, ◌+◌, ◌-◌, ◌*◌, ◌^◌, ◌≤◌, ◌<◌, ◌≡◌, refl, sym, ap, ◌∙◌, ◌⊎◌, inl, inr, true, false,
  arith, length, take, drop, replicate, write_at, add64, sub64, mul64, ltb, leb, Bool-cases,
  length-append, length-replicate, length-take, length-drop, length-write_at, take-append,
  drop-append, take-write_at,
}
use native.Mathlib.Nat.{pow-suc}
use chat_room.Common.Text.{Bytes}
use chat_room.Buffer.{
  Buffer, IsValid, peek, readable_bytes, writable_bytes, view, grow_capacity, resize, compact,
  make_space,
}

pub readable_lem : (b : Buffer) → IsValid b → readable_bytes b ≡ b.write_pos - b.read_pos
unfolding readable_bytes
readable_lem b v = omega arith

pub writable_lem : (b : Buffer) → IsValid b → writable_bytes b ≡ length b.storage - b.write_pos
unfolding writable_bytes
writable_lem b v = omega arith

pub length-view : (b : Buffer) → IsValid b → length (view b) ≡ b.write_pos - b.read_pos
unfolding view
length-view b v = omega (
  arith,
  length-take (readable_bytes b) (drop b.read_pos b.storage),
  length-drop b.read_pos b.storage,
  readable_lem b v,
)

pub view_lem :
    (b : Buffer) → IsValid b → view b ≡ take (b.write_pos - b.read_pos) (drop b.read_pos b.storage)
unfolding view
view_lem b v = ap (λ n. take n (drop b.read_pos b.storage)) (readable_lem b v)

double_pow : (cap fuel : ℕ) → cap * 2 * 2 ^ fuel ≡ cap * 2 ^ suc fuel
double_pow cap fuel = omega (arith, ap (λ (t : ℕ). cap * t) (pow-suc 2 fuel))

-- What the loop leaves: the capacity fits, has not shrunk, and is at most twice what was needed.
pub record Fits (write_pos len cap result : ℕ) : Type 0 where
  pub room : write_pos + len ≤ result
  pub kept : cap ≤ result
  pub tight : (result ≤ cap) ⊎ (result < 2 * (write_pos + len))

module _ (w l cap : ℕ) (below : w ≤ cap) (small_cap : cap ≤ 2 ^ 62) where
  small : ltb (sub64 cap w) l ≡ true → cap < w + l
  small more = ground arith

  stop : ltb (sub64 cap w) l ≡ false → Fits w l cap cap
  stop done = record { room = ground arith; kept = omega arith; tight = inl (omega arith) }

  doubled : w + l ≤ 2 ^ 61 → ltb (sub64 cap w) l ≡ true → mul64 cap 2 ≡ cap * 2
  doubled need more = omega (arith, small more)

widen : (w l cap : ℕ) {r : ℕ} → cap < w + l → Fits w l (cap * 2) r → Fits w l cap r
widen w l cap {r} h f = record {
  room = f.room;
  kept = omega arith;
  tight = inr (elim f.tight [ inl e ↦ omega arith | inr e ↦ e ]);
}

-- The loop of makeSpace ends by its test within its fuel.
pub grow_capacity-Fits :
    (fuel write_pos len cap : ℕ)
    → write_pos ≤ cap
    → cap ≤ 2 ^ 62
    → write_pos + len ≤ 2 ^ 61
    → write_pos + len ≤ cap * 2 ^ fuel
    → Fits write_pos len cap (grow_capacity fuel write_pos len cap)
unfolding grow_capacity
grow_capacity-Fits zero w l cap h1 h2 h3 h4 = record {
  room = omega arith;
  kept = omega arith;
  tight = inl (omega arith);
}
grow_capacity-Fits (suc fuel) w l cap h1 h2 h3 h4 = elim (Bool-cases (ltb (sub64 cap w) l)) [
  | inl more ↦
      rw (more, doubled w l cap h1 h2 h3 more)
        (widen w l cap (small w l cap h1 h2 more) (
          grow_capacity-Fits fuel w l (cap * 2) (omega arith)
            (omega (arith, small w l cap h1 h2 more)) h3 (omega (arith, double_pow cap fuel))))
  | inr done ↦ rw done (stop w l cap h1 h2 done)
]

length-resize : (n : ℕ) (bytes : Bytes) → length bytes ≤ n → length (resize n bytes) ≡ n
unfolding resize
length-resize n bytes h = omega (
  arith,
  length-append bytes (replicate (n - length bytes) 0),
  length-replicate {A = ℕ} (n - length bytes) 0,
)

-- What makeSpace promises: the bytes stay, the result is well formed, and `len` more bytes fit.
pub record MakesSpace (len : ℕ) (b c : Buffer) : Type 0 where
  pub valid : IsValid c
  pub same : view c ≡ view b
  pub room : c.write_pos + len ≤ length c.storage

compact-MakesSpace :
    (len : ℕ) (b : Buffer)
    → IsValid b
    → len + (b.write_pos - b.read_pos) ≤ length b.storage
    → MakesSpace len b (compact b)
unfolding compact view
compact-MakesSpace len b v h = record { valid = valid; same = same; room = room }
  where
    moved : Bytes
    moved = take (readable_bytes b) (peek b)

    count : length moved ≡ b.write_pos - b.read_pos
    count = length-view b v

    readable : readable_bytes b ≡ b.write_pos - b.read_pos
    readable = readable_lem b v

    size : length (write_at b.storage 0 moved) ≡ length b.storage
    size = length-write_at b.storage 0 moved (omega (arith, count))

    valid : IsValid (compact b)
    valid = record {
      ordered = omega arith;
      inside = omega (arith, size, readable);
      nonempty = omega (arith, size);
      bounded = omega (arith, size);
    }

    same : view (compact b) ≡ view b
    same =
        view_lem (compact b) valid
        ∙ (ap (λ n. take n (write_at b.storage 0 moved))
              (let e : readable_bytes b - 0 ≡ 0 + length moved = omega (arith, count, readable) in
                e)
            ∙ take-write_at b.storage 0 moved (omega arith))

    room : readable_bytes b + len ≤ length (write_at b.storage 0 moved)
    room = omega (arith, size, readable)

-- The third branch: the vector grows, with zeros behind the old bytes.
resize-MakesSpace :
    (len cap : ℕ) (b : Buffer)
    → IsValid b
    → length b.storage ≤ cap
    → cap ≤ 2 ^ 60
    → b.write_pos + len ≤ cap
    → MakesSpace len b (record b { storage = resize cap b.storage })
unfolding resize
resize-MakesSpace len cap b v h1 h2 h3 = record { valid = valid; same = same; room = room }
  where
    grown : Buffer
    grown = record b { storage = resize cap b.storage }

    zeros : Bytes
    zeros = replicate (cap - length b.storage) 0

    size : length (resize cap b.storage) ≡ cap
    size = length-resize cap b.storage h1

    valid : IsValid grown
    valid = record {
      ordered = v.ordered;
      inside = omega (arith, size);
      nonempty = omega (arith, size);
      bounded = omega (arith, size);
    }

    same : view grown ≡ view b
    same =
        view_lem grown valid
        ∙ (ap (take (b.write_pos - b.read_pos))
              (drop-append b.read_pos b.storage zeros (omega arith))
            ∙ (take-append (b.write_pos - b.read_pos) (drop b.read_pos b.storage) zeros
                  (omega (arith, length-drop b.read_pos b.storage))
                ∙ sym (view_lem b v)))

    room : b.write_pos + len ≤ length (resize cap b.storage)
    room = omega (arith, size)

grown-MakesSpace :
    (len : ℕ) (b : Buffer)
    → IsValid b
    → (b.write_pos - b.read_pos) + len ≤ 2 ^ 57
    → length b.storage < len + (b.write_pos - b.read_pos)
    → MakesSpace len b (record b {
      storage = resize (grow_capacity 64 b.write_pos len (mul64 (length b.storage) 2)) b.storage;
    })
grown-MakesSpace len b v h full = rw doubled_size (
    resize-MakesSpace len _ b v (omega (arith, fits.kept))
      (elim fits.tight [ inl e ↦ omega (arith, e) | inr e ↦ omega (arith, e) ]) fits.room)
  where
    doubled_size : mul64 (length b.storage) 2 ≡ length b.storage * 2
    doubled_size = omega arith

    enough : b.write_pos + len ≤ length b.storage * 2 * 2 ^ 64
    enough = omega arith

    fits :
        Fits b.write_pos len
          (length b.storage * 2)
          (grow_capacity 64 b.write_pos len (length b.storage * 2))
    fits =
        grow_capacity-Fits 64 b.write_pos len (length b.storage * 2) (omega arith) (omega arith)
          (omega arith) enough

pub make_space-MakesSpace :
    (len : ℕ) (b : Buffer)
    → IsValid b
    → (b.write_pos - b.read_pos) + len ≤ 2 ^ 57
    → MakesSpace len b (make_space len b)
unfolding make_space
make_space-MakesSpace len b v h = elim (Bool-cases (leb len (writable_bytes b))) [
  | inl fits ↦ rw fits (record { valid = v; same = refl; room = first fits })
  | inr full ↦ rw full (elim (Bool-cases (leb len (add64 b.read_pos (writable_bytes b)))) [
    | inl fits ↦ rw fits (compact-MakesSpace len b v (second fits))
    | inr short ↦ rw short (grown-MakesSpace len b v h (third short))
  ])
]
  where
    first : leb len (writable_bytes b) ≡ true → b.write_pos + len ≤ length b.storage
    first e = ground (arith, writable_lem b v)

    second :
        leb len (add64 b.read_pos (writable_bytes b)) ≡ true
        → len + (b.write_pos - b.read_pos) ≤ length b.storage
    second e = ground (arith, writable_lem b v)

    third :
        leb len (add64 b.read_pos (writable_bytes b)) ≡ false
        → length b.storage < len + (b.write_pos - b.read_pos)
    third e = ground (arith, writable_lem b v)
