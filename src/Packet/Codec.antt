-- ===== src/Packet/Codec.antt =====
-- encode and decode against each other.
use chat_room.Common.{
  ℕ, zero, suc, ◌+◌, ◌-◌, ◌^◌, ◌≤◌, ◌<◌, ◌≡◌, refl, ap, ◌∙◌, true, [], ◌∷◌, ◌++◌, arith, length,
  take, drop, replicate, write_at, All, add32, length-append, length-take, drop-all, take-append,
  take-all, append-nil, length-replicate,
}
use chat_room.Common.Int.{pos}
use chat_room.Common.Text.{Bytes}
use chat_room.Packet.{
  Packet, DecodeResult, IsByte, net_bytes, net_value, encode, decode, need_more, bad_length,
  max_body_length,
}

-- What stands on the wire: four bytes of length, the type and the body.
abbrev pub wire : Packet → Bytes
wire p = net_bytes (length p.body + 1) ++ (p.type ∷ p.body)

fill :
    (n : ℕ) (b0 b1 b2 b3 t : ℕ) (body : Bytes)
    → n ≡ suc (suc (suc (suc (suc (length body)))))
    → write_at (write_at (write_at (replicate n 0) 0 (b0 ∷ b1 ∷ b2 ∷ b3 ∷ [])) 4 (t ∷ [])) 5 body
      ≡ b0 ∷ b1 ∷ b2 ∷ b3 ∷ t ∷ body
unfolding write_at
fill n b0 b1 b2 b3 t body e = rw e (
    ap (λ r. b0 ∷ b1 ∷ b2 ∷ b3 ∷ t ∷ (body ++ r)) rest
    ∙ ap (λ r. b0 ∷ b1 ∷ b2 ∷ b3 ∷ t ∷ r) (append-nil body))
  where
    rest : drop (5 + length body) (b0 ∷ b1 ∷ b2 ∷ b3 ∷ t ∷ replicate (length body) 0) ≡ []
    rest = drop-all (5 + length body) _ (omega (arith, length-replicate {A = ℕ} (length body) 0))

encode_parts :
    (t : ℕ) (body : Bytes)
    → length body + 1 < 2 ^ 32
    → encode (record { type = t; body = body }) ≡ wire (record { type = t; body = body })
unfolding encode write_at
encode_parts t [] h = refl
encode_parts t (x ∷ xs) h =
    rw (let e : add32 (length (x ∷ xs)) 1 ≡ length (x ∷ xs) + 1 = omega arith in e)
      (fill (4 + (length (x ∷ xs) + 1)) _ _ _ _ t (x ∷ xs) (omega arith))

-- encode writes the wire form, as long as the length fits its 32-bit field.
encode_lem : (p : Packet) → length p.body + 1 < 2 ^ 32 → encode p ≡ wire p
encode_lem p h = encode_parts p.type p.body h

net_value-net_bytes : (n : ℕ) (rest : Bytes) → n < 2 ^ 32 → net_value (net_bytes n ++ rest) ≡ n
net_value-net_bytes n rest h = omega arith

abbrev decoded : Packet → DecodeResult
decoded p = record { consumed = pos (length p.body + 5); packet = p; is_ok = true }

decode-wire :
    (p : Packet) (rest : Bytes)
    → length p.body + 1 ≤ max_body_length
    → decode (wire p ++ rest) (length (wire p ++ rest)) ≡ decoded p
unfolding decode
decode-wire p rest h =
    rw (net_value-net_bytes (length p.body + 1) (p.type ∷ (p.body ++ rest)) (omega arith))
      (ground (arith, length-append p.body rest, body_back))
  where
    body_back : take (length p.body + 1 - 1) (p.body ++ rest) ≡ p.body
    body_back =
        ap (λ k. take k (p.body ++ rest))
          (let e : length p.body + 1 - 1 ≡ length p.body = omega arith in e)
        ∙ (take-append (length p.body) p.body rest (omega arith)
            ∙ take-all (length p.body) p.body (omega arith))

-- decode finds a packet that encode wrote, whatever follows it, and consumes its bytes only: for
-- every body that with its type byte is at most 64 KiB long.
pub decode-encode :
    (p : Packet) (rest : Bytes)
    → length p.body + 1 ≤ max_body_length
    → decode (encode p ++ rest) (length (encode p ++ rest))
      ≡ record { consumed = pos (length (encode p)); packet = p; is_ok = true }
decode-encode p rest h = rw (encode_lem p (omega arith)) (
    decode-wire p rest h
    ∙ ap (λ n. record { consumed = pos n; packet = p; is_ok = true })
        (let e : length p.body + 5 ≡ length (wire p) = omega arith in e))

-- encode does not check the limit that decode has: a longer packet, of less than 2^32 bytes, is
-- refused by its reader.
pub decode-encode_long :
    (p : Packet) (rest : Bytes)
    → max_body_length < length p.body + 1
    → length p.body + 1 < 2 ^ 32
    → decode (encode p ++ rest) (length (encode p ++ rest)) ≡ bad_length
unfolding decode
decode-encode_long p rest h fits =
    rw (encode_lem p fits, net_value-net_bytes (length p.body + 1) (p.type ∷ (p.body ++ rest)) fits)
      (ground arith)

-- Any part from the front of an encoded packet whose body and type are at most 64 KiB together, that is
-- not the whole of it, is answered by "more data is needed".
pub decode-take-encode :
    (p : Packet) (k : ℕ)
    → length p.body + 1 ≤ max_body_length
    → k < length (encode p)
    → decode (take k (encode p)) k ≡ need_more
unfolding decode
decode-take-encode p k h short =
    rw (encode_lem p (omega arith)) (part p k h (rw (encode_lem p (omega arith)) at short))
  where
    part :
        (p : Packet) (k : ℕ)
        → length p.body + 1 ≤ max_body_length
        → k < length (wire p)
        → decode (take k (wire p)) k ≡ need_more
    part p zero h short = refl
    part p (suc zero) h short = refl
    part p (suc (suc zero)) h short = refl
    part p (suc (suc (suc zero))) h short = refl
    part p (suc (suc (suc (suc k)))) h short =
        rw (net_value-net_bytes (length p.body + 1) (take k (p.type ∷ p.body)) (omega arith))
          (ground arith)

-- The other way round.
too_short :
    (data_bytes : Bytes) (len : ℕ)
    → len ≤ length data_bytes
    → length data_bytes < 5
    → ¬ ((decode data_bytes len).is_ok ≡ true)
unfolding decode
too_short data_bytes len inside h e = ground arith

module _ (b0 b1 b2 b3 t : ℕ) (r : Bytes) where
  abbrev bytes : Bytes
  bytes = b0 ∷ b1 ∷ b2 ∷ b3 ∷ t ∷ r

  net_bytes-net_value :
      All IsByte (b0 ∷ b1 ∷ b2 ∷ b3 ∷ []) → net_bytes (net_value bytes) ≡ b0 ∷ b1 ∷ b2 ∷ b3 ∷ []
  net_bytes-net_value h = ground arith

  -- What a successful decode has checked.
  decode_ok :
      (len : ℕ)
      → (decode bytes len).is_ok ≡ true
      → (1 ≤ net_value bytes)
        × (net_value bytes ≤ max_body_length)
        × (4 + net_value bytes ≤ len)
        × (decode bytes len ≡ record {
          consumed = pos (4 + net_value bytes);
          packet = record { type = t; body = take (net_value bytes - 1) r };
          is_ok = true;
        })
  unfolding decode
  decode_ok len h = ground arith

  length-taken :
      (len : ℕ)
      → 4 + net_value bytes ≤ len
      → len ≤ length bytes
      → 1 ≤ net_value bytes
      → length (take (net_value bytes - 1) r) + 1 ≡ net_value bytes
  length-taken len h1 h2 h3 = omega (arith, length-take (net_value bytes - 1) r)

  canonical :
      (len : ℕ)
      → All IsByte (b0 ∷ b1 ∷ b2 ∷ b3 ∷ [])
      → len ≤ length bytes
      → (decode bytes len).is_ok ≡ true
      → (decode bytes len).consumed ≡ pos (length (encode (decode bytes len).packet))
        × (encode (decode bytes len).packet
            ≡ take (length (encode (decode bytes len).packet)) bytes)
  canonical len small inside h = rw e (p_consumed, p_bytes)
    where
      facts :
          (1 ≤ net_value bytes)
          × (net_value bytes ≤ max_body_length)
          × (4 + net_value bytes ≤ len)
          × (decode bytes len ≡ record {
            consumed = pos (4 + net_value bytes);
            packet = record { type = t; body = take (net_value bytes - 1) r };
            is_ok = true;
          })
      facts = decode_ok len h

      e : decode bytes len ≡ record {
        consumed = pos (4 + net_value bytes);
        packet = record { type = t; body = take (net_value bytes - 1) r };
        is_ok = true;
      }
      e = facts.3

      found : Packet
      found = record { type = t; body = take (net_value bytes - 1) r }

      size : length found.body + 1 ≡ net_value bytes
      size = length-taken len facts.2 inside facts.0

      encoded : encode found ≡ b0 ∷ b1 ∷ b2 ∷ b3 ∷ t ∷ take (net_value bytes - 1) r
      encoded =
          encode_lem found (omega (arith, size, facts.1))
          ∙ (ap (λ n. net_bytes n ++ (t ∷ found.body)) size
              ∙ ap (λ z. z ++ (t ∷ found.body)) (net_bytes-net_value small))

      p_consumed : pos (4 + net_value bytes) ≡ pos (length (encode found))
      p_consumed = ap pos (omega (arith, ap length encoded, size))

      p_bytes : encode found ≡ take (length (encode found)) bytes
      p_bytes = rw encoded (
          ap (λ k. b0 ∷ b1 ∷ b2 ∷ b3 ∷ t ∷ take k r)
            (let n : net_value bytes - 1 ≡ length (take (net_value bytes - 1) r) =
                omega (arith, size) in
              n))

-- A packet that decode accepts is the only way to write what it consumed: encoding it again gives
-- exactly the consumed bytes back, where `len` bytes lie behind the pointer and all are bytes.
pub encode-decode :
    (data_bytes : Bytes) (len : ℕ)
    → All IsByte data_bytes
    → len ≤ length data_bytes
    → (decode data_bytes len).is_ok ≡ true
    → ((decode data_bytes len).consumed ≡ pos (length (encode (decode data_bytes len).packet)))
      × (encode (decode data_bytes len).packet
          ≡ take (length (encode (decode data_bytes len).packet)) data_bytes)
encode-decode (b0 ∷ b1 ∷ b2 ∷ b3 ∷ t ∷ r) len small inside h =
    canonical b0 b1 b2 b3 t r len (omega arith) inside h
encode-decode [] len small inside h = absurd (too_short [] len inside (omega arith) h)
encode-decode (a ∷ []) len small inside h = absurd (too_short (a ∷ []) len inside (omega arith) h)
encode-decode (a ∷ b ∷ []) len small inside h =
    absurd (too_short (a ∷ b ∷ []) len inside (omega arith) h)
encode-decode (a ∷ b ∷ c ∷ []) len small inside h =
    absurd (too_short (a ∷ b ∷ c ∷ []) len inside (omega arith) h)
encode-decode (a ∷ b ∷ c ∷ d ∷ []) len small inside h =
    absurd (too_short (a ∷ b ∷ c ∷ d ∷ []) len inside (omega arith) h)
