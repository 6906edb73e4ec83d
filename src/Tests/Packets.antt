-- ===== src/Tests/Packets.antt =====
-- The packets of the TCP protocol.
use chat_room.Common.{
  ℕ, ◌≡◌, refl, true, [], ◌∷◌, ◌++◌, arith, length, take, replicate, write_at, length-replicate,
}
use chat_room.Common.Int.{pos}
use chat_room.Common.Text.{Bytes, codes}
use chat_room.Packet.{Packet, encode, decode, need_more, bad_length}
use chat_room.Packet.Codec.{decode-encode, decode-encode_long, decode-take-encode, encode-decode}

abbrev hello : Packet
hello = record { type = 3; body = codes "hello" }

hello_bytes : encode hello ≡ 0 ∷ 0 ∷ 0 ∷ 6 ∷ 3 ∷ codes "hello"
unfolding encode write_at
hello_bytes = refl

decode-encode_example :
    decode (encode hello ++ (9 ∷ 9 ∷ [])) (length (encode hello ++ (9 ∷ 9 ∷ [])))
    ≡ record { consumed = pos (length (encode hello)); packet = hello; is_ok = true }
decode-encode_example = decode-encode hello (9 ∷ 9 ∷ []) (omega arith)

abbrev too_long : Packet
too_long = record { type = 3; body = replicate 65536 7 }

decode-encode_long_example :
    decode (encode too_long ++ []) (length (encode too_long ++ [])) ≡ bad_length
decode-encode_long_example =
    decode-encode_long too_long [] (omega (arith, length-replicate {A = ℕ} 65536 7))
      (omega (arith, length-replicate {A = ℕ} 65536 7))

decode-take-encode_example : decode (take 7 (encode hello)) 7 ≡ need_more
decode-take-encode_example = decode-take-encode hello 7 (omega arith) (rw hello_bytes (omega arith))

abbrev ping_bytes : Bytes
ping_bytes = 0 ∷ 0 ∷ 0 ∷ 1 ∷ 7 ∷ 0 ∷ 0 ∷ []

encode-decode_example :
    ((decode ping_bytes 6).consumed ≡ pos (length (encode (decode ping_bytes 6).packet)))
    × (encode (decode ping_bytes 6).packet
        ≡ take (length (encode (decode ping_bytes 6).packet)) ping_bytes)
unfolding decode
encode-decode_example = encode-decode ping_bytes 6 (omega arith) (omega arith) refl
