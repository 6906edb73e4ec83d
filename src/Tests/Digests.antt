-- ===== src/Tests/Digests.antt =====
-- SHA-1, base64 and the handshake.
use chat_room.Common.{ℕ, ◌≡◌, refl, List, [], ◌∷◌, ◌++◌, arith, length, replicate, write_at}
use chat_room.Common.Text.{codes}
use chat_room.Ws.Sha1.{init, update, final, hash_bytes}
use chat_room.Ws.Sha1.Round.{process_block}
use chat_room.Ws.Sha1.Digest.{sha1_spec, update_all, final-update_all}
use chat_room.Ws.Base64.{base64_encode, letter}
use chat_room.Ws.Base64.RoundTrip.{base64_decode, base64_decode-encode, rfc_base64}
use chat_room.Ws.Handshake.{compute_accept_key, compute_accept_key_lem}

abbrev dirty : List ℕ
dirty = replicate 64 0xcd

-- "abc", RFC 3174, 7.3.
sha1_abc :
    final (update (codes "abc") (init dirty))
    ≡ 0xa9 ∷ 0x99 ∷ 0x3e ∷ 0x36 ∷ 0x47 ∷ 0x06 ∷ 0x81 ∷ 0x6a ∷ 0xba ∷ 0x3e ∷ 0x25 ∷ 0x71 ∷ 0x78
      ∷ 0x50 ∷ 0xc2 ∷ 0x6c ∷ 0x9c ∷ 0xd0 ∷ 0xd8 ∷ 0x9d ∷ []
unfolding init update final hash_bytes process_block write_at
sha1_abc = refl

final-update_all_example :
    final (update_all (codes "a" ∷ codes "bc" ∷ []) (init dirty)) ≡ sha1_spec (codes "abc")
final-update_all_example = final-update_all (codes "a" ∷ codes "bc" ∷ []) dirty refl

base64_decode-encode_example : base64_decode (base64_encode (codes "Man!")) ≡ codes "Man!"
base64_decode-encode_example = base64_decode-encode (codes "Man!") (omega arith)

compute_accept_key_lem_example :
    (compute_accept_key dirty (codes "dGhlIHNhbXBsZSBub25jZQ==")
      ≡ rfc_base64 (
          sha1_spec
            (codes "dGhlIHNhbXBsZSBub25jZQ==" ++ codes "258EAFA5-E914-47DA-95CA-C5AB0DC85B11")))
    × (base64_decode (compute_accept_key dirty (codes "dGhlIHNhbXBsZSBub25jZQ=="))
        ≡ sha1_spec
            (codes "dGhlIHNhbXBsZSBub25jZQ==" ++ codes "258EAFA5-E914-47DA-95CA-C5AB0DC85B11"))
    × (length (compute_accept_key dirty (codes "dGhlIHNhbXBsZSBub25jZQ==")) ≡ 28)
compute_accept_key_lem_example =
    compute_accept_key_lem dirty (codes "dGhlIHNhbXBsZSBub25jZQ==") refl

-- The example of RFC 6455, 1.3.
rfc_example :
    compute_accept_key (replicate 64 0) (codes "dGhlIHNhbXBsZSBub25jZQ==")
    ≡ codes "s3pPLMBiTxaQ9kYGzzhZRbK+xOo="
unfolding compute_accept_key init update final hash_bytes process_block base64_encode letter
    write_at
rfc_example = refl
