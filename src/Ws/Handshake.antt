-- ===== src/Ws/Handshake.antt =====
-- src/server/ws_handshake.{h,cpp}: the answer to a Sec-WebSocket-Key.
use chat_room.Common.{
  ℕ, ◌≡◌, refl, ap, ◌∙◌, List, [], ◌∷◌, ◌++◌, ◌+◌, ◌*◌, ◌/◌, ◌<◌, arith, length, All, append-nil,
}
use chat_room.Common.Text.{Bytes, codes}
use chat_room.Ws.Sha1.{init, update, final}
use chat_room.Ws.Sha1.Digest.{sha1_spec, digest, final-update_all}
use chat_room.Ws.Base64.{base64_encode}
use chat_room.Ws.Base64.RoundTrip.{
  base64_decode, base64_decode-encode, length-base64_encode, rfc_base64, base64_encode_lem,
}

-- MAGIC_GUID
abbrev pub magic_guid : Bytes
magic_guid = codes "258EAFA5-E914-47DA-95CA-C5AB0DC85B11"

-- computeAcceptKey; `garbage` is what stands in the uninitialised buffer of the Sha1 object.
unfoldable pub compute_accept_key : List ℕ → Bytes → Bytes
compute_accept_key garbage client_key =
    base64_encode (final (update (client_key ++ magic_guid) (init garbage)))

sha1_spec-AreBytes :
    (msg : Bytes) → All (λ b. b < 256) (sha1_spec msg) × (length (sha1_spec msg) ≡ 20)
unfolding sha1_spec digest
sha1_spec-AreBytes msg = (omega arith, refl)

-- The answer to a key is the base64 encoding of RFC 4648 of the SHA-1 digest of RFC 3174 of the key
-- followed by the GUID of RFC 6455, 28 bytes that decode to the digest, whatever the 64 bytes of the
-- object's buffer held before.
pub compute_accept_key_lem :
    (garbage : List ℕ) (client_key : Bytes)
    → length garbage ≡ 64
    → (compute_accept_key garbage client_key
        ≡ rfc_base64 (sha1_spec (client_key ++ codes "258EAFA5-E914-47DA-95CA-C5AB0DC85B11")))
      × (base64_decode (compute_accept_key garbage client_key)
          ≡ sha1_spec (client_key ++ codes "258EAFA5-E914-47DA-95CA-C5AB0DC85B11"))
      × (length (compute_accept_key garbage client_key) ≡ 28)
unfolding compute_accept_key
compute_accept_key_lem garbage client_key g = rw hashed (
  base64_encode_lem _ (sha1_spec-AreBytes (client_key ++ magic_guid)).0,
  base64_decode-encode _ (sha1_spec-AreBytes (client_key ++ magic_guid)).0,
  length-base64_encode _
      ∙ ap (λ n. (n + 2) / 3 * 4) (sha1_spec-AreBytes (client_key ++ magic_guid)).1,
)
  where
    hashed :
        final (update (client_key ++ magic_guid) (init garbage))
        ≡ sha1_spec (client_key ++ magic_guid)
    hashed =
        final-update_all ((client_key ++ magic_guid) ∷ []) garbage g
        ∙ ap sha1_spec (append-nil (client_key ++ magic_guid))
