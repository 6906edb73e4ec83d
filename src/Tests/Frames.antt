-- ===== src/Tests/Frames.antt =====
-- WebSocket frames.
use chat_room.Common.{ℕ, ◌≡◌, refl, true, some, List, [], ◌∷◌, ◌++◌, arith, length}
use chat_room.Common.Int.{pos}
use chat_room.Common.Text.{codes}
use chat_room.Ws.Frame.{Frame, returned, out_of_bounds, length_error, try_decode, encode_frame}
use chat_room.Ws.Frame.Decode.{client_frame}
use chat_room.Ws.Frame.RoundTrip.{try_decode-client_frame}
use chat_room.Ws.Frame.Faults.{try_decode_key_overrun, try_decode_length_wraps}
use chat_room.Ws.Frame.Encode.{client_read, client_read-encode_frame}

abbrev greeting : Frame
greeting = record { fin = true; opcode = 1; payload = codes "Hello" }

abbrev key : List ℕ
key = 0x37 ∷ 0xfa ∷ 0x21 ∷ 0x3d ∷ []

-- The masked text frame of RFC 6455, 5.7.
rfc_frame :
    client_frame greeting key
    ≡ 0x81 ∷ 0x85 ∷ 0x37 ∷ 0xfa ∷ 0x21 ∷ 0x3d ∷ 0x7f ∷ 0x9f ∷ 0x4d ∷ 0x51 ∷ 0x58 ∷ []
rfc_frame = refl

try_decode-client_frame_example :
    try_decode (client_frame greeting key ++ (1 ∷ [])) 12
    ≡ returned (record { consumed = pos (length (client_frame greeting key)); frame = greeting })
try_decode-client_frame_example =
    try_decode-client_frame greeting 0x37 0xfa 0x21 0x3d (1 ∷ []) 12 (omega arith) (omega arith)
      (omega arith) (omega arith) (omega arith)

try_decode_key_overrun_example : try_decode (0x81 ∷ 0x85 ∷ 0x37 ∷ []) 3 ≡ out_of_bounds
try_decode_key_overrun_example =
    try_decode_key_overrun 0x81 5 (0x37 ∷ []) (omega arith) (omega arith) (omega arith)
      (omega arith)

try_decode_length_wraps_example :
    try_decode (0x82 ∷ 255 ∷ 255 ∷ 255 ∷ 255 ∷ 255 ∷ 255 ∷ 255 ∷ 255 ∷ 250 ∷ 1 ∷ 2 ∷ 3 ∷ 4 ∷ []) 14
    ≡ length_error
try_decode_length_wraps_example =
    try_decode_length_wraps 0x82 250 1 2 3 4 [] 14 (omega arith) (omega arith) (omega arith)
      (omega arith) (omega arith)

client_read-encode_frame_example :
    client_read (encode_frame 0x9 (codes "hi") ++ (7 ∷ [])) ≡ some (0x9, codes "hi", 7 ∷ [])
client_read-encode_frame_example =
    client_read-encode_frame 0x9 (codes "hi") (7 ∷ []) (omega arith) (omega arith)
