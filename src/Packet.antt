-- ===== src/Packet.antt =====
-- src/protocol/{message.h,packet.h,packet.cpp}: the packets of the TCP protocol.
pub mod Codec
use chat_room.Common.{
  ℕ, ◌+◌, ◌-◌, ◌*◌, ◌/◌, ◌%◌, ◌^◌, List, [], ◌∷◌, ◌++◌, length, take, drop, replicate, get_or, ◌<◌,
  write_at, add32, ltb, if◌then◌else◌, Bool, true, false, ◌||◌,
}
use chat_room.Common.Int.{ℤ, pos, negsuc, to_int32}
use chat_room.Common.Text.{Bytes, is_empty}

-- enum MessageType : uint8_t
abbrev pub msg_login : ℕ
msg_login = 1

abbrev pub msg_login_ack : ℕ
msg_login_ack = 2

abbrev pub msg_chat : ℕ
msg_chat = 3

abbrev pub msg_chat_broad : ℕ
msg_chat_broad = 4

abbrev pub msg_user_list : ℕ
msg_user_list = 5

abbrev pub msg_private : ℕ
msg_private = 6

abbrev pub msg_ping : ℕ
msg_ping = 7

abbrev pub msg_pong : ℕ
msg_pong = 8

abbrev pub msg_logout : ℕ
msg_logout = 9

abbrev pub msg_system : ℕ
msg_system = 10

abbrev pub header_size : ℕ
header_size = 4

abbrev pub type_size : ℕ
type_size = 1

-- 64 KiB.
abbrev pub max_body_length : ℕ
max_body_length = 64 * 1024

pub record Packet : Type 0 where
  pub type : ℕ
  pub body : Bytes

pub record DecodeResult : Type 0 where
  pub consumed : ℤ
  pub packet : Packet
  pub is_ok : Bool

-- htonl and the memcpy of its result: the four bytes of a 32-bit number, the highest first.
abbrev pub net_bytes : ℕ → Bytes
net_bytes n = n / 2 ^ 24 % 256 ∷ n / 2 ^ 16 % 256 ∷ n / 2 ^ 8 % 256 ∷ n % 256 ∷ []

-- The memcpy of four bytes and ntohl.
abbrev pub net_value : Bytes → ℕ
net_value data_bytes =
    get_or data_bytes 0 0 * 2 ^ 24
    + get_or data_bytes 1 0 * 2 ^ 16
    + get_or data_bytes 2 0 * 2 ^ 8
    + get_or data_bytes 3 0

-- encode: a vector of zeros that is filled piece by piece.
unfoldable pub encode : Packet → Bytes
encode pkt =
    let body_length = add32 (length pkt.body) type_size in
    let zeros = replicate (header_size + body_length) 0 in
    let with_length = write_at zeros 0 (net_bytes body_length) in
    let with_type = write_at with_length header_size (pkt.type ∷ []) in
    if is_empty pkt.body then with_type else write_at with_type (header_size + type_size) pkt.body

abbrev pub no_packet : Packet
no_packet = record { type = 0; body = [] }

-- consumed = -1: more data is needed. consumed = 0: the length field is not allowed.
abbrev pub need_more : DecodeResult
need_more = record { consumed = negsuc 0; packet = no_packet; is_ok = false }

abbrev pub bad_length : DecodeResult
bad_length = record { consumed = pos 0; packet = no_packet; is_ok = false }

-- decode: `data_bytes` is what stands from the pointer on, and `len` of it may be read.
unfoldable pub decode : Bytes → ℕ → DecodeResult
decode data_bytes len =
    if ltb len header_size
    then need_more
    else (let body_len = net_value data_bytes in
        if ltb body_len type_size || ltb max_body_length body_len
        then bad_length
        else (let total_len = header_size + body_len in
            if ltb len total_len then need_more else record {
              consumed = to_int32 total_len;
              packet = record {
                type = get_or data_bytes header_size 0;
                body = take (body_len - type_size) (drop (header_size + type_size) data_bytes);
              };
              is_ok = true;
            }))

-- Bytes of a std::string or of the wire.
abbrev pub IsByte : ℕ → Type 0
IsByte b = b < 256
