-- ===== src/Http/Response.antt =====
-- src/server/http_response.{h,cpp}: the responses and how they are printed. The order of the headers
-- is that of the list.
pub mod Digits
pub mod Lines
pub mod Wire
use chat_room.Common.{
  ℕ, zero, suc, ◌+◌, ◌/◌, ◌%◌, Bool, false, [], ◌∷◌, ◌++◌, ◌==◌, if◌then◌else◌, ltb, ◌||◌, length,
}
use chat_room.Common.Text.{Bytes, codes, text_eq, is_empty}
use chat_room.Common.Dict
use chat_room.Common.Dict.{Dict}
use chat_room.Common.Keys.{text_key}
use chat_room.Http.Request.{crlf}
use chat_room.Http.Request.Text.{lower}

-- defaultReason
unfoldable pub default_reason : ℕ → Bytes
default_reason code =
    if code == 200
    then codes "OK"
    else if code == 201
    then codes "Created"
    else if code == 204
    then codes "No Content"
    else if code == 301
    then codes "Moved Permanently"
    else if code == 302
    then codes "Found"
    else if code == 304
    then codes "Not Modified"
    else if code == 400
    then codes "Bad Request"
    else if code == 401
    then codes "Unauthorized"
    else if code == 403
    then codes "Forbidden"
    else if code == 404
    then codes "Not Found"
    else if code == 405
    then codes "Method Not Allowed"
    else if code == 411
    then codes "Length Required"
    else if code == 413
    then codes "Payload Too Large"
    else if code == 500
    then codes "Internal Server Error"
    else if code == 501
    then codes "Not Implemented"
    else if code == 502
    then codes "Bad Gateway"
    else if code == 503
    then codes "Service Unavailable"
    else codes "Unknown"

pub record HttpResponse : Type 0 where
  pub status_code : ℕ
  pub reason : Bytes
  pub headers : Dict Bytes Bytes
  pub body : Bytes
  pub keep_alive : Bool

-- HttpResponse::HttpResponse()
abbrev pub init : HttpResponse
init = record {
  status_code = 200;
  reason = codes "OK";
  headers = [];
  body = [];
  keep_alive = false;
}

-- HttpResponse::HttpResponse(int)
abbrev pub with_code : ℕ → HttpResponse
with_code code = record init { status_code = code; reason = default_reason code }

-- HttpResponse::status
abbrev pub status : ℕ → Bytes → HttpResponse → HttpResponse
status code reason r = record r {
  status_code = code;
  reason = if is_empty reason then default_reason code else reason;
}

-- HttpResponse::header
abbrev pub header : Bytes → Bytes → HttpResponse → HttpResponse
header k v r = record r { headers = Dict.insert k v r.headers }

-- HttpResponse::contentType
abbrev pub content_type : Bytes → HttpResponse → HttpResponse
content_type mime r = header (codes "Content-Type") mime r

-- HttpResponse::body
abbrev pub with_body : Bytes → HttpResponse → HttpResponse
with_body s r = record r { body = s }

-- HttpResponse::bodyJson
abbrev pub body_json : Bytes → HttpResponse → HttpResponse
body_json json_str r =
    with_body json_str (header (codes "Content-Type") (codes "application/json") r)

-- HttpResponse::setKeepAlive
abbrev pub set_keep_alive : Bool → HttpResponse → HttpResponse
set_keep_alive ka r = record r { keep_alive = ka }

-- out << n: the decimal digits. Twenty of them are enough for a size_t.
unfoldable pub digits : ℕ → ℕ → Bytes
digits zero n = []
digits (suc fuel) n =
    let more = digits fuel (n / 10) ++ ((48 + n % 10) ∷ []) in
    if ltb n 10 then (48 + n) ∷ [] else more

unfoldable pub decimal : ℕ → Bytes
unfolding digits
decimal n = digits 20 n

-- Whether a header has a name, as the loop of toString finds with the lower-case names.
unfoldable pub has_name : Bytes → Dict Bytes Bytes → Bool
has_name name [] = false
has_name name ((k, v) ∷ headers) = text_eq (lower k) name || has_name name headers

-- kv.first << ':' << kv.second << "\r\n"
abbrev pub header_line : Bytes → Bytes → Bytes
header_line k v = k ++ (58 ∷ v) ++ crlf

unfoldable pub header_lines : Dict Bytes Bytes → Bytes
header_lines [] = []
header_lines ((k, v) ∷ headers) = header_line k v ++ header_lines headers

-- "HTTP/1.1 " << statusCode_ << " " << reason_ << "\r\n"
abbrev pub status_line : HttpResponse → Bytes
status_line r = codes "HTTP/1.1 " ++ decimal r.status_code ++ (32 ∷ r.reason) ++ crlf

-- The headers that toString adds.
abbrev pub added_length : HttpResponse → Bytes
added_length r =
    if has_name (codes "content-length") r.headers
    then []
    else codes "Content-Length: " ++ decimal (length r.body) ++ crlf

abbrev pub added_connection : HttpResponse → Bytes
added_connection r =
    if has_name (codes "connection") r.headers
    then []
    else codes "Connection: "
      ++ (if r.keep_alive then codes "keep-alive" else codes "close")
      ++ crlf

-- HttpResponse::toString
unfoldable pub to_string : HttpResponse → Bytes
to_string r =
    status_line r
    ++ header_lines r.headers
    ++ added_length r
    ++ added_connection r
    ++ crlf
    ++ r.body

-- HttpResponse::makeError
unfoldable pub make_error : ℕ → Bytes → HttpResponse
unfolding default_reason Dict.insert
make_error code msg =
    with_body (codes "{\"error\":\"" ++ msg ++ codes "\"}")
      (header (codes "Content-Type") (codes "application/json") (with_code code))

-- HttpResponse::makeJson
unfoldable pub make_json : ℕ → Bytes → HttpResponse
unfolding default_reason Dict.insert
make_json code json_str =
    header (codes "Content-Type") (codes "application/json") (with_body json_str (with_code code))
