-- ===== src/Http/Request.antt =====
-- src/server/http_request.{h,cpp}: the parser of requests. A loop over positions in a text is a loop
-- over the rest of the text, with as much fuel as the text has bytes, and one.
pub mod Text
pub mod Parse
pub mod Fuel
pub mod Line
use chat_room.Common.{
  ℕ, zero, suc, ◌+◌, ◌-◌, ◌*◌, ◌^◌, Bool, true, false, Option, none, some, List, [], ◌∷◌, ◌++◌,
  ◌==◌, if◌then◌else◌, ltb, leb, ◌&&◌, ◌||◌, not, length, take, drop, map,
}
use chat_room.Common.Text.{Bytes, codes, text_eq, is_empty}
use chat_room.Common.Dict
use chat_room.Common.Dict.{Dict}
use chat_room.Common.Keys.{text_key}
use chat_room.Buffer
use chat_room.Buffer.{Buffer}
use chat_room.Http.Request.Text.{find, lower, trim, to_number}

pub record HttpRequest : Type 0 where
  pub ok : Bool
  pub method : Bytes
  pub path : Bytes
  pub query : Bytes
  pub version : Bytes
  pub headers : Dict Bytes Bytes
  pub body : Bytes

-- A request before parse.
abbrev pub init : HttpRequest
init = record {
  ok = false;
  method = [];
  path = [];
  query = [];
  version = [];
  headers = [];
  body = [];
}

abbrev pub crlf : Bytes
crlf = 13 ∷ 10 ∷ []

-- HttpRequest::getHeader
unfoldable pub get_header : Bytes → HttpRequest → Bytes
get_header k r = elim (Dict.lookup (lower k) r.headers) [ none ↦ [] | some v ↦ v ]

-- The loop of HttpRequest::getQuery, from a position on.
unfoldable pub query_loop : ℕ → Bytes → Bytes → Bytes
query_loop zero k rest = []
query_loop (suc n) k rest = elim (find (codes "=") rest) [
  | none ↦ []
  | some eq ↦
      let key = take eq rest in
      let after = drop (eq + 1) rest in
      elim (find (codes "&") after) [
        | none ↦ if text_eq key k then after else []
        | some amp ↦
            let next = query_loop n k (drop (amp + 1) after) in
            if text_eq key k then take amp after else next
      ]
]

-- HttpRequest::getQuery
unfoldable pub get_query : Bytes → HttpRequest → Bytes
get_query k r = query_loop (suc (length r.query)) k r.query

-- The end of HttpRequest::parseRequestLine: the path and the query.
unfoldable pub split_url : Bytes → HttpRequest → Bool × HttpRequest
split_url url r =
    let split : HttpRequest = elim (find (codes "?") url) [
      | none ↦ record r { path = url; query = [] }
      | some q ↦ record r { path = take q url; query = drop (q + 1) url }
    ] in
    (not (is_empty split.path), split)

-- HttpRequest::parseRequestLine
unfoldable pub parse_request_line : Bytes → HttpRequest → Bool × HttpRequest
parse_request_line line r = elim (find (codes " ") line) [
  | none ↦ (false, r)
  | some sp1 ↦
      let after = drop (sp1 + 1) line in
      elim (find (codes " ") after) [
        | none ↦ (false, r)
        | some len ↦
            let version = drop (len + 1) after in
            let named = record r { method = take sp1 line; version = version } in
            if text_eq version (codes "HTTP/1.1") || text_eq version (codes "HTTP/1.0")
            then split_url (take len after) named
            else (false, named)
      ]
]

-- One line of HttpRequest::parseHeaders.
unfoldable pub parse_header : Bytes → Dict Bytes Bytes → Dict Bytes Bytes
parse_header line headers = elim (find (codes ":") line) [
  | none ↦ headers
  | some colon ↦ Dict.insert (lower (trim (take colon line))) (trim (drop (colon + 1) line)) headers
]

-- The loop of HttpRequest::parseHeaders, from a position on.
unfoldable pub header_loop : ℕ → Bytes → Dict Bytes Bytes → Dict Bytes Bytes
header_loop zero block headers = headers
header_loop (suc n) block headers = elim (find crlf block) [
  | none ↦ if is_empty block then headers else parse_header block headers
  | some end ↦ header_loop n (drop (end + 2) block) (parse_header (take end block) headers)
]

-- HttpRequest::parseHeaders
unfoldable pub parse_headers : Bytes → HttpRequest → HttpRequest
parse_headers block r = record r { headers = header_loop (suc (length block)) block r.headers }

-- std::stoul in its try block: 0 where it throws.
unfoldable pub content_length : HttpRequest → ℕ
content_length r = elim (to_number (get_header (codes "Content-Length") r)) [
  | none ↦ 0
  | some n ↦ n
]

-- The end of HttpRequest::parse, with the head read: the body.
unfoldable pub take_body : Bytes → Bytes → HttpRequest → Buffer → Bool × HttpRequest × Buffer
take_body snap rest r buf =
    let n = content_length r in
    if ltb (length rest) n then (false, r, Buffer.append snap buf) else (
      true,
      record r { ok = true; body = take n rest },
      if ltb n (length rest) then Buffer.append (drop n rest) buf else buf,
    )

-- HttpRequest::parse, with the end of the head found: the request line and the headers.
unfoldable pub parse_head :
    Bytes → Bytes → Bytes → HttpRequest → Buffer → Bool × HttpRequest × Buffer
parse_head snap head rest r buf =
    let line_end = find crlf head in
    let req_line : Bytes = elim line_end [ none ↦ head | some i ↦ take i head ] in
    let parsed = parse_request_line req_line r in
    if parsed.0
    then take_body snap rest
        (elim line_end [ none ↦ parsed.1 | some i ↦ parse_headers (drop (i + 2) head) parsed.1 ])
        buf
    else (false, parsed.1, Buffer.append snap buf)

-- HttpRequest::parse, with what the buffer held and the buffer cleared.
unfoldable pub parse_taken : Bytes → Buffer → HttpRequest → Bool × HttpRequest × Buffer
parse_taken snap buf r =
    let fresh = record r { ok = false } in
    elim (find (crlf ++ crlf) snap) [
      | none ↦ (false, fresh, Buffer.append snap buf)
      | some hdr_end ↦ parse_head snap (take hdr_end snap) (drop (hdr_end + 4) snap) fresh buf
    ]

-- HttpRequest::parse
unfoldable pub parse : Buffer → HttpRequest → Bool × HttpRequest × Buffer
parse buf r = let taken = Buffer.retrieve_all buf in parse_taken taken.0 taken.1 r
