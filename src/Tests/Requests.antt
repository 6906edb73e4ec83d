-- ===== src/Tests/Requests.antt =====
-- The theorems on src/server/http_request.cpp at a concrete request, and a run of the parser.
use chat_room.Http.Request
use chat_room.Http.Request.Line.{
  print_query, print_request_line, value_of, get_query-parse_request_line,
}
use chat_room.Http.Response
use chat_room.Http.Response.{HttpResponse, to_string}
use chat_room.Http.Response.Wire.{IsPlain, body_of, body_of-to_string}
use chat_room.Http.Request.Text.{digits_value, lower}
use chat_room.Common.{true, some, [], ◌∷◌, ◌++◌, ◌≡◌, refl, arith, length}
use chat_room.Common.Text.{Bytes, codes, text_eq}
use chat_room.Common.Dict.{Dict}
use chat_room.Buffer
use chat_room.Http.Request.{
  HttpRequest, init, parse, get_query, query_loop, parse_headers, header_loop, split_url,
  parse_request_line,
}
use chat_room.Http.Request.Text.{find, starts_with}
use chat_room.Http.Request.Parse.{Keeps, parse-Keeps}

abbrev line : Bytes
line = codes "GET /api/messages?since=7&room=a HTTP/1.1"

abbrev asked : Bytes
asked = line ++ (13 ∷ 10 ∷ 13 ∷ 10 ∷ [])

abbrev incoming : Buffer.Buffer
incoming = record { storage = asked; read_pos = 0; write_pos = length asked }

incoming-IsValid : Buffer.IsValid incoming
incoming-IsValid = record {
  ordered = omega arith;
  inside = omega arith;
  nonempty = omega arith;
  bounded = omega arith;
}

incoming-view : Buffer.view incoming ≡ asked
unfolding Buffer.view Buffer.readable_bytes Buffer.peek
incoming-view = refl

parse-Keeps_example : Keeps (Buffer.view incoming) (parse incoming init)
parse-Keeps_example = parse-Keeps incoming init incoming-IsValid (rw incoming-view (omega arith))

parsed_query : (parse_request_line line init).1.query ≡ codes "since=7&room=a"
unfolding parse_request_line find starts_with text_eq split_url
parsed_query = refl

-- A response with one header and the body "hello".
abbrev pub greeting : HttpResponse
greeting =
    Response.with_body (codes "hello") (record (Response.with_code 200) {
      headers = (codes "Content-Type", codes "text/plain") ∷ [];
    })

greeting-IsPlain : IsPlain greeting
unfolding Response.default_reason
greeting-IsPlain = record { reason = omega arith; headers = ((omega arith, omega arith), tt) }

body_of-to_string_example :
    (body_of (to_string greeting) ≡ some (codes "hello"))
    × ((size : Bytes) × (after : Bytes) × (to_string greeting
          ≡ Response.status_line greeting
            ++ Response.header_lines greeting.headers
            ++ (codes "Content-Length: " ++ size ++ Request.crlf)
            ++ after)
        × (digits_value 0 size ≡ 5))
unfolding Response.has_name Response.default_reason lower text_eq
body_of-to_string_example = body_of-to_string greeting greeting-IsPlain refl (omega arith)

abbrev search_query : Dict Bytes Bytes
search_query =
    (codes "room", codes "a=b") ∷ (codes "since", codes "7") ∷ (codes "room", codes "c") ∷ []

get_query-parse_request_line_example :
    (parsed : HttpRequest) × (parse_request_line
        (print_request_line
          (codes "GET")
          (codes "/api")
          (print_query search_query)
          (codes "HTTP/1.1"))
        init
      ≡ (true, parsed))
    × (parsed.method ≡ codes "GET")
    × (parsed.path ≡ codes "/api")
    × (parsed.version ≡ codes "HTTP/1.1")
    × ((key : Bytes) → get_query key parsed ≡ value_of key search_query)
unfolding print_query text_eq
get_query-parse_request_line_example =
    get_query-parse_request_line (codes "GET") (codes "/api") (codes "HTTP/1.1") search_query init
      (ground arith) (ground arith) (ground arith) (ground arith) refl
      (
        (ground arith, ground arith),
        ((ground arith, ground arith), ((ground arith, ground arith), tt)),
      )
      refl
