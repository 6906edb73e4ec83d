-- ===== src/Web/Server.antt =====
-- src/server/http_server.cpp: dispatch to the WebSocket upgrade, to a route or to a static file, and
-- the connections that the server accepts.
pub mod Static
pub mod Forms
pub mod Upgrade
use chat_room.Common.{
  ℕ, Bool, true, false, Option, none, some, [], ◌∷◌, ◌++◌, ◌==◌, if◌then◌else◌, ◌&&◌, ◌||◌, not,
}
use chat_room.Common.Text.{Bytes, codes, text_eq, is_empty}
use chat_room.Common.Dict
use chat_room.Common.Dict.{Dict}
use chat_room.Common.Keys.{nat_key, text_key}
use chat_room.Common.Run.{Run, done}
use chat_room.Http.Request.{HttpRequest, get_header, get_query}
use chat_room.Http.Request.Text.{find, starts_with, lower}
use chat_room.Http.Response.{
  HttpResponse, with_code, status, header, content_type, with_body, make_error,
}
use chat_room.Http.Response
use chat_room.TokenStore
use chat_room.Ws.Handshake.{compute_accept_key}
use chat_room.Web.Connection.{send, mark_upgraded}
use chat_room.Web.Routes.{Handler}
use chat_room.Web.World.{Web, Host, has_both}

-- What follows the last '.', as find_last_of and substr give it.
unfoldable pub after_last : ℕ → Bytes → Option Bytes
after_last c [] = none
after_last c (x ∷ s) = elim (after_last c s) [
  | some t ↦ some t
  | none ↦ if x == c then some s else none
]

abbrev pub octets : Bytes
octets = codes "application/octet-stream"

unfoldable pub mime_of : Bytes → Bytes
mime_of ext =
    if text_eq ext (codes "html") || text_eq ext (codes "htm")
    then codes "text/html; charset=utf-8"
    else if text_eq ext (codes "css")
    then codes "text/css; charset=utf-8"
    else if text_eq ext (codes "js")
    then codes "application/javascript; charset=utf-8"
    else if text_eq ext (codes "json")
    then codes "application/json; charset=utf-8"
    else if text_eq ext (codes "png")
    then codes "image/png"
    else if text_eq ext (codes "jpg") || text_eq ext (codes "jpeg")
    then codes "image/jpeg"
    else if text_eq ext (codes "gif")
    then codes "image/gif"
    else if text_eq ext (codes "svg")
    then codes "image/svg+xml"
    else if text_eq ext (codes "ico")
    then codes "image/x-icon"
    else if text_eq ext (codes "txt")
    then codes "text/plain; charset=utf-8"
    else octets

-- HttpServer::mimeType
unfoldable pub mime_type : Bytes → Bytes
unfolding mime_of
mime_type path = elim (after_last 46 path) [ none ↦ octets | some ext ↦ mime_of (lower ext) ]

-- Whether the test of dispatch_ asks for an upgrade.
unfoldable pub is_upgrade : HttpRequest → Bool
is_upgrade req =
    let upg = get_header (codes "Upgrade") req in
    let con = get_header (codes "Connection") req in
    text_eq req.method (codes "GET")
    && text_eq req.path (codes "/ws")
    && not (is_empty upg)
    && (text_eq upg (codes "websocket") || text_eq upg (codes "WebSocket"))
    && elim (find (codes "Upgrade") con) [ none ↦ false | some i ↦ true ]

-- The first route whose prefix the path begins with.
unfoldable pub find_route : Bytes → Dict Bytes Handler → Option Handler
find_route path [] = none
find_route path ((prefix, h) ∷ routes) =
    if starts_with prefix path then some h else find_route path routes

-- ".html", where the path has no '.' and there is such a file.
unfoldable pub html_suffix : (Bytes → Option Bytes) → Bytes → Bytes → Bytes
html_suffix files full url = elim (after_last 46 url) [
  | some ext ↦ []
  | none ↦ elim (files (full ++ codes ".html")) [ none ↦ [] | some content ↦ codes ".html" ]
]

-- What is answered with the file at a path, or without one.
abbrev pub served : Option Bytes → Bytes → HttpResponse
served none path = make_error 404 (codes "Not Found")
served (some body) path = with_body body (content_type (mime_type path) (with_code 200))

-- The end of dispatch_, behind the test for "..": the file, or 404.
unfoldable pub file_response : (Bytes → Option Bytes) → Bytes → Bytes → HttpResponse
unfolding html_suffix
file_response files webroot url =
    let full = webroot ++ url in
    let suffix = html_suffix files full url in served (files (full ++ suffix)) (url ++ suffix)

-- The static part of dispatch_: what it answers to a path.
unfoldable pub static_response : (Bytes → Option Bytes) → Bytes → Bytes → HttpResponse
unfolding file_response
static_response files webroot path =
    let url = if text_eq path (codes "/") then codes "/index.html" else path in
    elim (find (codes "..") url) [
      | some i ↦ make_error 403 (codes "Forbidden")
      | none ↦ file_response files webroot url
    ]

-- The response with status 101.
unfoldable pub switching : Bytes → HttpResponse
switching accept = header (codes "Sec-WebSocket-Accept") accept (
    header (codes "Connection") (codes "Upgrade") (
      header (codes "Upgrade") (codes "websocket")
        (status 101 (codes "Switching Protocols") Response.init)))

-- The user of the token in an upgrade's query: none is the empty string.
unfoldable pub upgrade_user : HttpRequest → Web → Bytes
upgrade_user req w =
    let token = get_query (codes "token") req in
    if is_empty token then [] else TokenStore.lookup token w.tokens

-- HttpServer::handleWsUpgrade_
unfoldable pub handle_ws_upgrade : Host → HttpRequest → ℕ → Web → Web
unfolding upgrade_user switching
handle_ws_upgrade host req p w =
    let user = upgrade_user req w in
    let key = get_header (codes "Sec-WebSocket-Key") req in
    if not (has_both w.deps)
    then send (make_error 500 (codes "server not configured for WS")) p w
    else if is_empty user
    then send (make_error 401 (codes "invalid token")) p w
    else if not (text_eq (get_header (codes "Sec-WebSocket-Version") req) (codes "13"))
    then send (make_error 400 (codes "Sec-WebSocket-Version must be 13")) p w
    else if is_empty key
    then send (make_error 400 (codes "missing Sec-WebSocket-Key")) p w
    else send (switching (compute_accept_key host.sha1_garbage key)) p (mark_upgraded user p w)

-- HttpServer::dispatch_
unfoldable pub dispatch : Host → Dict Bytes Handler → HttpRequest → ℕ → Web → Run Web
unfolding is_upgrade find_route handle_ws_upgrade static_response
dispatch host routes req p w =
    if is_upgrade req
    then done (handle_ws_upgrade host req p w)
    else elim (find_route req.path routes) [
      | some h ↦ h req p w
      | none ↦ done (send (static_response host.files w.webroot req.path) p w)
    ]

-- HttpServer::addRoute
abbrev pub add_route : Bytes → Handler → Dict Bytes Handler → Dict Bytes Handler
add_route path_prefix h routes = Dict.insert path_prefix h routes
