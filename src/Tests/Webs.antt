-- ===== src/Tests/Webs.antt =====
-- The theorems on src/server at a concrete server.
use chat_room.Common.{
  ℕ, ◌+◌, true, false, Option, none, some, [], ◌∷◌, ◌++◌, ◌==◌, if◌then◌else◌, ◌≡◌, sym, append-nil,
  refl, arith, length, replicate,
}
use chat_room.Common.Text.{Bytes, codes, text_eq}
use chat_room.Common.Dict
use chat_room.Common.Dict.{Dict}
use chat_room.Common.Keys.{nat_key, text_key}
use chat_room.Common.Int.{pos}
use chat_room.Common.Run.{done, Returns, Ends}
use chat_room.Buffer.View.{init-IsValid, view-init}
use chat_room.Web.Io.Receive.{IsReceived}
use chat_room.Http.Request.Text
use chat_room.Http.Request
use chat_room.Http.Request.{HttpRequest}
use chat_room.Reactor
use chat_room.Reactor.Loop.{events, wait_failed}
use chat_room.Room
use chat_room.Room.{Message}
use chat_room.Tcp.Io.{Received, received, recv_again, sent, emptied}
use chat_room.TokenStore
use chat_room.Web.World.{Web, Host, Spot, new_http, new_ws, ws_read, ws_write}
use chat_room.Web.Hub.{subscribe, to_ws_json, on_text, chat_message}
use chat_room.Web.Accept.{accepted, accept_again, Opened}
use chat_room.Web.Main.{Kernel, init, main}
use chat_room.Web.Sessions.{AreSessions}
use chat_room.Web.Sessions.Main.{main-AreSessions}
use chat_room.Web.Connection
use chat_room.Web.Connection.Reads.{HasHub, on_read-HasHub}
use chat_room.Web.Connection.Closing.{HasLeft, close_plain, after_write-upgraded}
use chat_room.Web.Hub.Delivery.{Said, on_text-Said}
use chat_room.Web.Routes.{list_users, messages, logout, register_http_routes, add_to_room}
use chat_room.Web.Routes.Guard.{unauthorized, OnlyAnswered, unauthorized_lem}
use chat_room.Web.Server.{static_response, dispatch, is_upgrade}
use chat_room.Web.Server.Static.{static_response-agree}
use chat_room.Web.Server.Upgrade.{is_welcome, welcomed, Refused, dispatch-upgrade}
use chat_room.Tests.Sessions.{toy}

-- The memory of a deleted connection keeps what it held.
abbrev pub host : Host
host = record {
  json = toy;
  files = λ path. if text_eq path (codes "web/index.html") then some (codes "hello") else none;
  freed_http = λ c. c;
  freed_ws = λ c. c;
  sha1_garbage = replicate 64 0;
}

-- Two HTTP connections, at 1 and at 2, and two WebSockets, at 7 and at 8.
abbrev pub web : Web
web = record {
  http = λ p. new_http (p + 4);
  conns = (5, 1) ∷ (6, 2) ∷ [];
  listen_fd = some 3;
  webroot = codes "web";
  deps = some (record { tokens = true; hub = true });
  room = subscribe toy Room.init;
  tokens = TokenStore.init;
  sockets = record {
    reactor = Reactor.empty;
    ws = λ p. new_ws (p + 20) (codes "bob");
    clients = (7, tt) ∷ (8, tt) ∷ [];
    closed_fds = [];
  };
  now = pos 5;
}

abbrev pub spot : Spot
spot = record { address = 9; added = true }

-- One connection, a login on it, and then an error of epoll_wait.
abbrev login_bytes : Bytes
login_bytes =
    codes "POST /api/login HTTP/1.1"
    ++ Request.crlf
    ++ codes "Content-Length: 3"
    ++ Request.crlf
    ++ Request.crlf
    ++ codes "ann"

abbrev sys : Kernel ℕ
sys = record {
  recv = λ fd k n. if k == 3 then (received login_bytes, 4) else (recv_again, k);
  send_to = λ fd k bytes. (sent (length bytes), k);
  accept = λ k.
      if k == 1 then (accepted 5 (record { address = 1; added = true }), 2) else (accept_again, k);
  pending = λ fd k. if k == 3 then length login_bytes else 0;
  waiting = λ k. if k == 1 then 1 else 0;
  now = λ k. pos k;
  spot = λ k. spot;
  wait = λ k.
      if k == 0
      then (events ((3, Reactor.epoll_in) ∷ []), 1)
      else if k == 2
      then (events ((5, Reactor.epoll_in) ∷ []), 3)
      else (wait_failed, k);
  running = λ k. true;
}

abbrev opened : Opened
opened = record { fd = some 3; bound = true; listening = true; added = true }

abbrev fresh : Web
fresh = init host (codes "web") web.http web.sockets.ws (pos 0)

main-AreSessions_example :
    Returns (λ (r : Option ℕ × Web × ℕ). AreSessions r.1) (main host sys opened 3 0 fresh)
main-AreSessions_example =
    main-AreSessions host (codes "web") web.http web.sockets.ws (pos 0) sys opened 3 0

-- The request carries a token in a header, where none is looked for.
abbrev bearer : HttpRequest
bearer = record Request.init { headers = (codes "authorization", codes "Bearer t") ∷ [] }

unauthorized_lem_example :
    (v : Web) × (list_users toy bearer 1 web ≡ done v)
    × (messages toy bearer 1 web ≡ done v)
    × (logout toy bearer 1 web ≡ done v)
    × OnlyAnswered (unauthorized toy bearer 1 web (codes "errormissing token")) 1 web v
    × ((headers : Dict Bytes Bytes) (r : HttpRequest) (u : Web)
        → (list_users toy (record r { headers = headers }) 1 u ≡ list_users toy r 1 u)
          × (messages toy (record r { headers = headers }) 1 u ≡ messages toy r 1 u)
          × (logout toy (record r { headers = headers }) 1 u ≡ logout toy r 1 u))
unfolding Request.get_query Request.query_loop Text.find
unauthorized_lem_example = unauthorized_lem toy bearer 1 web (codes "errormissing token") refl refl

abbrev hello : Message
hello = record { from = codes "bob"; room = codes "chat"; content = codes "chat"; time = pos 5 }

abbrev hello_text : Bytes
hello_text = codes "frombobroomchatcontentchattime" ++ (5 ∷ codes "typechat")

-- With this JSON, the text "chat" is a chat message whose room and content are "chat".
on_text-Said_example :
    (v : Web) × (on_text toy 7 (codes "chat") web ≡ done v)
    × (add_to_room toy hello web ≡ done v)
    × Said hello hello_text web v
unfolding Dict.has to_ws_json chat_message text_eq
on_text-Said_example =
    on_text-Said toy hello hello_text web refl (refl, (refl, tt)) refl 7 (codes "chat")
      (codes "chat") refl refl

-- A second file system, with one more file outside of the web root.
abbrev more_files : Bytes → Option Bytes
more_files path = if text_eq path (codes "secret") then some (codes "key") else host.files path

more_files-agree : (url : Bytes) → host.files (codes "web" ++ url) ≡ more_files (codes "web" ++ url)
unfolding text_eq
more_files-agree url = refl

static_response-agree_example :
    static_response host.files (codes "web") (codes "/../secret")
    ≡ static_response more_files (codes "web") (codes "/../secret")
static_response-agree_example =
    static_response-agree host.files more_files (codes "web") (λ url h. more_files-agree url)
      (codes "/../secret")

abbrev upgrade : HttpRequest
upgrade = record {
  ok = true;
  method = codes "GET";
  path = codes "/ws";
  query = codes "token=t";
  version = codes "HTTP/1.1";
  headers =
      (codes "upgrade", codes "websocket")
      ∷ (codes "connection", codes "Upgrade")
      ∷ (codes "sec-websocket-version", codes "13")
      ∷ (codes "sec-websocket-key", codes "dGhlIHNhbXBsZSBub25jZQ==")
      ∷ [];
  body = [];
}

dispatch-upgrade_example :
    (v : Web) × (dispatch host (register_http_routes toy []) upgrade 1 web ≡ done v)
    × (is_welcome upgrade web ≡ true → v.http 1 ≡ welcomed host upgrade web (web.http 1))
    × (is_welcome upgrade web ≡ false → Refused (web.http 1) (v.http 1))
unfolding is_upgrade Request.get_header Dict.lookup text_eq Text.find Text.starts_with Text.lower
dispatch-upgrade_example = dispatch-upgrade host upgrade 1 web (register_http_routes toy []) refl

close_plain_example :
    (v : Web) × (Connection.close host spot 1 web ≡ done v)
    × HasLeft host 1 web v
    × (v.sockets.reactor ≡ Reactor.remove_fd 5 web.sockets.reactor)
    × (v.sockets.clients ≡ web.sockets.clients)
unfolding Dict.lookup
close_plain_example = close_plain host spot 1 web (record { active = refl; owned = refl }) refl

-- The connection at 1 has been upgraded and its response is written out.
abbrev flushed : Web
flushed = record web {
  http = λ p. record (new_http (p + 4)) {
    upgraded = true;
    upgraded_user = codes "ann";
    close_after_write = true;
  };
}

after_write-upgraded_example :
    (v : Web) × (Connection.after_write host spot emptied 1 flushed ≡ done v)
    × HasLeft host 1 flushed v
    × (v.sockets.clients ≡ Dict.insert 9 tt flushed.sockets.clients)
    × (v.sockets.ws 9 ≡ new_ws 5 (codes "ann"))
    × (Dict.lookup 5 v.sockets.reactor.contexts
        ≡ some (record { on_read = some (ws_read 9); on_write = some (ws_write 9) }))
unfolding Dict.lookup
after_write-upgraded_example =
    after_write-upgraded host spot 1 flushed (record { active = refl; owned = refl }) refl refl refl
      refl

-- The kernel has a login for the connection, and then nothing: its state is what it still has.
abbrev pub recv_all : Bytes → ℕ → Received × Bytes
recv_all [] n = (recv_again, [])
recv_all (x ∷ bytes) n = (received (x ∷ bytes), [])

pub recv_all-IsReceived : (k : Bytes) (n : ℕ) → IsReceived k (recv_all k n).1 (recv_all k n).0
recv_all-IsReceived [] n = refl
recv_all-IsReceived (x ∷ bytes) n = sym (append-nil (x ∷ bytes))

on_read-HasHub_example :
    Ends
      (λ (r : Web × Bytes). HasHub toy r.0)
      (Connection.on_read host
        (dispatch host (register_http_routes toy []))
        recv_all
        (λ k. length k)
        spot
        1
        login_bytes
        web)
on_read-HasHub_example =
    on_read-HasHub host 1 recv_all (λ k. k) recv_all-IsReceived spot login_bytes web refl
      init-IsValid (rw view-init (omega arith))
