-- ===== src/Web/Server/Upgrade.antt =====
-- Who becomes a WebSocket: handleWsUpgrade_ of src/server/http_server.cpp.
use chat_room.Common.{
  ℕ, Bool, true, false, [], ◌∷◌, if◌then◌else◌, ==_iff, leb, ◌&&◌, not, ◌≡◌, refl, ap, ◌∙◌, inl,
  inr, Bool-cases, arith,
}
use chat_room.Common.Text.{Bytes, codes, text_eq, is_empty}
use chat_room.Common.Dict
use chat_room.Common.Dict.{Dict}
use chat_room.Common.Run.{done}
use chat_room.Http.Request.{HttpRequest, get_header, get_query}
use chat_room.Buffer
use chat_room.TokenStore
use chat_room.Http.Response
use chat_room.Http.Response.{HttpResponse, make_error}
use chat_room.Ws.Handshake.{compute_accept_key}
use chat_room.Web.World.{Web, Host, HttpConnection, has_both}
use chat_room.Web.Connection.{send, mark_upgraded}
use chat_room.Web.Routes.{Handler}
use chat_room.Web.Server.{dispatch, is_upgrade, handle_ws_upgrade, upgrade_user, switching}

-- A response that does not keep the connection alive, queued on a connection.
abbrev pub answered_with : HttpResponse → HttpConnection → HttpConnection
answered_with resp c = record c {
  write_buf = Buffer.append (Response.to_string resp) c.write_buf;
  close_after_write = true;
  writing = true;
}

send_self :
    (resp : HttpResponse) (p : ℕ) (w : Web)
    → resp.keep_alive ≡ false
    → (send resp p w).http p ≡ answered_with resp (w.http p)
unfolding send
send_self resp p w last = elim (Bool-cases (w.http p).writing) [
  | inl e ↦ rw (send, e, (==_iff p p).1 refl, last) refl
  | inr e ↦ rw (send, e, (==_iff p p).1 refl, last) refl
]

-- The connection is refused: it gets a response with a status of 400 or more, and is not marked.
pub record Refused (c d : HttpConnection) : Type 0 where
  pub resp : HttpResponse
  pub status : leb 400 resp.status_code ≡ true
  pub answered : d ≡ answered_with resp c

-- The user that the token in the query stands for.
abbrev pub user_of : HttpRequest → Web → Bytes
user_of req w =
    if is_empty (get_query (codes "token") req)
    then []
    else TokenStore.lookup (get_query (codes "token") req) w.tokens

-- What an upgrade needs.
abbrev pub is_welcome : HttpRequest → Web → Bool
is_welcome req w =
    has_both w.deps
    && not (is_empty (user_of req w))
    && text_eq (get_header (codes "Sec-WebSocket-Version") req) (codes "13")
    && not (is_empty (get_header (codes "Sec-WebSocket-Key") req))

-- The response of RFC 6455, 4.2.2.
abbrev pub welcome : Bytes → HttpResponse
welcome accept = record {
  status_code = 101;
  reason = codes "Switching Protocols";
  headers =
      (codes "Upgrade", codes "websocket")
      ∷ (codes "Connection", codes "Upgrade")
      ∷ (codes "Sec-WebSocket-Accept", accept)
      ∷ [];
  body = [];
  keep_alive = false;
}

switching_lem : (accept : Bytes) → switching accept ≡ welcome accept
unfolding switching Dict.insert text_eq
switching_lem accept = refl

-- The connection after an upgrade: marked, with the response queued.
abbrev pub welcomed : Host → HttpRequest → Web → HttpConnection → HttpConnection
welcomed host req w c =
    answered_with
      (welcome (compute_accept_key host.sha1_garbage (get_header (codes "Sec-WebSocket-Key") req)))
      (record c { upgraded = true; upgraded_user = user_of req w })

module _ (host : Host) (req : HttpRequest) (p : ℕ) (w : Web) where
  refused :
      (code : ℕ) (what : Bytes)
      → leb 400 code ≡ true
      → Refused (w.http p) ((send (make_error code what) p w).http p)
  unfolding make_error
  refused code what h = record {
    resp = make_error code what;
    status = h;
    answered = send_self (make_error code what) p w refl;
  }

  abbrev accept_key : Bytes
  accept_key = compute_accept_key host.sha1_garbage (get_header (codes "Sec-WebSocket-Key") req)

  welcome_self :
      (v : Web)
      → (send (switching accept_key) p v).http p ≡ answered_with (welcome accept_key) (v.http p)
  welcome_self v =
      ap (λ r. (send r p v).http p) (switching_lem accept_key)
      ∙ send_self (welcome accept_key) p v refl

  abbrev AsWelcome : Type 0
  AsWelcome =
      (is_welcome req w ≡ true
        → (handle_ws_upgrade host req p w).http p ≡ welcomed host req w (w.http p))
      × (is_welcome req w ≡ false → Refused (w.http p) ((handle_ws_upgrade host req p w).http p))

  -- The key, the version, the user and the configuration, in turn.
  with_version :
      not (has_both w.deps) ≡ false
      → is_empty (user_of req w) ≡ false
      → text_eq (get_header (codes "Sec-WebSocket-Version") req) (codes "13") ≡ true
      → AsWelcome
  unfolding handle_ws_upgrade mark_upgraded upgrade_user
  with_version e f g = elim (Bool-cases (is_empty (get_header (codes "Sec-WebSocket-Key") req))) [
    | inl k ↦
        rw (handle_ws_upgrade, e, f, g, k)
          ((λ h. absurd (ground (arith, h, k))), (λ h. refused 400 _ refl))
    | inr k ↦
        rw (handle_ws_upgrade, e, f, g, k)
          (
            (λ h. welcome_self (mark_upgraded (user_of req w) p w) ∙ ground (arith, ==_iff p p)),
            (λ h. absurd (ground (arith, h, e, f, g, k))),
          )
  ]

  as_welcome : AsWelcome
  unfolding handle_ws_upgrade upgrade_user
  as_welcome = elim (Bool-cases (not (has_both w.deps))) [
    | inl e ↦
        rw (handle_ws_upgrade, e) ((λ h. absurd (ground (arith, h, e))), (λ h. refused 500 _ refl))
    | inr e ↦ elim (Bool-cases (is_empty (user_of req w))) [
      | inl f ↦
          rw (handle_ws_upgrade, e, f)
            ((λ h. absurd (ground (arith, h, e, f))), (λ h. refused 401 _ refl))
      | inr f ↦
          elim (Bool-cases
            (text_eq (get_header (codes "Sec-WebSocket-Version") req) (codes "13"))) [
              | inr g ↦
                  rw (handle_ws_upgrade, e, f, g)
                    ((λ h. absurd (ground (arith, h, e, f, g))), (λ h. refused 400 _ refl))
              | inl g ↦ with_version e f g
            ]
    ]
  ]

  -- A request that asks for a WebSocket: the connection is marked as upgraded, with the user of the
  -- token, and gets the response of status 101, with the headers Upgrade, Connection and
  -- Sec-WebSocket-Accept, the last one with computeAcceptKey of its own key, if the server has tokens
  -- and a hub, the query's token is a user's, the version is 13 and there is a key. If not, it gets a
  -- response with a status of 400 or more and keeps its mark.
  pub dispatch-upgrade :
      (routes : Dict Bytes Handler)
      → is_upgrade req ≡ true
      → (v : Web) × (dispatch host routes req p w ≡ done v)
        × (is_welcome req w ≡ true → v.http p ≡ welcomed host req w (w.http p))
        × (is_welcome req w ≡ false → Refused (w.http p) (v.http p))
  unfolding dispatch
  dispatch-upgrade routes u =
      (handle_ws_upgrade host req p w, rw (dispatch, u) refl, as_welcome.0, as_welcome.1)
