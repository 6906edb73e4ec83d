-- ===== src/Web/Server/Forms.antt =====
-- The two forms that handleWsUpgrade_ of src/server/http_server.cpp has: a response, or the mark and a
-- response.
use chat_room.Common.{ℕ, not, inl, inr, Bool-cases}
use chat_room.Common.Text.{codes, text_eq, is_empty}
use chat_room.Http.Request.{HttpRequest, get_header}
use chat_room.Http.Response.{HttpResponse}
use chat_room.Web.World.{Web, Host, has_both}
use chat_room.Web.Connection.{send, mark_upgraded}
use chat_room.Web.Server.{handle_ws_upgrade, upgrade_user}

pub handle_ws_upgrade_lem :
    (P : Web → Type 0) (host : Host) (req : HttpRequest) (p : ℕ) (w : Web)
    → ((resp : HttpResponse) → P (send resp p w))
    → ((resp : HttpResponse) → P (send resp p (mark_upgraded (upgrade_user req w) p w)))
    → P (handle_ws_upgrade host req p w)
unfolding handle_ws_upgrade
handle_ws_upgrade_lem P host req p w plain marked = elim (Bool-cases (not (has_both w.deps))) [
  | inl e ↦ rw (handle_ws_upgrade, e) (plain _)
  | inr e ↦ elim (Bool-cases (is_empty (upgrade_user req w))) [
    | inl f ↦ rw (handle_ws_upgrade, e, f) (plain _)
    | inr f ↦
        elim (Bool-cases (text_eq (get_header (codes "Sec-WebSocket-Version") req) (codes "13"))) [
          | inr g ↦ rw (handle_ws_upgrade, e, f, g) (plain _)
          | inl g ↦ elim (Bool-cases (is_empty (get_header (codes "Sec-WebSocket-Key") req))) [
            | inl h ↦ rw (handle_ws_upgrade, e, f, g, h) (plain _)
            | inr h ↦ rw (handle_ws_upgrade, e, f, g, h) (marked _)
          ]
        ]
  ]
]
