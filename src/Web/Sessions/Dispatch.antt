-- ===== src/Web/Sessions/Dispatch.antt =====
-- dispatch_ of src/server/http_server.cpp and the routes keep the agreement of tokens and users.
use chat_room.Common.{ℕ, Option, none, some, [], ◌∷◌, inl, inr, Bool-cases, All}
use chat_room.Common.Text.{Bytes, text_eq}
use chat_room.Common.Dict
use chat_room.Common.Dict.{Dict}
use chat_room.Common.Keys.{text_key, nat_key}
use chat_room.Common.Run.{done, Returns, Returns-either}
use chat_room.Http.Request.{HttpRequest}
use chat_room.Http.Request.Text.{starts_with}
use chat_room.Web.World.{Web, Host}
use chat_room.Web.Connection
use chat_room.Web.Connection.{mark_upgraded}
use chat_room.Web.Server.Forms.{handle_ws_upgrade_lem}
use chat_room.Web.Routes.{Handler, register_http_routes}
use chat_room.Web.Server.{
  dispatch, find_route, is_upgrade, handle_ws_upgrade, static_response, upgrade_user,
}
use chat_room.Web.Sessions.{
  AreSessions, send-AreSessions, login-AreSessions, list_users-AreSessions, messages-AreSessions,
  logout-AreSessions,
}

-- A handler that keeps the agreement.
abbrev pub Keeps : Handler → Type 0
Keeps h = (req : HttpRequest) (p : ℕ) (w : Web) → AreSessions w → Returns AreSessions (h req p w)

-- What is found keeps the agreement, where something is found.
abbrev pub FoundKeeps : Option Handler → Type 0
FoundKeeps none = Unit {0}
FoundKeeps (some h) = Keeps h

pub find_route-FoundKeeps :
    (path : Bytes) (table : Dict Bytes Handler)
    → All (λ entry. Keeps entry.1) table
    → FoundKeeps (find_route path table)
unfolding find_route
find_route-FoundKeeps path [] ks = tt
find_route-FoundKeeps path ((prefix, g) ∷ table) ks = elim (Bool-cases (starts_with prefix path)) [
  | inl e ↦ rw e ks.0
  | inr e ↦ rw e (find_route-FoundKeeps path table ks.1)
]

module _ (host : Host) where
  pub registered : All (λ entry. Keeps entry.1) (register_http_routes host.json [])
  unfolding register_http_routes Dict.insert text_eq
  registered = (
    login-AreSessions host.json,
    (
      list_users-AreSessions host.json,
      (messages-AreSessions host.json, (logout-AreSessions host.json, tt)),
    ),
  )

  pub handle_ws_upgrade-AreSessions :
      (req : HttpRequest) (p : ℕ) (w : Web)
      → AreSessions w
      → AreSessions (handle_ws_upgrade host req p w)
  unfolding mark_upgraded
  handle_ws_upgrade-AreSessions req p w a =
      handle_ws_upgrade_lem AreSessions host req p w (λ resp. send-AreSessions resp p w a)
        (λ resp. send-AreSessions resp p (mark_upgraded (upgrade_user req w) p w) a)

  abbrev pub table : Dict Bytes Handler
  table = register_http_routes host.json []

  pub dispatch-Keeps : Keeps (dispatch host table)
  unfolding dispatch
  dispatch-Keeps req p w a =
      Returns-either AreSessions (is_upgrade req) _ _ (handle_ws_upgrade-AreSessions req p w a)
        (go (find_route req.path table) (find_route-FoundKeeps req.path table registered))
    where
      go :
          (o : Option Handler)
          → FoundKeeps o
          → Returns AreSessions (elim o [
            | some h ↦ h req p w
            | none ↦ done (Connection.send (static_response host.files w.webroot req.path) p w)
          ])
      go none k = send-AreSessions _ p w a
      go (some h) k = k req p w a
