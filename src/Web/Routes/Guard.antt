-- ===== src/Web/Routes/Guard.antt =====
-- The routes of src/server/http_handler.cpp behind requireToken, for a request without a live token.
use chat_room.Common.{
  ℕ, true, false, [], ◌∷◌, ◌∙◌, Option, none, some, if◌then◌else◌, ◌≡◌, ◌≢◌, refl, inl, inr,
  Bool-cases, arith, ==_iff, ◌||◌,
}
use chat_room.Common.Text.{Bytes, codes, is_empty, text_eq}
use chat_room.Common.Run.{Run, done, thrown, no_fuel, ◌>>=◌}
use chat_room.Http.Request
use chat_room.Http.Request.{HttpRequest}
use chat_room.Http.Response.{HttpResponse}
use chat_room.Json.{Json}
use chat_room.TokenStore
use chat_room.Web.Connection.{send}
use chat_room.Web.Server.Upgrade.{answered_with}
use chat_room.Http.Response
use chat_room.Common.Dict
use chat_room.Common.Dict.{Dict}
use chat_room.Web.Routes.{
  authorized, refuse, answer, json_resp, find_token, require_token, body_token, list_users,
  messages, logout,
}
use chat_room.Web.World.{Web}

-- What a response on the connection at `p` leaves: everything but that connection, which has the response
-- to write and closes after it, and its epoll entry.
pub record OnlyAnswered (resp : HttpResponse) (p : ℕ) (w v : Web) : Type 0 where
  pub room : v.room ≡ w.room
  pub tokens : v.tokens ≡ w.tokens
  pub clients : v.sockets.clients ≡ w.sockets.clients
  pub sockets : v.sockets.ws ≡ w.sockets.ws
  pub others : (q : ℕ) → q ≢ p → v.http q ≡ w.http q
  pub response : v.http p ≡ answered_with resp (w.http p)

send-OnlyAnswered :
    (resp : HttpResponse) (p : ℕ) (w : Web)
    → resp.keep_alive ≡ false
    → OnlyAnswered resp p w (send resp p w)
unfolding send
send-OnlyAnswered resp p w last = elim (Bool-cases (w.http p).writing) [
  | inl e ↦
      rw (send, e)
        (record {
          room = refl;
          tokens = refl;
          clients = refl;
          sockets = refl;
          others = λ q h. ground (arith, ==_iff p q, h);
          response = rw ((==_iff p p).1 refl, last) refl;
        })
  | inr e ↦
      rw (send, e)
        (record {
          room = refl;
          tokens = refl;
          clients = refl;
          sockets = refl;
          others = λ q h. ground (arith, ==_iff p q, h);
          response = rw ((==_iff p p).1 refl, last) refl;
        })
]

module _ (json : Json) (req : HttpRequest) (p : ℕ) (w : Web) where
  -- The answer to a request whose token is missing, or is the token of nobody.
  abbrev pub turned_away : Run Web
  turned_away =
      refuse json 401
        (if is_empty (find_token json req) then codes "missing token" else codes "invalid token") p
        w

  abbrev with_no_user : Web → Run (Option Bytes × Web)
  with_no_user v = done (none, v)

  no_token :
      (is_empty (find_token json req)
          || is_empty (TokenStore.lookup (find_token json req) w.tokens))
        ≡ true
      → require_token json req p w ≡ (turned_away >>= with_no_user)
  unfolding require_token
  no_token h = ground (arith, h)

  passed_on :
      (serve : Bytes → Web → Run Web) (r : Run Web)
      → ((r >>= with_no_user) >>= λ q. elim q.0 [ none ↦ done q.1 | some user ↦ serve user q.1 ])
        ≡ r
  passed_on serve (done v) = refl
  passed_on serve thrown = refl
  passed_on serve no_fuel = refl

  stopped :
      (serve : Bytes → Web → Run Web)
      → (is_empty (find_token json req)
          || is_empty (TokenStore.lookup (find_token json req) w.tokens))
        ≡ true
      → authorized json req p w serve ≡ turned_away
  stopped serve h = rw (no_token h) (passed_on serve turned_away)

  -- The token of a request: the one of the query or, where there is none, that of the body's JSON.
  abbrev pub token_of : Bytes
  token_of =
      if is_empty (Request.get_query (codes "token") req)
      then (if is_empty req.body then [] else elim (json.parse req.body) [
        | none ↦ []
        | some j ↦
            if json.contains j (codes "token")
            then elim (json.get_text j (codes "token")) [ none ↦ [] | some tok ↦ tok ]
            else []
      ])
      else Request.get_query (codes "token") req

  find_token_lem : find_token json req ≡ token_of
  unfolding find_token body_token
  find_token_lem = elim (Bool-cases (is_empty (Request.get_query (codes "token") req))) [
    | inl e ↦ elim (Bool-cases (is_empty req.body)) [
      | inl f ↦ rw (find_token, e, f) (ground (arith, e))
      | inr f ↦ rw (find_token, e, f) refl
    ]
    | inr e ↦ rw (find_token, e) refl
  ]

  -- The text of the error.
  abbrev pub denial : Bytes
  denial = if is_empty token_of then codes "missing token" else codes "invalid token"

  -- The response to a request without a live token, with its JSON printed.
  abbrev pub unauthorized : Bytes → HttpResponse
  unauthorized text = record {
    status_code = 401;
    reason = codes "Unauthorized";
    headers = (codes "Content-Type", codes "application/json") ∷ [];
    body = text;
    keep_alive = false;
  }

  refused_lem :
      (what text : Bytes)
      → json.dump (json.set (codes "error") (json.text what) json.null) ≡ some text
      → refuse json 401 what p w ≡ done (send (unauthorized text) p w)
  unfolding refuse answer json_resp Response.default_reason Dict.insert text_eq
  refused_lem what text e = rw (refuse, answer, json_resp, e) refl

  denied :
      (serve : Bytes → Web → Run Web) (text : Bytes)
      → json.dump (json.set (codes "error") (json.text denial) json.null) ≡ some text
      → (is_empty token_of || is_empty (TokenStore.lookup token_of w.tokens)) ≡ true
      → authorized json req p w serve ≡ done (send (unauthorized text) p w)
  denied serve text printed h =
      stopped serve (rw find_token_lem h) ∙ rw find_token_lem (refused_lem denial text printed)

  -- A request whose token, in the query or in the body's JSON, is missing or is nobody's, where the
  -- JSON of the error can be printed: the routes for users, messages and logout all answer it with
  -- status 401, the reason Unauthorized and that JSON, and change nothing but the connection that the
  -- response goes to: not the room, not the tokens, no other HTTP connection and no WebSocket. What
  -- the three routes do with any request does not depend on its headers, so that a token in an
  -- Authorization header is not seen.
  pub unauthorized_lem :
      (text : Bytes)
      → json.dump (json.set (codes "error") (json.text denial) json.null) ≡ some text
      → (is_empty token_of || is_empty (TokenStore.lookup token_of w.tokens)) ≡ true
      → (v : Web) × (list_users json req p w ≡ done v)
        × (messages json req p w ≡ done v)
        × (logout json req p w ≡ done v)
        × OnlyAnswered (unauthorized text) p w v
        × ((headers : Dict Bytes Bytes) (r : HttpRequest) (u : Web)
            → (list_users json (record r { headers = headers }) p u ≡ list_users json r p u)
              × (messages json (record r { headers = headers }) p u ≡ messages json r p u)
              × (logout json (record r { headers = headers }) p u ≡ logout json r p u))
  unfolding list_users messages logout find_token Request.get_query
  unauthorized_lem text printed h = (
    send (unauthorized text) p w,
    denied _ text printed h,
    denied _ text printed h,
    denied _ text printed h,
    send-OnlyAnswered (unauthorized text) p w refl,
    λ headers r u. (refl, refl, refl),
  )
