-- ===== src/Web/Sessions.antt =====
-- Who is logged in at the server of src/server: the tokens agree with the users of the room, whatever
-- the routes of src/server/http_handler.cpp and the reactor's callbacks do.
pub mod Dispatch
pub mod Connection
pub mod Frames
pub mod Callbacks
pub mod Main
use chat_room.Common.{
  ℕ, Bool, true, false, Option, none, some, [], ◌∷◌, if◌then◌else◌, ◌≡◌, refl, inl, inr, Bool-cases,
  Option-cases, arith, not, ◌&&◌, add64,
}
use chat_room.Common.Text.{Bytes, codes, text_eq, text_eq_iff, is_empty}
use chat_room.Common.Dict
use chat_room.Common.Dict.{Dict, lookup-insert, lookup-erase, has-insert, has-erase}
use chat_room.Common.Keys.{text_key}
use chat_room.Common.Run.{
  Run, done, thrown, no_fuel, ◌>>=◌, or_throw, Returns, Returns-bind, Returns-any, Returns-either,
}
use chat_room.Http.Request.{HttpRequest}
use chat_room.Http.Response.{HttpResponse}
use chat_room.Json.{Json}
use chat_room.Room.{Message, has_user, add_user, remove_user, add_message}
use chat_room.TokenStore
use chat_room.TokenStore.{TokenStore, make_token}
use chat_room.Web.Connection.{send}
use chat_room.Web.Routes.{
  authorized, answer, json_resp, refuse, require_token, find_token, log_in, login_as, login,
  list_users, get_messages, add_to_room, say, post_message, messages, token_to_revoke, log_out,
  logout,
}
use chat_room.Web.Hub.{tell_room}
use chat_room.Web.World.{Web}

-- The user of every token is in the room, and has no other token.
pub record Agree (toks : Dict Bytes Bytes) (users : Dict Bytes (Unit {0})) : Type 0 where
  pub in_room : (tok user : Bytes) → Dict.lookup tok toks ≡ some user → Dict.has user users ≡ true
  pub sole :
      (tok other user : Bytes)
      → Dict.lookup tok toks ≡ some user
      → Dict.lookup other toks ≡ some user
      → tok ≡ other

abbrev pub AreSessions : Web → Type 0
AreSessions w = Agree w.tokens.tok2user w.room.users

module _ (t user : Bytes) (toks : Dict Bytes Bytes) (users : Dict Bytes (Unit {0}))
    (a : Agree toks users) where
  -- A user who is not in the room gets a token, even one that another user has had.
  issue-Agree :
      Dict.has user users ≡ false → Agree (Dict.insert t user toks) (Dict.insert user tt users)
  issue-Agree free = record {
    in_room = λ tok u h. ground (
      arith,
      has-insert user u tt users,
      lookup-insert t tok user toks,
      text_eq_iff user u,
      text_eq_iff t tok,
      a.in_room tok u,
    );
    sole = λ tok other u h g. ground (
      arith,
      lookup-insert t tok user toks,
      lookup-insert t other user toks,
      text_eq_iff t tok,
      text_eq_iff t other,
      a.sole tok other u,
      a.in_room tok u,
      a.in_room other u,
      free,
    );
  }

  -- A user leaves with his token.
  revoke-Agree : Dict.lookup t toks ≡ some user → Agree (Dict.erase t toks) (Dict.erase user users)
  revoke-Agree held = record {
    in_room = λ tok u h. ground (
      arith,
      has-erase user u users,
      lookup-erase t tok toks,
      text_eq_iff user u,
      text_eq_iff t tok,
      a.in_room tok u,
      a.sole t tok u,
    );
    sole = λ tok other u h g.
        ground (arith, lookup-erase t tok toks, lookup-erase t other toks, a.sole tok other u);
  }

-- A step that leaves the tokens and the users.
pub record SameSessions (w v : Web) : Type 0 where
  pub tokens : v.tokens ≡ w.tokens
  pub users : v.room.users ≡ w.room.users

pub same-AreSessions : {w v : Web} → SameSessions w v → AreSessions w → AreSessions v
same-AreSessions s a = rw (s.tokens, s.users) a

pub send-SameSessions : (resp : HttpResponse) (p : ℕ) (w : Web) → SameSessions w (send resp p w)
unfolding send
send-SameSessions resp p w = elim (Bool-cases (w.http p).writing) [
  | inl e ↦ rw e (record { tokens = refl; users = refl })
  | inr e ↦ rw e (record { tokens = refl; users = refl })
]

pub send-AreSessions :
    (resp : HttpResponse) (p : ℕ) (w : Web) → AreSessions w → AreSessions (send resp p w)
send-AreSessions resp p w a = same-AreSessions (send-SameSessions resp p w) a

module _ (json : Json) where
  answer-AreSessions :
      (code : ℕ) (j : json.Value) (p : ℕ) (w : Web)
      → AreSessions w
      → Returns AreSessions (answer json code j p w)
  unfolding answer
  answer-AreSessions code j p w a =
      Returns-any AreSessions (json_resp json code j) _ (λ resp. send-AreSessions resp p w a)

  refuse-AreSessions :
      (code : ℕ) (what : Bytes) (p : ℕ) (w : Web)
      → AreSessions w
      → Returns AreSessions (refuse json code what p w)
  unfolding refuse
  refuse-AreSessions code what p w a = answer-AreSessions code _ p w a

  -- A user who is not in the room gets a token.
  log_in-AreSessions :
      (user : Bytes) (p : ℕ) (w : Web)
      → has_user user w.room ≡ false
      → AreSessions w
      → Returns AreSessions (log_in json user p w)
  unfolding log_in add_user TokenStore.issue has_user
  log_in-AreSessions user p w free a = answer-AreSessions 200 _ p _ (
      issue-Agree (make_token (add64 w.tokens.counter 1)) user w.tokens.tok2user w.room.users a
        free)

  login_as-AreSessions :
      (user : Bytes) (p : ℕ) (w : Web)
      → AreSessions w
      → Returns AreSessions (login_as json user p w)
  unfolding login_as
  login_as-AreSessions user p w a = elim (Bool-cases (is_empty user)) [
    | inl e ↦ rw e (refuse-AreSessions 400 _ p w a)
    | inr e ↦ rw e (elim (Bool-cases (has_user user w.room)) [
      | inl f ↦ rw f (refuse-AreSessions 409 _ p w a)
      | inr f ↦ rw f (log_in-AreSessions user p w f a)
    ])
  ]

  pub login-AreSessions :
      (req : HttpRequest) (p : ℕ) (w : Web)
      → AreSessions w
      → Returns AreSessions (login json req p w)
  unfolding login
  login-AreSessions req p w a = elim (Bool-cases (text_eq req.method (codes "POST"))) [
    | inr e ↦ rw e (refuse-AreSessions 405 _ p w a)
    | inl e ↦ rw e (elim (Option-cases (json.parse req.body)) [
      | inl f ↦ rw f (refuse-AreSessions 400 _ p w a)
      | inr (j, f) ↦ rw f (
          Returns-any AreSessions (or_throw (json.value j (codes "username") [])) _
            (λ user. login_as-AreSessions user p w a))
    ])
  ]

  -- requireToken lets a request through only with a token that is held.
  abbrev IsAllowed : HttpRequest → Web → Option Bytes × Web → Type 0
  IsAllowed req w (none, v) = AreSessions v
  IsAllowed req w (some user, v) =
      (v ≡ w)
      × (is_empty (find_token json req) ≡ false)
      × (Dict.lookup (find_token json req) w.tokens.tok2user ≡ some user)

  held_lem :
      (tok : Bytes) (s : TokenStore)
      → is_empty (TokenStore.lookup tok s) ≡ false
      → Dict.lookup tok s.tok2user ≡ some (TokenStore.lookup tok s)
  unfolding TokenStore.lookup
  held_lem tok s h = elim (Option-cases (Dict.lookup tok s.tok2user)) [
    | inl e ↦ ground (arith, h, e)
    | inr (user, e) ↦ rw (TokenStore.lookup, e) refl
  ]

  require_token-IsAllowed :
      (req : HttpRequest) (p : ℕ) (w : Web)
      → AreSessions w
      → Returns (IsAllowed req w) (require_token json req p w)
  unfolding require_token
  require_token-IsAllowed req p w a = elim (Bool-cases (is_empty (find_token json req))) [
    | inl e ↦ rw e (
        Returns-bind AreSessions (IsAllowed req w) (refuse json 401 (codes "missing token") p w) _
          (refuse-AreSessions 401 _ p w a) (λ v b. b))
    | inr e ↦
        rw e (elim (Bool-cases (is_empty (TokenStore.lookup (find_token json req) w.tokens))) [
          | inl f ↦ rw f (
              Returns-bind AreSessions (IsAllowed req w)
                (refuse json 401 (codes "invalid token") p w) _ (refuse-AreSessions 401 _ p w a)
                (λ v b. b))
          | inr f ↦ rw f (refl, e, held_lem (find_token json req) w.tokens f)
        ])
  ]

  -- A route behind requireToken keeps the agreement where what it does for the user of the token does.
  authorized-AreSessions :
      (req : HttpRequest) (p : ℕ) (w : Web) (serve : Bytes → Web → Run Web)
      → AreSessions w
      → ((user : Bytes)
          → is_empty (find_token json req) ≡ false
          → Dict.lookup (find_token json req) w.tokens.tok2user ≡ some user
          → Returns AreSessions (serve user w))
      → Returns AreSessions (authorized json req p w serve)
  authorized-AreSessions req p w serve a served =
      Returns-bind (IsAllowed req w) AreSessions (require_token json req p w) _
        (require_token-IsAllowed req p w a) (λ r allowed. go r.0 r.1 allowed)
    where
      go :
          (o : Option Bytes) (v : Web)
          → IsAllowed req w (o, v)
          → Returns AreSessions (elim o [ none ↦ done v | some user ↦ serve user v ])
      go none v b = b
      go (some user) v b = rw b.0 (served user b.1 b.2)

  pub list_users-AreSessions :
      (req : HttpRequest) (p : ℕ) (w : Web)
      → AreSessions w
      → Returns AreSessions (list_users json req p w)
  unfolding list_users
  list_users-AreSessions req p w a =
      authorized-AreSessions req p w _ a (λ user e h. answer-AreSessions 200 _ p w a)

  add_to_room-AreSessions :
      (m : Message) (w : Web) → AreSessions w → Returns AreSessions (add_to_room json m w)
  unfolding add_to_room add_message
  add_to_room-AreSessions m w a = Returns-any AreSessions (tell_room m w).1 _ (λ s. a)

  post_message-AreSessions :
      (user : Bytes) (req : HttpRequest) (p : ℕ) (w : Web)
      → AreSessions w
      → Returns AreSessions (post_message json user req p w)
  unfolding post_message say
  post_message-AreSessions user req p w a = elim (Option-cases (json.parse req.body)) [
    | inl e ↦ rw (post_message, e) (refuse-AreSessions 400 _ p w a)
    | inr (j, e) ↦
        rw (post_message, e)
          (Returns-any AreSessions (or_throw (json.value j (codes "content") [])) _ (λ content.
            Returns-either AreSessions (is_empty content) _ _ (refuse-AreSessions 400 _ p w a) (
              Returns-bind AreSessions AreSessions _ _ (add_to_room-AreSessions _ w a)
                (λ v b. answer-AreSessions 200 _ p v b))))
  ]

  pub messages-AreSessions :
      (req : HttpRequest) (p : ℕ) (w : Web)
      → AreSessions w
      → Returns AreSessions (messages json req p w)
  unfolding messages get_messages
  messages-AreSessions req p w a = authorized-AreSessions req p w _ a (λ user e h.
      Returns-either AreSessions (text_eq req.method (codes "GET")) _ _
        (answer-AreSessions 200 _ p w a)
        (Returns-either AreSessions (text_eq req.method (codes "POST")) _ _
          (post_message-AreSessions user req p w a) (refuse-AreSessions 405 _ p w a)))

  -- The token that logout revokes is the one that requireToken has found.
  token_to_revoke_lem :
      (req : HttpRequest)
      → is_empty (find_token json req) ≡ false
      → token_to_revoke json req ≡ find_token json req
  unfolding token_to_revoke find_token
  token_to_revoke_lem req h = ground (arith, h)

  log_out-AreSessions :
      (tok user : Bytes) (w : Web)
      → is_empty tok ≡ false
      → Dict.lookup tok w.tokens.tok2user ≡ some user
      → AreSessions w
      → AreSessions (log_out json tok user w)
  unfolding log_out TokenStore.revoke remove_user
  log_out-AreSessions tok user w e h a =
      rw e (revoke-Agree tok user w.tokens.tok2user w.room.users a h)

  pub logout-AreSessions :
      (req : HttpRequest) (p : ℕ) (w : Web)
      → AreSessions w
      → Returns AreSessions (logout json req p w)
  unfolding logout
  logout-AreSessions req p w a = authorized-AreSessions req p w _ a (λ user e h.
      rw (token_to_revoke_lem req e)
        (answer-AreSessions 200 _ p _ (log_out-AreSessions (find_token json req) user w e h a)))
