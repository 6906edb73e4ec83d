-- ===== src/Web/Sessions/Main.antt =====
-- The tokens agree with the users of the room at any time of a run of src/server/main.cpp.
use chat_room.Common.{
  ℕ, Bool, true, false, Option, none, some, if◌then◌else◌, inl, inr, Bool-cases, Option-cases,
  arith,
}
use chat_room.Common.Text.{Bytes}
use chat_room.Common.Dict
use chat_room.Common.Int.{ℤ}
use chat_room.Common.Run.{Run, done, ◌>>=◌, Returns, Returns-bind}
use chat_room.Reactor.Loop.{loop}
use chat_room.Reactor.Loop.Keeps.{loop-Returns}
use chat_room.Web.World.{Web, Host, HttpConnection, WsConnection}
use chat_room.Web.Accept.{Opened, start}
use chat_room.Web.Main.{Kernel, init, call, main}
use chat_room.Web.Sessions.{AreSessions}
use chat_room.Web.Sessions.Callbacks.{call-AreSessions}

abbrev Started : Bool × Web → Type 0
Started r = AreSessions r.1

start-Started : (opened : Opened) (w : Web) → AreSessions w → Returns Started (start opened w)
unfolding start
start-Started opened w a = elim (Option-cases opened.fd) [
  | inl e ↦ rw (start, e) a
  | inr (fd, e) ↦ elim (Bool-cases opened.bound) [
    | inr f ↦ rw (start, e, f) a
    | inl f ↦ elim (Bool-cases opened.listening) [
      | inr g ↦ rw (start, e, f, g) a
      | inl g ↦ elim (Bool-cases opened.added) [
        | inl h ↦ rw (start, e, f, g, h) a
        | inr h ↦ rw (start, e, f, g, h) tt
      ]
    ]
  ]
]

module _ (host : Host) (webroot : Bytes) (http : ℕ → HttpConnection) (ws : ℕ → WsConnection)
    (now : ℤ) where
  init-AreSessions : AreSessions (init host webroot http ws now)
  unfolding init Dict.lookup
  init-AreSessions = record {
    in_room = λ tok user h. ground (arith, h);
    sole = λ tok other user h g. ground (arith, h);
  }

  module _ {κ} {K : Type κ} (sys : Kernel K) where
    abbrev Ended : Option ℕ × Web × K → Type 0
    Ended r = AreSessions r.1

    -- After any number of rounds of main's loop, whatever the system calls return: the user of every
    -- token is in the room and has no other token, where the run has returned.
    pub main-AreSessions :
        (opened : Opened) (n : ℕ) (k : K)
        → Returns
            (λ (r : Option ℕ × Web × K). AreSessions r.1)
            (main host sys opened n k (init host webroot http ws now))
    unfolding main
    main-AreSessions opened n k =
        Returns-bind Started Ended (start opened (init host webroot http ws now)) _
          (start-Started opened (init host webroot http ws now) init-AreSessions)
          (λ started a. go started.0 started.1 a)
      where
        run : Web → Run (Bool × Web × K)
        run v = loop (λ v. v.sockets.reactor) (call host sys) sys.running sys.wait none n k v

        go :
            (b : Bool) (v : Web)
            → AreSessions v
            → Returns Ended (
                if b
                then (run v >>= λ r. done (if r.0 then some 0 else none, r.1, r.2))
                else done (some 1, v, k))
        go true v a =
            Returns-bind (λ (r : Bool × Web × K). AreSessions r.1) Ended (run v) _
              (loop-Returns (λ v. v.sockets.reactor) (call host sys) AreSessions
                (λ c l u b. call-AreSessions host sys c l u b) sys.running sys.wait none n k v a)
              (λ r b. b)
        go false v a = a
