-- ===== src/Tcp/Sessions/Main.antt =====
-- The users agree with the connections' states at any time of a run of src/tcp/main.cpp.
use chat_room.Common.{
  ℕ, Bool, true, false, Option, none, some, if◌then◌else◌, inl, inr, Bool-cases, ◌≡◌, refl, arith,
  ◌∷◌,
}
use chat_room.Common.Dict
use chat_room.Common.Int.{ℤ, pos}
use chat_room.Common.Run.{Run, done, ◌>>=◌, Returns, Returns-bind}
use chat_room.Json.{Json}
use chat_room.Reactor.{Reactor}
use chat_room.Reactor.Loop.{loop}
use chat_room.Reactor.Loop.Keeps.{loop-Returns}
use chat_room.Tcp.World.{World, Connection, Callback, tick_all, is_authenticated}
use chat_room.Tcp.Main.{Kernel, Opened, init, call, main}
use chat_room.Tcp.Sessions.{IsConsistent, IsConsistent-same}
use chat_room.Tcp.Sessions.Callbacks.{IsFree, call-IsConsistent}

init-IsConsistent :
    (heap : ℕ → Connection) (now : ℕ)
    → ((q : ℕ) → is_authenticated (heap q).state ≡ false)
    → IsConsistent (init heap now)
unfolding init Dict.lookup
init-IsConsistent heap now none_in = record {
  distinct = tt;
  to_conn = λ n q h. ground (arith, h);
  to_user = λ q h. ground (arith, none_in q, h);
}

listening-IsConsistent :
    (r : Reactor Callback) (w : World) → IsConsistent w → IsConsistent (record w { reactor = r })
listening-IsConsistent r w a =
    IsConsistent-same (record { users = refl; state = λ q. refl; username = λ q. refl }) a

closed-IsConsistent :
    (fd : ℕ) (w : World)
    → IsConsistent w
    → IsConsistent (record w { closed_fds = fd ∷ w.closed_fds })
closed-IsConsistent fd w a =
    IsConsistent-same (record { users = refl; state = λ q. refl; username = λ q. refl }) a

module _ {κ} {K : Type κ} (json : Json) (sys : Kernel K)
    (free : (k : K) (w : World) → IsFree w (sys.accept k w).0) where
  abbrev Ended : Option ℤ × World × K → Type 0
  Ended r = IsConsistent r.1

  -- After any number of rounds of main's loop, whatever the system calls return: every name of the
  -- users is that of an authenticated connection and every authenticated connection is the one of its
  -- name, where the run has returned. The conditions: accept allocates no connection at the address of
  -- one that is authenticated, and at the start no address holds one that is.
  pub main-IsConsistent :
      (heap : ℕ → Connection) (now : ℕ)
      → ((q : ℕ) → is_authenticated (heap q).state ≡ false)
      → (opened : Opened) (n : ℕ) (k : K)
      → Returns
          (λ (r : Option ℤ × World × K). IsConsistent r.1)
          (main json sys opened n k (init heap now))
  unfolding main
  main-IsConsistent heap now none_in opened n k = elim (Bool-cases opened.bound) [
    | inr e ↦ rw (main, e) start
    | inl e ↦ elim (Bool-cases opened.listening) [
      | inr f ↦ rw (main, e, f) start
      | inl f ↦ elim (Bool-cases opened.added) [
        | inr g ↦ rw (main, e, f, g) tt
        | inl g ↦ rw (main, e, f, g) (go _)
      ]
    ]
  ]
    where
      start : IsConsistent (init heap now)
      start = init-IsConsistent heap now none_in

      run : Reactor Callback → Run (Bool × World × K)
      run r =
          loop (λ v. v.reactor) (call json sys) sys.running sys.wait (some tick_all) n k
            (record (init heap now) { reactor = r })

      go :
          (reactor : Reactor Callback)
          → Returns Ended (
              run reactor >>= λ r. done (
                if r.0
                then (some (pos 0), record r.1 { closed_fds = opened.fd ∷ (r.1).closed_fds }, r.2)
                else (none, r.1, r.2)))
      go reactor =
          Returns-bind (λ (r : Bool × World × K). IsConsistent r.1) Ended (run reactor) _
            (loop-Returns (λ v. v.reactor) (call json sys) IsConsistent
              (λ c l u b. call-IsConsistent json sys free c l u b) sys.running sys.wait
              (some tick_all) n k _ (listening-IsConsistent reactor (init heap now) start))
            (λ r b. last r.0 r.1 r.2 b)
        where
          last :
              (b : Bool) (v : World) (l : K)
              → IsConsistent v
              → Ended (
                  if b
                  then (some (pos 0), record v { closed_fds = opened.fd ∷ v.closed_fds }, l)
                  else (none, v, l))
          last true v l a = closed-IsConsistent opened.fd v a
          last false v l a = a
