-- ===== src/Tcp/Main.antt =====
-- src/tcp/main.cpp: the accept loop, what the reactor's callbacks do, and main.
use chat_room.Common.{ℕ, zero, suc, ◌+◌, Bool, Option, none, some, [], ◌∷◌, if◌then◌else◌}
use chat_room.Common.Text.{Bytes}
use chat_room.Common.Int.{ℤ, pos, negsuc}
use chat_room.Common.Run.{Run, done, no_fuel, ◌>>=◌, or_throw}
use chat_room.Json.{Json}
use chat_room.Reactor
use chat_room.Reactor.Loop.{Waited, loop}
use chat_room.Tcp.World.{World, Connection, Callback, accept_all, read_from, write_to, tick_all}
use chat_room.Tcp.Io.{Received, Sent, on_read, on_write, tick, accept_one}

-- accept: a descriptor, where its Connection is allocated, and whether epoll_ctl takes it; or -1 with
-- EAGAIN or another error, where the loop ends too.
pub data Accepted : Type 0 where
  accepted : ℕ → ℕ → Bool → Accepted
  accept_again : Accepted
  accept_failed : Accepted

-- The callback of the listening socket, while at most `n` connections wait. The allocator knows the
-- objects that there are.
unfoldable pub accept_loop {κ} :
    {K : Type κ} → (K → World → Accepted × K) → ℕ → K → World → Run (World × K)
accept_loop accept zero k w = no_fuel
accept_loop accept (suc n) k w =
    let r = accept k w in
    elim r.0 [
      | accepted fd p added ↦ (accept_one fd p added w >>= λ v. accept_loop accept n r.1 v)
      | accept_again ↦ done (w, r.1)
      | accept_failed ↦ done (w, r.1)
    ]

-- The default argument of ConnectionManager::tick.
abbrev pub timeout_sec : ℕ
timeout_sec = 30

-- The system calls, over a state K of the kernel: how many connections wait, what time(nullptr) gives,
-- what epoll_wait reports, and whether a signal has stopped the reactor.
pub record Kernel {κ} (K : Type κ) : Type κ where
  pub recv : ℕ → K → ℕ → Received × K
  pub send_to : ℕ → K → Bytes → Sent × K
  pub accept : K → World → Accepted × K
  pub waiting : K → ℕ
  pub now : K → ℕ
  pub wait : K → Waited × K
  pub running : K → Bool

-- What socket, bind, listen and epoll_ctl come to for the listening socket.
pub record Opened : Type 0 where
  pub fd : ℕ
  pub bound : Bool
  pub listening : Bool
  pub added : Bool

-- The objects of main, with what stands at the addresses of no object.
unfoldable pub init : (ℕ → Connection) → ℕ → World
init heap now = record {
  heap = heap;
  users = [];
  managed = [];
  reactor = Reactor.empty;
  closed_fds = [];
  now = now;
}

module _ {κ} {K : Type κ} (json : Json) (sys : Kernel K) where
  -- What a callback of the reactor does.
  unfoldable pub call : Callback → K → World → Run (World × K)
  call accept_all k w = accept_loop sys.accept (1 + sys.waiting k) k (record w { now = sys.now k })
  call (read_from p) k w = on_read json (sys.recv (w.heap p).fd) p k (record w { now = sys.now k })
  call (write_to p) k w =
      on_write json (sys.send_to (w.heap p).fd) p k (record w { now = sys.now k })
  call tick_all k w = tick json timeout_sec (record w { now = sys.now k }) >>= λ v. done (v, k)

  -- main, with the listening socket opened: the exit code once the loop has ended, or none after `n`
  -- rounds of it.
  unfoldable pub main : Opened → ℕ → K → World → Run (Option ℤ × World × K)
  unfolding call
  main opened n k w =
      if opened.bound
      then (if opened.listening
          then (do
            reactor ← or_throw (
                Reactor.add_fd opened.added opened.fd Reactor.epoll_in
                  (record { on_read = some accept_all; on_write = none }) w.reactor)
            r ←
                loop (λ v. v.reactor) call sys.running sys.wait (some tick_all) n k
                  (record w { reactor = reactor })
            done (
                if r.0
                then (some (pos 0), record r.1 { closed_fds = opened.fd ∷ (r.1).closed_fds }, r.2)
                else (none, r.1, r.2)))
          else done (some (negsuc 0), w, k))
      else done (some (negsuc 0), w, k)
