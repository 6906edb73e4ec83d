-- ===== src/Reactor/Loop.antt =====
-- Reactor::loop of src/server/reactor.cpp, over the state S of a program and K of the kernel. `call`
-- is what a callback does.
pub mod Keeps
use chat_room.Common.{
  ℕ, zero, suc, Bool, true, false, Option, none, some, List, [], ◌∷◌, if◌then◌else◌,
}
use chat_room.Common.Run.{Run, done, ◌>>=◌}
use chat_room.Reactor.{Reactor, handle_event}

-- epoll_wait: the events that it reports, or -1 with EINTR, or another error.
pub data Waited : Type 0 where
  events : List (ℕ × ℕ) → Waited
  interrupted : Waited
  wait_failed : Waited

module _ {ℓ κ} {C S : Type ℓ} {K : Type κ} (reactor_of : S → Reactor C)
    (call : C → K → S → Run (S × K)) where
  -- The callbacks that handleEvent has copied out, in order.
  unfoldable pub call_each : List C → K → S → Run (S × K)
  call_each [] k s = done (s, k)
  call_each (c ∷ cs) k s = call c k s >>= λ r. call_each cs r.1 r.0

  -- for(int i=0;i<n;i++) handleEvent(events[i].data.fd, events[i].events): each looks the table up as
  -- the ones before have left it.
  unfoldable pub handle_events : List (ℕ × ℕ) → K → S → Run (S × K)
  unfolding call_each handle_event
  handle_events [] k s = done (s, k)
  handle_events ((fd, ev) ∷ rest) k s =
      call_each (handle_event fd ev (reactor_of s)) k s >>= λ r. handle_events rest r.1 r.0

  -- if(0==n && tickCb_) tickCb_();
  abbrev pub tick_if : Option C → List (ℕ × ℕ) → K → S → Run (S × K)
  tick_if none evs k s = done (s, k)
  tick_if (some c) [] k s = call c k s
  tick_if (some c) (e ∷ evs) k s = done (s, k)

  -- At most `n` rounds of Reactor::loop; `running` is running_, which a signal may turn off, and `tick`
  -- is tickCb_. The Boolean says whether the loop has ended.
  unfoldable pub loop : (K → Bool) → (K → Waited × K) → Option C → ℕ → K → S → Run (Bool × S × K)
  unfolding handle_events
  loop running wait tick zero k s = done (false, s, k)
  loop running wait tick (suc n) k s =
      let w = wait k in
      let again = loop running wait tick n w.1 s in
      if running k
      then elim w.0 [
        | events evs ↦
            (tick_if tick evs w.1 s >>= λ t.
            handle_events evs t.1 t.0 >>= λ r. loop running wait tick n r.1 r.0)
        | interrupted ↦ again
        | wait_failed ↦ done (true, s, w.1)
      ]
      else done (true, s, k)
