-- ===== src/Reactor/Loop/Keeps.antt =====
-- What every callback keeps, the loop of src/server/reactor.cpp keeps.
use chat_room.Common.{
  ℕ, zero, suc, Bool, true, Option, none, some, List, [], ◌∷◌, inl, inr, Bool-cases,
}
use chat_room.Common.Run.{Run, done, ◌>>=◌, Returns, Returns-bind}
use chat_room.Reactor.{Reactor, handle_event}
use chat_room.Reactor.Loop.{
  Waited, events, interrupted, wait_failed, call_each, handle_events, tick_if, loop,
}

module _ {ℓ κ} {C S : Type ℓ} {K : Type κ} (reactor_of : S → Reactor C)
    (call : C → K → S → Run (S × K)) (P : S → Type 0)
    (keeps : (c : C) (k : K) (s : S) → P s → Returns (λ r. P r.0) (call c k s)) where
  abbrev After : S × K → Type 0
  After r = P r.0

  call_each-After :
      (cs : List C) (k : K) (s : S) → P s → Returns After (call_each reactor_of call cs k s)
  unfolding call_each
  call_each-After [] k s h = h
  call_each-After (c ∷ cs) k s h =
      Returns-bind After After (call c k s) _ (keeps c k s h) (λ r i. call_each-After cs r.1 r.0 i)

  handle_events-After :
      (evs : List (ℕ × ℕ)) (k : K) (s : S)
      → P s
      → Returns After (handle_events reactor_of call evs k s)
  unfolding handle_events
  handle_events-After [] k s h = h
  handle_events-After ((fd, ev) ∷ rest) k s h =
      Returns-bind After After (call_each reactor_of call (handle_event fd ev (reactor_of s)) k s) _
        (call_each-After (handle_event fd ev (reactor_of s)) k s h)
        (λ r i. handle_events-After rest r.1 r.0 i)

  tick_if-After :
      (tick : Option C) (evs : List (ℕ × ℕ)) (k : K) (s : S)
      → P s
      → Returns After (tick_if reactor_of call tick evs k s)
  tick_if-After none evs k s h = h
  tick_if-After (some c) [] k s h = keeps c k s h
  tick_if-After (some c) (e ∷ evs) k s h = h

  module _ (running : K → Bool) (wait : K → Waited × K) (tick : Option C) where
    abbrev AfterLoop : Bool × S × K → Type 0
    AfterLoop r = P r.1

    pub loop-Returns :
        (n : ℕ) (k : K) (s : S)
        → P s
        → Returns AfterLoop (loop reactor_of call running wait tick n k s)
    unfolding loop
    loop-Returns zero k s h = h
    loop-Returns (suc n) k s h = elim (Bool-cases (running k)) [
      | inr e ↦ rw (loop, e) h
      | inl e ↦ rw (loop, e) (round (wait k).0 (wait k).1 (λ l t i. loop-Returns n l t i))
    ]
      where
        round :
            (w : Waited) (l : K)
            → ((l : K) (t : S)
                → P t
                → Returns AfterLoop (loop reactor_of call running wait tick n l t))
            → Returns AfterLoop (elim w as (λ w. Run (Bool × S × K)) [
              | events evs ↦
                  (tick_if reactor_of call tick evs l s >>= λ t.
                  handle_events reactor_of call evs t.1 t.0 >>= λ r.
                  loop reactor_of call running wait tick n r.1 r.0)
              | interrupted ↦ loop reactor_of call running wait tick n l s
              | wait_failed ↦ done (true, s, l)
            ])
        round (events evs) l next =
            Returns-bind After AfterLoop (tick_if reactor_of call tick evs l s) _
              (tick_if-After tick evs l s h)
              (λ t i.
                Returns-bind After AfterLoop (handle_events reactor_of call evs t.1 t.0) _
                  (handle_events-After evs t.1 t.0 i) (λ r j. next r.1 r.0 j))
        round interrupted l next = next l s h
        round wait_failed l next = h
