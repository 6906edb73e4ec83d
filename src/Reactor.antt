-- ===== src/Reactor.antt =====
-- src/server/reactor.{h,cpp}: the table of callbacks by file descriptor, over epoll. A callback is a
-- value of C; the calls of epoll_ctl are listed, the last one first.
pub mod Loop
use chat_room.Common.{
  ℕ, Bool, true, Option, none, some, List, [], ◌∷◌, ◌++◌, ◌==◌, if◌then◌else◌, not, bit_and, bit_or,
}
use chat_room.Common.Dict
use chat_room.Common.Dict.{Dict}
use chat_room.Common.Keys.{nat_key}

-- The bits of <sys/epoll.h>.
abbrev pub epoll_in : ℕ
epoll_in = 0x1

abbrev pub epoll_out : ℕ
epoll_out = 0x4

abbrev pub epoll_err : ℕ
epoll_err = 0x8

abbrev pub epoll_hup : ℕ
epoll_hup = 0x10

pub data EpollCall : Type 0 where
  ctl_add : ℕ → ℕ → EpollCall
  ctl_mod : ℕ → ℕ → EpollCall
  ctl_del : ℕ → EpollCall

pub record FdContext {ℓ} (C : Type ℓ) : Type ℓ where
  pub on_read : Option C
  pub on_write : Option C

pub record Reactor {ℓ} (C : Type ℓ) : Type ℓ where
  pub contexts : Dict ℕ (FdContext C)
  pub calls : List EpollCall

-- events & mask
abbrev pub has_bits : ℕ → ℕ → Bool
has_bits events mask = not (bit_and events mask == 0)

module _ {ℓ} {C : Type ℓ} where
  abbrev pub empty : Reactor C
  empty = record { contexts = []; calls = [] }

  -- Reactor::addFd: `added` is whether epoll_ctl succeeds; none is the runtime_error where not.
  abbrev pub add_fd : Bool → ℕ → ℕ → FdContext C → Reactor C → Option (Reactor C)
  add_fd added fd events context r =
      if added
      then some (record {
        contexts = Dict.insert fd context r.contexts;
        calls = ctl_add fd events ∷ r.calls;
      })
      else none

  -- Reactor::modifyFd
  abbrev pub modify_fd : ℕ → ℕ → Reactor C → Reactor C
  modify_fd fd events r = record r { calls = ctl_mod fd events ∷ r.calls }

  -- Reactor::removeFd
  abbrev pub remove_fd : ℕ → Reactor C → Reactor C
  remove_fd fd r = record { contexts = Dict.erase fd r.contexts; calls = ctl_del fd ∷ r.calls }

  -- if(flag && cb) cb();
  abbrev pub when : Bool → Option C → List C
  when b none = []
  when b (some c) = if b then c ∷ [] else []

  -- Reactor::handleEvent: the callbacks that it runs, in order. They are copied out of the table
  -- before the first one runs.
  unfoldable pub handle_event : ℕ → ℕ → Reactor C → List C
  handle_event fd events r = elim (Dict.lookup fd r.contexts) [
    | none ↦ []
    | some context ↦
        if has_bits events (bit_or epoll_err epoll_hup)
        then when true context.on_read
        else when (has_bits events epoll_in) context.on_read
          ++ when (has_bits events epoll_out) context.on_write
  ]
