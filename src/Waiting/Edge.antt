-- ===== src/Waiting/Edge.antt =====
-- Edge-triggered listeners: an event is reported once, and again after the peer sets it again.
use shmsock.Base.{ℕ, ◌<◌, ◌^◌, ◌≡◌, ◌≢◌, true, false, some, get_elem?, bit_and}
use shmsock.Llist.{Ptr, null}
use shmsock.Machine.{
  Side, s_listen, s_connecting, EventListenFd, Epollfd, Fd, Connection, Block, State, External,
  Kernel,
}
use shmsock.Machine.Sides.{own_events, set_own_events}
use shmsock.Machine.Cmd.{update}
use shmsock.Fds.{in_state}
use shmsock.Pollfds.{find_pollfd}
use shmsock.Waiting.{clear_event}
use shmsock.Waiting.Single.{Only}

-- An edge-triggered listener for a descriptor in use that neither listens nor connects, with its
-- connection.
pub record EdgeOn (s : State) (l : EventListenFd) (d : Fd) (b : Block Connection) : Type 0 where
  pub at : get_elem? s.process.fds l.fd ≡ some d
  pub live : d.active ≡ true
  pub no_listen : in_state s_listen d ≡ false
  pub no_connect : in_state s_connecting d ≡ false
  pub edge : l.is_level_triggered ≡ false
  pub ne_null : d.conn ≢ null
  pub holds : s.memory.conns d.conn ≡ some b

-- The block with another mask of events of one side, and the state with such a block at `p`.
abbrev pub with_own : Side → Block Connection → ℕ → Block Connection
with_own side b n = record b { value = set_own_events side n b.value }

abbrev pub armed : State → Ptr → Block Connection → ℕ → State
armed s p b n = record s {
  memory = record s.memory { conns = update s.memory.conns p (some (with_own s.process.side b n)) };
}

module _ (ext : External) (k j : ℕ) (e : Epollfd) (l : EventListenFd) (d : Fd) where
  abbrev part : State → Block Connection → ℕ
  part s b = bit_and (own_events s.process.side b.value) l.event.events

module _ (ext : External) (kernel : Kernel) (epfd k j max : ℕ) (s : State) (e : Epollfd)
    (l : EventListenFd) (h : Only s k j e l) (room : 0 < max)
    (found : find_pollfd epfd s.process.pollfds ≡ some k) (d : Fd) (b : Block Connection)
    (g : EdgeOn s l d b) (bits : l.event.events < 2 ^ 32) where
  abbrev own : ℕ
  own = own_events s.process.side b.value

  abbrev mask : ℕ
  mask = l.event.events

  -- What is left of the own events once they are reported, and the state then.
  abbrev left : ℕ
  left = clear_event own mask

  abbrev told : State
  told = armed s d.conn b left
