-- ===== src/Examples/Waiting/Single.antt =====
-- `epoll_wait` with one listener in the concrete setting, edge-triggered, or for a descriptor that
-- has no connection, listens or connects.
use shmsock.Base.{
  ℕ, zero, suc, ◌≡◌, refl, ◌≢◌, true, false, [], ◌∷◌, none, some, arith, replicate, get_elem?,
}
use shmsock.Llist.{null}
use shmsock.Machine.{
  pos, failure, s_created, s_open, s_listen, s_connecting, c_open, c_create, c_close, econnrefused,
  EventListenFd, Connection, Block, Fd, State,
}
use shmsock.Machine.Cmd.{ok, update, fault, asleep}
use shmsock.Fds.{find_fd, fail}
use shmsock.Fds.Keeps.{with_entry}
use shmsock.Pollfds.{find_pollfd}
use shmsock.Connection.{epollin}
use shmsock.Connection.Search.{first_pending}
use shmsock.Socket.Connect.{connect_ex}
use shmsock.Waiting.{epoll_wait, event_of}
use shmsock.Waiting.Single.{Only}
use shmsock.Waiting.Offers.{unconnected_faults, listening_reports, connecting_opens}
use shmsock.Waiting.Refused.{refused_unseen}
use shmsock.Examples.{ext, ext_laws, kernel}
use shmsock.Examples.Descriptors.{fd_700, empty_conn}
use shmsock.Examples.Accepting.{one_slots}
use shmsock.Examples.Events.{no_listener}
use shmsock.Examples.Waiting.{listener_700, one_listener, watching, idle}

free_inactive :
    (n i : ℕ) (x : EventListenFd)
    → get_elem? (replicate n no_listener) i ≡ some x
    → x.active ≡ false
free_inactive zero i x at = cc
free_inactive (suc n) zero x at = ground (arith, at)
free_inactive (suc n) (suc i) x at = free_inactive n i x at

one-Only :
    (l : EventListenFd) (c : Connection) (d : Fd)
    → l.active ≡ true
    → Only (watching l c d) 0 0 (one_listener l) l
one-Only l c d on = record {
  at_k = refl;
  size = refl;
  pure_own = refl;
  at_j = refl;
  within = omega arith;
  on = on;
  others = λ i x at ne. elsewhere i x at ne;
}
  where
    elsewhere :
        (i : ℕ) (x : EventListenFd)
        → get_elem? (l ∷ replicate 19 no_listener) i ≡ some x
        → i ≢ 0
        → x.active ≡ false
    elsewhere zero x at ne = absurd (ne refl)
    elsewhere (suc i) x at ne = free_inactive 19 i x at

-- An edge-triggered listener to EPOLLIN and EPOLLHUP, with EPOLLIN set.
abbrev edge_700 : EventListenFd
edge_700 = listener_700 false 17

abbrev armed_conn : Connection
armed_conn = record (empty_conn c_open) { server_events = 1 }

abbrev edge_now : State
edge_now = watching edge_700 armed_conn (fd_700 s_open 0)

abbrev armed_block : Block Connection
armed_block = record { arena = 124; value = armed_conn }

-- A new socket.
abbrev fresh_fd : Fd
fresh_fd = record (fd_700 s_created 0) { conn = null }

abbrev fresh_now : State
fresh_now = watching (listener_700 true 1) (empty_conn c_open) fresh_fd

unconnected_faults_example : epoll_wait ext kernel 900 8 (pos 5) [] fresh_now ≡ fault
unfolding find_pollfd
unconnected_faults_example =
    unconnected_faults ext kernel 900 0 0 8 fresh_now (one_listener (listener_700 true 1))
      (listener_700 true 1) (one-Only (listener_700 true 1) (empty_conn c_open) fresh_fd refl)
      (omega arith) refl fresh_fd refl refl (pos 5) [] refl refl refl

-- A socket that listens on the server's address, with a listener to EPOLLOUT alone.
abbrev server_fd : Fd
server_fd = record (fd_700 s_listen 0) { listen_address = 1 }

abbrev listening_now : State
listening_now = watching (listener_700 true 4) (empty_conn c_create) server_fd

listening_reports_example :
    (c : Connection) × (epoll_wait ext kernel 900 8 failure [] listening_now
      ≡ ok
          (pos 1, event_of (listener_700 true 4) epollin ∷ [])
          (record listening_now {
            memory = record listening_now.memory {
              conns =
                  update listening_now.memory.conns 500 (some (record { arena = 124; value = c }));
            };
          }))
unfolding find_pollfd first_pending
listening_reports_example =
    listening_reports ext kernel 900 0 0 8 listening_now (one_listener (listener_700 true 4))
      (listener_700 true 4) (one-Only (listener_700 true 4) (empty_conn c_create) server_fd refl)
      (omega arith) refl server_fd refl refl (record { arena = 124; value = empty_conn c_create })
      (λ e. omega arith) refl ext_laws failure [] refl (λ e. omega arith) (one_slots c_create)
      (λ e. omega arith)

-- A socket that connects, its connection accepted.
abbrev connecting_now : State
connecting_now = watching (listener_700 true 4) (empty_conn c_open) (fd_700 s_connecting 2048)

connecting_opens_example :
    (c : Connection) × (epoll_wait ext kernel 900 8 failure [] connecting_now
      ≡ ok
          (pos 1, event_of (listener_700 true 4) epollin ∷ [])
          (with_entry
            (record connecting_now {
              memory = record connecting_now.memory {
                conns =
                    update connecting_now.memory.conns 500
                      (some (record { arena = 124; value = c }));
              };
            })
            0
            (record (fd_700 s_connecting 2048) { state = s_open })))
unfolding find_pollfd find_fd
connecting_opens_example =
    connecting_opens ext kernel 900 0 0 8 connecting_now (one_listener (listener_700 true 4))
      (listener_700 true 4)
      (one-Only (listener_700 true 4) (empty_conn c_open) (fd_700 s_connecting 2048) refl)
      (omega arith) refl (fd_700 s_connecting 2048) refl refl
      (record { arena = 124; value = empty_conn c_open }) (λ e. omega arith) refl failure [] refl
      refl refl

-- A socket that connects, its connection closed.
abbrev refused_now : State
refused_now = watching (listener_700 true 21) (empty_conn c_close) (fd_700 s_connecting 2048)

refused_unseen_example :
    (connect_ex ext 700 none idle refused_now ≡ fail econnrefused refused_now)
    × (epoll_wait ext kernel 900 8 failure idle refused_now ≡ asleep)
unfolding find_pollfd find_fd
refused_unseen_example =
    refused_unseen ext kernel 900 0 0 8 (omega arith) (one_listener (listener_700 true 21))
      (listener_700 true 21) (fd_700 s_connecting 2048) refused_now idle
      (record {
        only = one-Only (listener_700 true 21) (empty_conn c_close) (fd_700 s_connecting 2048) refl;
        found = refl;
        own = refl;
        at = refl;
        live = refl;
        connects = refl;
        ne_null = λ e. omega arith;
        block = record { arena = 124; value = empty_conn c_close };
        holds = refl;
        closed = refl;
      })
      ((λ t h. h), tt)
