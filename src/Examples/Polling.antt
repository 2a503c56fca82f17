-- ===== src/Examples/Polling.antt =====
-- `poll` in the concrete setting.
use shmsock.Base.{ℕ, zero, suc, ◌≡◌, refl, [], ◌∷◌, some, arith, replicate, All, ◌<◌, ◌^◌}
use shmsock.Llist.{Ptr}
use shmsock.Machine.{failure, pos, server, s_open, ebadf, eexist, Errno, Epollfd, State}
use shmsock.Machine.Cmd.{ok}
use shmsock.Fds.{find_fd}
use shmsock.Pollfds.{find_pollfd}
use shmsock.Waiting.Reports.{SameConn}
use shmsock.Poll.{PollFd, poll}
use shmsock.Poll.Slots.{IsOff}
use shmsock.Poll.Loops.{Watched}
use shmsock.Poll.Quiet.{poll_quiet}
use shmsock.Poll.Answers.{PollIdle, poll-answers}
use shmsock.Poll.Leak.{poll_leak, with_errno}
use shmsock.Examples.{ext, ext_laws, kernel}
use shmsock.Examples.Descriptors.{fd_700, at_700}
use shmsock.Examples.Events.{no_listener, epoll_900, closed_conn}

-- A packet can be read at the descriptor 700, and `poll` has its epoll descriptor.
abbrev before_poll : State
before_poll =
    let s = at_700 server [] closed_conn (fd_700 s_open 0) in
    record s { process = record s.process { pollfds = epoll_900 ∷ []; poll_epollfd = some 900 } }

free_slots : (n : ℕ) → All IsOff (replicate n no_listener)
free_slots zero = tt
free_slots (suc n) = (refl, free_slots n)

before-PollIdle : PollIdle 900 0 epoll_900 before_poll
unfolding find_pollfd
before-PollIdle = record {
  kept = refl;
  found = refl;
  at_k = refl;
  size = refl;
  pure_own = refl;
  free = free_slots 20;
}

abbrev ask : ℕ → ℕ → PollFd
ask n mask = record { fd = n; events = mask; revents = 7 }

ask-Watched :
    (mask : ℕ)
    → mask < 2 ^ 15
    → Watched before_poll.process.fds before_poll.memory.conns (ask 700 mask)
unfolding find_fd
ask-Watched mask low = record {
  index = 0;
  entry = fd_700 s_open 0;
  block = record { arena = 124; value = closed_conn };
  found = refl;
  own = omega arith;
  at = refl;
  no_listen = refl;
  no_connect = refl;
  ne_null = λ e. omega arith;
  holds = refl;
  low = low;
}

poll-answers_example :
    (u : State) × (e : Epollfd) × (poll ext kernel (ask 700 5 ∷ []) failure [] before_poll
      ≡ ok (pos 1, record { fd = 700; events = 5; revents = 5 } ∷ []) u)
    × PollIdle 900 0 e u
    × (u.process.fds ≡ before_poll.process.fds)
    × ((p : Ptr) → SameConn server (before_poll.memory.conns p) (u.memory.conns p))
unfolding ask-Watched
poll-answers_example =
    poll-answers ext ext_laws kernel 900 0 epoll_900 before_poll before-PollIdle (ask 700 5 ∷ [])
      (ask-Watched 5 (omega arith), tt) (tt, tt) (omega arith) failure [] (λ e. omega arith)

-- What can be read is not asked for, only EPOLLPRI.
poll_quiet_example :
    (u : State) × (e : Epollfd) × (poll ext kernel
        (ask 700 2 ∷ [])
        (pos 0)
        ((λ v. v) ∷ [])
        before_poll
      ≡ ok (pos 0, record { fd = 700; events = 2; revents = 0 } ∷ []) u)
    × PollIdle 900 0 e u
    × (u.process.fds ≡ before_poll.process.fds)
unfolding ask-Watched
poll_quiet_example =
    poll_quiet ext ext_laws kernel 900 0 epoll_900 before_poll before-PollIdle (ask 700 2 ∷ [])
      (ask-Watched 2 (omega arith), tt) (tt, tt) (omega arith) 0 ((λ v. v) ∷ []) (omega arith)
      (omega arith) ((λ u h. h), tt) ((λ u. refl), tt) refl

-- The number 701 is not in use.
poll_leak_example :
    (u : State) × (poll ext kernel (ask 700 1 ∷ ask 701 1 ∷ []) failure [] before_poll
      ≡ ok (failure, ask 700 1 ∷ ask 701 1 ∷ []) (with_errno u ebadf))
    × ((errno : Errno)
        → poll ext kernel (ask 700 4 ∷ []) (pos 5) [] (with_errno u errno)
          ≡ ok (failure, ask 700 4 ∷ []) (with_errno u eexist))
unfolding find_fd
poll_leak_example =
    poll_leak ext kernel 900 0 epoll_900 before_poll before-PollIdle (ask 700 1) (ask 701 1) 0
      (omega arith) refl (omega arith) refl [] [] (ask 700 4) failure (pos 5) [] [] refl
