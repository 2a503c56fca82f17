-- ===== src/Waiting.antt =====
-- event.c: `epoll_wait` and `epoll_pwait`.
pub mod Reports
pub mod Scan
pub mod Rounds
pub mod Single
pub mod Edge
pub mod Offers
pub mod Refused
pub mod Keeps
pub mod Timeout
use shmsock.Base.{
  ℕ, zero, suc, ◌+◌, ◌-◌, ◌*◌, ◌%◌, ◌^◌, Bool, true, false, List, [], ◌∷◌, ◌++◌, Option, none, some,
  if◌then◌else◌, ◌==◌, ◌&&◌, ◌||◌, not, get_elem?, length, ltb, bit_and, bit_or,
}
use shmsock.Llist.{Ptr, null}
use shmsock.Machine.{
  ℤ, pos, negsuc, failure, ebadf, s_listen, s_connecting, EpollEvent, EventListenFd, Epollfd, Fd,
  Connection, External, Kernel,
}
use shmsock.Machine.Sides.{own_events, set_own_events, own_lt_events, set_own_lt_events}
use shmsock.Machine.Cmd.{
  Run, ok, asleep, Cmd, Schedule, pure, ◌>>=◌, ◌>>◌, get_process, set_errno, or_fault, load_fd,
  load_conn, update_conn,
}
use shmsock.Fds.{in_state, sleep_then}
use shmsock.Pollfds.{max_fds_listen, load_pollfd, get_pollfd_by_num}
use shmsock.Listeners.{handle_fd_close_in_events, set_level_triggered_events}
use shmsock.Connection.{epollin, search_new_connection_on_any_iface, check_if_accepted_connection}
use shmsock.Socket.Connect.{connect_ex}

-- CLEAR_EVENT, on 32 bits
abbrev pub clear_event : ℕ → ℕ → ℕ
clear_event m event = bit_and m (2 ^ 32 - 1 - event)

-- The event of a listener with the part of a mask that it listens to.
abbrev pub event_of : EventListenFd → ℕ → EpollEvent
event_of l m = record { events = m; user = l.event.user }

-- A number of 32 bits, read as an `int`.
abbrev pub signed32 : ℕ → ℤ
signed32 w = if ltb w (2 ^ 31) then pos w else negsuc (2 ^ 32 - w - 1)

-- An `int` times a positive constant. It wraps around.
abbrev pub times : ℤ → ℕ → ℤ
times (pos n) c = signed32 (n * c % 2 ^ 32)
times (negsuc n) c = signed32 ((2 ^ 32 - suc n * c % 2 ^ 32) % 2 ^ 32)

abbrev pub lt_int : ℤ → ℤ → Bool
lt_int (pos m) (pos n) = ltb m n
lt_int (pos m) (negsuc n) = false
lt_int (negsuc m) (pos n) = true
lt_int (negsuc m) (negsuc n) = ltb n m

abbrev pub is_failure : ℤ → Bool
is_failure (negsuc zero) = true
is_failure n = false

-- The timeout is in milliseconds and each sleep takes SLEEP_DURATION, 100 microseconds; -1 is no
-- timeout. `elapsed` is how often the call has slept.
abbrev pub timed_out : ℤ → ℕ → Bool
timed_out timeout elapsed =
    not (is_failure timeout) && lt_int (times timeout 1000) (times (pos elapsed) 100)

-- SET_EVENT(..., EPOLLIN) on both masks of the connection.
unfoldable pub set_input : Ptr → Cmd (Unit {0})
set_input p = do
  pr ← get_process
  update_conn p (λ x. set_own_events pr.side (bit_or (own_events pr.side x) epollin) x)
  update_conn p (λ x. set_own_lt_events pr.side (bit_or (own_lt_events pr.side x) epollin) x)

unfoldable pub clear_input : Ptr → Cmd (Unit {0})
clear_input p = do
  pr ← get_process
  update_conn p (λ x. set_own_lt_events pr.side (clear_event (own_lt_events pr.side x) epollin) x)

module _ (ext : External) where
  -- checkAndSetEvents: the result is the events array so far.
  unfoldable pub check_level : EventListenFd → ℕ → List EpollEvent → Cmd (List EpollEvent)
  check_level l event acc = do
    d ← load_fd l.fd
    if in_state s_listen d || in_state s_connecting d
        then pure tt
        else set_level_triggered_events ext d.conn
    pr ← get_process
    c ← load_conn d.conn
    let m = bit_and (own_lt_events pr.side c) event
    if m == 0 then pure acc else pure (acc ++ event_of l m ∷ [])

  unfoldable pub check_edge : EventListenFd → ℕ → List EpollEvent → Cmd (List EpollEvent)
  check_edge l event acc = do
    d ← load_fd l.fd
    pr ← get_process
    c ← load_conn d.conn
    let m = bit_and (own_events pr.side c) event
    if m == 0 then pure acc else (do
      update_conn d.conn (λ x. set_own_events pr.side (clear_event (own_events pr.side x) event) x)
      pure (acc ++ event_of l m ∷ []))

  unfoldable pub check_and_set_events : EventListenFd → ℕ → List EpollEvent → Cmd (List EpollEvent)
  check_and_set_events l event acc =
      if l.is_level_triggered then check_level l event acc else check_edge l event acc

  -- A listening socket: is there a connection to accept?
  unfoldable pub check_listen : EventListenFd → Fd → List EpollEvent → Cmd (List EpollEvent)
  check_listen l d acc = do
    c ← search_new_connection_on_any_iface ext d.listen_address d.listen_port
    if c == null
        then (do clear_input d.conn; pure acc)
        else (do set_input d.conn; check_and_set_events l epollin acc)

  -- A socket that connects: once it is accepted, `connectEx` makes it open.
  unfoldable pub check_connecting : EventListenFd → Fd → List EpollEvent → Cmd (List EpollEvent)
  check_connecting l d acc = do
    accepted ← check_if_accepted_connection ext d.conn
    if not accepted then (do clear_input d.conn; pure acc) else (do
      set_input d.conn
      evs ← check_and_set_events l epollin acc
      connect_ex ext d.num none []
      pure evs)

  -- One listener.
  unfoldable pub visit_listener : ℕ → ℕ → List EpollEvent → Cmd (List EpollEvent)
  visit_listener k j acc = do
    e ← load_pollfd k
    l ← or_fault (get_elem? e.lfds j)
    if not l.active then pure acc else (do
      d ← load_fd l.fd
      if not d.active
          then (do handle_fd_close_in_events k j; pure acc)
          else if in_state s_listen d
          then check_listen l d acc
          else if in_state s_connecting d
          then check_connecting l d acc
          else check_and_set_events l l.event.events acc)

  -- The loop over `n` listeners from index `j`: it ends early when the array is full.
  unfoldable pub scan : ℕ → ℕ → ℕ → ℕ → List EpollEvent → Cmd (List EpollEvent)
  scan k maxevents zero j acc = pure acc
  scan k maxevents (suc n) j acc =
      if ltb (length acc) maxevents
      then (do acc' ← visit_listener k j acc; scan k maxevents n (suc j) acc')
      else pure acc

  -- What the kernel has for a mixed descriptor fills up the array. Its errors are ignored.
  unfoldable pub real_events : Kernel → ℕ → ℕ → ℕ → List EpollEvent → Cmd (List EpollEvent)
  real_events kernel k maxevents elapsed acc = do
    e ← load_pollfd k
    if not e.is_mixed then pure acc else (do
      p ← get_process
      let r = kernel.sys_epoll_wait elapsed e.real_pollfd (maxevents - length acc) p.errno
      set_errno r.1
      pure (acc ++ r.0))

  -- One round of the loop: `sleep` is what follows the sleep.
  unfoldable pub pwait_round :
      Kernel → ℕ → ℕ → ℤ → ℕ → Cmd (ℤ × List EpollEvent) → Cmd (ℤ × List EpollEvent)
  pwait_round kernel k maxevents timeout elapsed sleep = do
    own ← scan k maxevents max_fds_listen 0 []
    evs ← real_events kernel k maxevents elapsed own
    if ltb 0 (length evs)
        then pure (pos (length evs), evs)
        else if timed_out timeout elapsed
        then pure (pos 0, [])
        else sleep

  unfoldable pub pwait_wait : Kernel → Schedule → ℕ → ℕ → ℤ → ℕ → Cmd (ℤ × List EpollEvent)
  pwait_wait kernel [] k maxevents timeout elapsed =
      pwait_round kernel k maxevents timeout elapsed (λ s. asleep)
  pwait_wait kernel (env ∷ rest) k maxevents timeout elapsed =
      pwait_round kernel k maxevents timeout elapsed
        (sleep_then env (pwait_wait kernel rest k maxevents timeout (suc elapsed)))

  -- The result and the events array, as far as it was written. The signal mask is not used; a
  -- negative `maxevents` is 0 here, as in both no listener is looked at.
  unfoldable pub epoll_pwait : Kernel → ℕ → ℕ → ℤ → Schedule → Cmd (ℤ × List EpollEvent)
  epoll_pwait kernel epfd maxevents timeout schedule = do
    g ← get_pollfd_by_num epfd
    elim g [
      | none ↦ (do set_errno ebadf; pure (failure, []))
      | some k ↦ pwait_wait kernel schedule k maxevents timeout 0
    ]

  unfoldable pub epoll_wait : Kernel → ℕ → ℕ → ℤ → Schedule → Cmd (ℤ × List EpollEvent)
  epoll_wait kernel epfd maxevents timeout schedule =
      epoll_pwait kernel epfd maxevents timeout schedule
