-- ===== src/Listeners.antt =====
-- event.c: the listeners of an epoll descriptor, `epoll_ctl`, and the level-triggered events of a
-- connection.
pub mod Lifecycle
pub mod Levels
pub mod Stale
pub mod Keeps
use shmsock.Base.{
  ℕ, zero, suc, Bool, true, false, List, [], ◌∷◌, Option, none, some, if◌then◌else◌, ◌==◌, ◌&&◌,
  not, set, get_elem?, ltb, bit_and, bit_or,
}
use shmsock.Llist.{Ptr, has_data_list}
use shmsock.Machine.{
  ℤ, pos, failure, c_close, conn_num, ebadf, enomem, eexist, enoent, einval, EpollEvent,
  EventListenFd, Epollfd, Connection, External, Kernel,
}
use shmsock.Machine.Sides.{recv_buffer, own_lt_events, set_own_lt_events}
use shmsock.Machine.Cmd.{
  fault, Cmd, pure, ◌>>=◌, ◌>>◌, get_process, set_errno, or_fault, load_fd, load_conn, update_conn,
}
use shmsock.Fds.{fd_start, get_fd_by_num, fail}
use shmsock.Pollfds.{load_pollfd, update_pollfd, get_pollfd_by_num, delete_listener}
use shmsock.Connection.{epollin, epollhup}

-- EPOLLOUT and EPOLLET
abbrev pub epollout : ℕ
epollout = 4

abbrev pub epollet : ℕ
epollet = 0x8000_0000

-- EPOLL_CTL_ADD, EPOLL_CTL_DEL and EPOLL_CTL_MOD
abbrev pub ctl_add : ℕ
ctl_add = 1

abbrev pub ctl_del : ℕ
ctl_del = 2

abbrev pub ctl_mod : ℕ
ctl_mod = 3

-- pfd->lfds[j]
unfoldable pub update_listener : ℕ → ℕ → (EventListenFd → EventListenFd) → Cmd (Unit {0})
update_listener k j f = do
  e ← load_pollfd k
  l ← or_fault (get_elem? e.lfds j)
  update_pollfd k (λ x. record x { lfds = set e.lfds j (f l) })

unfoldable pub handle_fd_close_in_events : ℕ → ℕ → Cmd (Unit {0})
handle_fd_close_in_events k j = update_listener k j delete_listener

-- The loop of `getListenerForFd` from index `j`: the first active listener whose entry of the table
-- has the number, and whether that entry is active.
unfoldable pub listener_loop : ℕ → List EventListenFd → ℕ → Cmd (Option (ℕ × Bool))
listener_loop num [] j = pure none
listener_loop num (l ∷ ls) j =
    let rest = listener_loop num ls (suc j) in
    if l.active
    then (do d ← load_fd l.fd; if d.num == num then pure (some (j, d.active)) else rest)
    else rest

-- The descriptor was closed where the entry is not active.
unfoldable pub get_listener_for_fd : ℕ → ℕ → Cmd (Option ℕ)
get_listener_for_fd k num = do
  e ← load_pollfd k
  r ← listener_loop num e.lfds 0
  elim r [
    | none ↦ pure none
    | some (j, on) ↦ if on then pure (some j) else (do handle_fd_close_in_events k j; pure none)
  ]

-- The loop of `getEmptyListener`.
unfoldable pub find_empty_listener : List EventListenFd → Option ℕ
find_empty_listener [] = none
find_empty_listener (l ∷ ls) =
    if not l.active
    then some 0
    else elim (find_empty_listener ls) [ none ↦ none | some j ↦ some (suc j) ]

-- The listener is active from then on.
unfoldable pub take_listener : ℕ → Option ℕ → Cmd (Option ℕ)
take_listener k none = pure none
take_listener k (some j) = do update_listener k j (λ l. record l { active = true }); pure (some j)

unfoldable pub get_empty_listener : ℕ → Cmd (Option ℕ)
unfolding take_listener
get_empty_listener k = do e ← load_pollfd k; take_listener k (find_empty_listener e.lfds)

-- The event of the caller is copied. Flags that are not supported are only reported.
abbrev pub with_event : EpollEvent → EventListenFd → EventListenFd
with_event ev l = record l { event = ev; is_level_triggered = bit_and ev.events epollet == 0 }

-- A descriptor of the kernel: it goes to an epoll descriptor of the kernel, which is made for the
-- first of them.
unfoldable pub real_ctl : Kernel → ℕ → ℕ → ℕ → Option EpollEvent → Cmd ℤ
real_ctl kernel k op sockfd event = do
  e ← load_pollfd k
  if e.is_mixed then pure tt else (do
    p ← get_process
    let r = kernel.sys_epoll_create1 e.all_flags p.errno
    set_errno r.1
    update_pollfd k (λ x. record x { real_pollfd = r.0; is_mixed = true }))
  x ← load_pollfd k
  p ← get_process
  let r = kernel.sys_epoll_ctl x.real_pollfd op sockfd event p.errno
  set_errno r.1
  pure r.0

unfoldable pub add_listener : ℕ → ℕ → ℕ → Option EpollEvent → Cmd ℤ
add_listener k i sockfd event = do
  found ← get_listener_for_fd k sockfd
  elim found [
    | some j ↦ fail eexist
    | none ↦ (do
      free ← get_empty_listener k
      elim free [
        | none ↦ fail enomem
        | some j ↦ (do
          update_listener k j (λ l. record l { fd = i })
          ev ← or_fault event
          update_listener k j (with_event ev)
          pure (pos 0))
      ])
  ]

unfoldable pub modify_listener : ℕ → ℕ → Option EpollEvent → Cmd ℤ
modify_listener k sockfd event = do
  found ← get_listener_for_fd k sockfd
  elim found [
    | none ↦ fail enoent
    | some j ↦ (do ev ← or_fault event; update_listener k j (with_event ev); pure (pos 0))
  ]

unfoldable pub remove_listener : ℕ → ℕ → Cmd ℤ
remove_listener k sockfd = do
  found ← get_listener_for_fd k sockfd
  elim found [
    | none ↦ fail enoent
    | some j ↦ (do update_listener k j delete_listener; pure (pos 0))
  ]

unfoldable pub epoll_ctl : Kernel → ℕ → ℕ → ℕ → Option EpollEvent → Cmd ℤ
epoll_ctl kernel epfd op sockfd event = do
  g ← get_pollfd_by_num epfd
  f ← get_fd_by_num sockfd
  elim g [
    | none ↦ fail ebadf
    | some k ↦ if ltb sockfd fd_start then real_ctl kernel k op sockfd event else elim f [
      | none ↦ fail ebadf
      | some i ↦
          if op == ctl_add
          then add_listener k i sockfd event
          else if op == ctl_mod
          then modify_listener k sockfd event
          else if op == ctl_del
          then remove_listener k sockfd
          else fail einval
    ]
  ]

-- `setLevelTriggeredEvents`: the mask is cleared, then each event is set that holds. Writing is
-- always possible.
unfoldable pub set_level_triggered_events : External → Ptr → Cmd (Unit {0})
set_level_triggered_events ext p = do
  pr ← get_process
  update_conn p (set_own_lt_events pr.side 0)
  c ← load_conn p
  if has_data_list ext.ll (recv_buffer pr.side c)
      then update_conn p
          (λ x. set_own_lt_events pr.side (bit_or (own_lt_events pr.side x) epollin) x)
      else pure tt
  update_conn p (λ x. set_own_lt_events pr.side (bit_or (own_lt_events pr.side x) epollout) x)
  d ← load_conn p
  if conn_num d.conn_state == conn_num c_close
      then update_conn p
          (λ x. set_own_lt_events pr.side (bit_or (own_lt_events pr.side x) epollhup) x)
      else pure tt
