-- ===== src/Pollfds.antt =====
-- The tables of event.c: epoll descriptors, and the listeners of each.
pub mod Table
pub mod Keeps
use shmsock.Base.{
  ℕ, suc, ◌+◌, true, false, List, [], ◌∷◌, Option, none, some, if◌then◌else◌, ◌==◌, ◌&&◌, not, set,
  get_elem?, leb, map,
}
use shmsock.Machine.{ℤ, pos, ebadf, enfile, enomem, EventListenFd, Epollfd}
use shmsock.Machine.Cmd.{Cmd, pure, ◌>>=◌, ◌>>◌, get_process, put_process, or_fault}
use shmsock.Fds.{system_max_fd, fail}

-- MAX_POLLFDS and MAX_FDS_LISTEN
abbrev pub max_pollfds : ℕ
max_pollfds = 50

abbrev pub max_fds_listen : ℕ
max_fds_listen = 20

-- pollfds[k]
unfoldable pub load_pollfd : ℕ → Cmd Epollfd
load_pollfd k = do p ← get_process; or_fault (get_elem? p.pollfds k)

unfoldable pub update_pollfd : ℕ → (Epollfd → Epollfd) → Cmd (Unit {0})
update_pollfd k f = do
  p ← get_process
  e ← or_fault (get_elem? p.pollfds k)
  put_process (record p { pollfds = set p.pollfds k (f e) })

-- The loop of `getPollfdByNum`.
unfoldable pub find_pollfd : ℕ → List Epollfd → Option ℕ
find_pollfd num [] = none
find_pollfd num (e ∷ es) =
    if e.active && e.num == num
    then some 0
    else elim (find_pollfd num es) [ none ↦ none | some k ↦ some (suc k) ]

unfoldable pub get_pollfd_by_num : ℕ → Cmd (Option ℕ)
get_pollfd_by_num num = do p ← get_process; pure (find_pollfd num p.pollfds)

-- The loop of `getEmptyPollfd`.
unfoldable pub find_empty_pollfd : List Epollfd → Option ℕ
find_empty_pollfd [] = none
find_empty_pollfd (e ∷ es) =
    if not e.active
    then some 0
    else elim (find_empty_pollfd es) [ none ↦ none | some k ↦ some (suc k) ]

-- The entry is active from then on.
unfoldable pub take_pollfd : Option ℕ → Cmd (Option ℕ)
take_pollfd none = pure none
take_pollfd (some k) = do update_pollfd k (λ e. record e { active = true }); pure (some k)

unfoldable pub get_empty_pollfd : Cmd (Option ℕ)
unfolding take_pollfd
get_empty_pollfd = do p ← get_process; take_pollfd (find_empty_pollfd p.pollfds)

abbrev pub delete_listener : EventListenFd → EventListenFd
delete_listener l = record l { active = false }

unfoldable pub delete_pollfd : ℕ → Cmd (Unit {0})
delete_pollfd k =
    update_pollfd k (λ e. record e { lfds = map delete_listener e.lfds; active = false })

unfoldable pub handle_epfd_close : ℕ → Cmd ℤ
handle_epfd_close epfd = do
  f ← get_pollfd_by_num epfd
  elim f [
    | none ↦ fail ebadf
    | some k ↦ (do
      update_pollfd k (λ e. record e { active = false; lfds = map delete_listener e.lfds })
      pure (pos 0))
  ]

-- randomPollFd is never given back.
unfoldable pub epoll_create1 : ℕ → Cmd ℤ
epoll_create1 flags = do
  p ← get_process
  if leb system_max_fd p.random_poll_fd then fail enfile else (do
    f ← get_empty_pollfd
    elim f [
      | none ↦ fail enomem
      | some k ↦ (do
        q ← get_process
        put_process (record q { random_poll_fd = q.random_poll_fd + 1 })
        update_pollfd k (λ e. record e { num = q.random_poll_fd; all_flags = flags })
        pure (pos q.random_poll_fd))
    ])
