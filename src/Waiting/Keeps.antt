-- ===== src/Waiting/Keeps.antt =====
-- `epoll_wait` keeps both tables of descriptors, also where it opens a descriptor that connects.
use shmsock.Base.{ℕ, zero, suc, not, List, [], ◌∷◌, none, some, ltb, length}
use shmsock.Llist.{Ptr}
use shmsock.Machine.{ℤ, Fd, EpollEvent, EventListenFd, External, Kernel}
use shmsock.Machine.Cmd.{Cmd, Schedule}
use shmsock.Fds.Keeps.{
  Keeps, Keeps-bind, Keeps-if, Keeps-pure, Keeps-asleep, keeps_rules, state_rules,
}
use shmsock.Pollfds.Keeps.{Keeps-load_pollfd, Keeps-get_pollfd_by_num}
use shmsock.Listeners.Keeps.{Keeps-handle_fd_close, Keeps-set_levels}
use shmsock.Connection.Keeps.{Keeps-search_on_any_iface, Keeps-check_if_accepted}
use shmsock.Connection.{epollin}
use shmsock.Socket.Keeps.{Mild, Keeps-sleep}
use shmsock.Socket.Keeps.Connect.{Keeps-connect_ex}
use shmsock.Pollfds.{max_fds_listen}
use shmsock.Waiting.{
  check_level, check_edge, check_and_set_events, set_input, clear_input, check_listen,
  check_connecting, visit_listener, scan, real_events, timed_out, pwait_round, pwait_wait,
  epoll_pwait, epoll_wait,
}

Keeps-set_input : (p : Ptr) → Keeps (set_input p)
unfolding set_input
Keeps-set_input p = search state_rules depth 20

Keeps-clear_input : (p : Ptr) → Keeps (clear_input p)
unfolding clear_input
Keeps-clear_input p = search state_rules depth 20

module _ (ext : External) where
  ruleset waiting_rules = (
    state_rules, Keeps-set_input, Keeps-clear_input, Keeps-set_levels, Keeps-handle_fd_close,
    Keeps-load_pollfd, Keeps-search_on_any_iface, Keeps-check_if_accepted,
  )

  Keeps-check_level :
      (l : EventListenFd) (event : ℕ) (acc : List EpollEvent) → Keeps (check_level ext l event acc)
  unfolding check_level
  Keeps-check_level l event acc = search waiting_rules depth 30

  Keeps-check_edge :
      (l : EventListenFd) (event : ℕ) (acc : List EpollEvent) → Keeps (check_edge ext l event acc)
  unfolding check_edge
  Keeps-check_edge l event acc = search waiting_rules depth 30

  Keeps-check :
      (l : EventListenFd) (event : ℕ) (acc : List EpollEvent)
      → Keeps (check_and_set_events ext l event acc)
  unfolding check_and_set_events
  Keeps-check l event acc =
      Keeps-if l.is_level_triggered _ _ (Keeps-check_level l event acc)
        (Keeps-check_edge l event acc)

  Keeps-check_listen :
      (l : EventListenFd) (d : Fd) (acc : List EpollEvent) → Keeps (check_listen ext l d acc)
  unfolding check_listen
  Keeps-check_listen l d acc = search (waiting_rules, Keeps-check) depth 30

  Keeps-check_connecting :
      (l : EventListenFd) (d : Fd) (acc : List EpollEvent) → Keeps (check_connecting ext l d acc)
  unfolding check_connecting
  Keeps-check_connecting l d acc = Keeps-bind _ _ (Keeps-check_if_accepted ext d.conn) λ accepted.
      Keeps-if (not accepted) _ _ (search waiting_rules depth 20) (
        Keeps-bind _ _ (Keeps-set_input d.conn) λ u.
          Keeps-bind _ _ (Keeps-check l epollin acc)
            λ evs. Keeps-bind _ _ (Keeps-connect_ex ext d.num none [] tt) λ r. Keeps-pure evs)

  Keeps-visit_listener : (k j : ℕ) (acc : List EpollEvent) → Keeps (visit_listener ext k j acc)
  unfolding visit_listener
  Keeps-visit_listener k j acc =
      search (waiting_rules, Keeps-check, Keeps-check_listen, Keeps-check_connecting) depth 40

  Keeps-scan : (k max n j : ℕ) (acc : List EpollEvent) → Keeps (scan ext k max n j acc)
  unfolding scan
  Keeps-scan k max zero j acc = Keeps-pure acc
  Keeps-scan k max (suc n) j acc =
      Keeps-if (ltb (length acc) max) _ _
        (Keeps-bind _ _ (Keeps-visit_listener k j acc) λ more. Keeps-scan k max n (suc j) more)
        (Keeps-pure acc)

  Keeps-real_events :
      (kernel : Kernel) (k max elapsed : ℕ) (acc : List EpollEvent)
      → Keeps (real_events ext kernel k max elapsed acc)
  unfolding real_events
  Keeps-real_events kernel k max elapsed acc = search waiting_rules depth 30

  module _ (kernel : Kernel) (k max : ℕ) (timeout : ℤ) where
    Keeps-pwait_round :
        (elapsed : ℕ) (sleep : Cmd (ℤ × List EpollEvent))
        → Keeps sleep
        → Keeps (pwait_round ext kernel k max timeout elapsed sleep)
    unfolding pwait_round
    Keeps-pwait_round elapsed sleep ks =
        Keeps-bind _ _ (Keeps-scan k max max_fds_listen 0 []) λ own.
          Keeps-bind _ _ (Keeps-real_events kernel k max elapsed own) λ evs.
            Keeps-if (ltb 0 (length evs)) _ _ (Keeps-pure _)
              (Keeps-if (timed_out timeout elapsed) _ _ (Keeps-pure _) ks)

    Keeps-pwait_wait :
        (schedule : Schedule) (elapsed : ℕ)
        → Mild schedule
        → Keeps (pwait_wait ext kernel schedule k max timeout elapsed)
    unfolding pwait_wait
    Keeps-pwait_wait [] elapsed m = Keeps-pwait_round elapsed _ Keeps-asleep
    Keeps-pwait_wait (env ∷ rest) elapsed m =
        Keeps-pwait_round elapsed _
          (Keeps-sleep env _ m.0 (Keeps-pwait_wait rest (suc elapsed) m.1))

  pub Keeps-epoll_wait :
      (kernel : Kernel) (epfd max : ℕ) (timeout : ℤ) (schedule : Schedule)
      → Mild schedule
      → Keeps (epoll_wait ext kernel epfd max timeout schedule)
  unfolding epoll_wait epoll_pwait
  Keeps-epoll_wait kernel epfd max timeout schedule m =
      Keeps-bind _ _ (Keeps-get_pollfd_by_num epfd) (elim [
        | none ↦ search keeps_rules depth 12
        | some k ↦ Keeps-pwait_wait kernel k max timeout schedule 0 m
      ])
