-- ===== src/Poll/Keeps.antt =====
-- `poll` and `ppoll` keep both tables of descriptors.
use shmsock.Base.{ℕ, suc, not, map, length, List, [], ◌∷◌, Option, none, some}
use shmsock.Machine.{ℤ, pos, negsuc, External, Kernel}
use shmsock.Machine.Cmd.{Schedule}
use shmsock.Fds.Keeps.{
  Keeps, Keeps-bind, Keeps-if, Keeps-pure, Keeps-or_fault, Keeps-get_process, Keeps-option,
}
use shmsock.Pollfds.Keeps.{Keeps-epoll_create1}
use shmsock.Listeners.{ctl_add, ctl_del}
use shmsock.Listeners.Keeps.{Keeps-epoll_ctl}
use shmsock.Socket.Keeps.{Mild}
use shmsock.Waiting.{is_failure}
use shmsock.Waiting.Keeps.{Keeps-epoll_wait}
use shmsock.Poll.{
  PollFd, Timespec, poll_event, poll_descriptor, poll_add, poll_del, set_revents, reset, poll,
  ppoll,
}

Keeps-poll_descriptor : Keeps poll_descriptor
unfolding poll_descriptor
Keeps-poll_descriptor = Keeps-bind _ _ Keeps-get_process λ p.
    Keeps-option p.poll_epollfd _ _
      (Keeps-bind _ _ (Keeps-epoll_create1 0)
        (elim [ negsuc n ↦ Keeps-pure none | pos n ↦ record { at = λ s h. h } ]))
      (λ n. Keeps-pure (some n))

module _ (kernel : Kernel) (epfd : ℕ) where
  Keeps-poll_add : (i : ℕ) (ps : List PollFd) → Keeps (poll_add kernel epfd i ps)
  unfolding poll_add
  Keeps-poll_add i [] = Keeps-pure _
  Keeps-poll_add i (p ∷ ps) =
      Keeps-bind _ _ (Keeps-epoll_ctl kernel epfd ctl_add p.fd (some (poll_event i p)))
        λ r. Keeps-if (is_failure r) _ _ (Keeps-pure _) (Keeps-poll_add (suc i) ps)

  Keeps-poll_del : (ps : List PollFd) → Keeps (poll_del kernel epfd ps)
  unfolding poll_del
  Keeps-poll_del [] = Keeps-pure _
  Keeps-poll_del (p ∷ ps) =
      Keeps-bind _ _ (Keeps-epoll_ctl kernel epfd ctl_del p.fd none)
        λ r. Keeps-if (is_failure r) _ _ (Keeps-pure _) (Keeps-poll_del ps)

module _ (ext : External) (kernel : Kernel) where
  pub Keeps-poll :
      (fds : List PollFd) (timeout : ℤ) (schedule : Schedule)
      → Mild schedule
      → Keeps (poll ext kernel fds timeout schedule)
  unfolding poll
  Keeps-poll fds timeout schedule m = Keeps-bind _ _ Keeps-poll_descriptor (elim [
    | none ↦ Keeps-pure _
    | some epfd ↦ Keeps-bind _ _ (Keeps-poll_add kernel epfd 0 fds) λ added.
        Keeps-if (not added) _ _ (Keeps-pure _) (
          Keeps-bind _ _ (Keeps-epoll_wait ext kernel epfd (length fds) timeout schedule m) λ r.
            Keeps-bind _ _ (Keeps-or_fault (set_revents r.1 (map reset fds))) λ ps.
              Keeps-bind _ _ (Keeps-poll_del kernel epfd fds)
                λ deleted. Keeps-if (not deleted) _ _ (Keeps-pure _) (Keeps-pure _))
  ])

  pub Keeps-ppoll :
      (fds : List PollFd) (tmo_p : Option Timespec) (schedule : Schedule)
      → Mild schedule
      → Keeps (ppoll ext kernel fds tmo_p schedule)
  unfolding ppoll
  Keeps-ppoll fds tmo_p schedule m = Keeps-poll fds _ schedule m
