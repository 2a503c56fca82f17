-- ===== src/Poll/Leak.antt =====
-- A call of `poll` that fails half-way.
use shmsock.Base.{
  ℕ, ◌≤◌, ◌≡◌, refl, ap, subst, ◌∙◌, false, List, [], ◌∷◌, none, some, arith, ltb, All, nonempty,
}
use shmsock.Machine.{ℤ, failure, EpollEvent, ebadf, eexist, Errno, Epollfd, State, External, Kernel}
use shmsock.Machine.Cmd.{ok, Schedule}
use shmsock.Fds.{find_fd, fd_start, get_fd_by_num, fail}
use shmsock.Pollfds.{find_pollfd, get_pollfd_by_num}
use shmsock.Listeners.{epoll_ctl, ctl_add}
use shmsock.Listeners.Lifecycle.{with_lfds, again}
use shmsock.Poll.{PollFd, poll, poll_add, poll_event}
use shmsock.Poll.Slots.{IsOff, listener, add_slot, add_again, found_slot}
use shmsock.Poll.Answers.{PollIdle, descriptor_kept}

-- The state with another `errno`.
abbrev pub with_errno : State → Errno → State
with_errno s e = record s { process = record s.process { errno = e } }

unknown_fails :
    (kernel : Kernel) (s : State) (epfd k fd : ℕ) (ev : EpollEvent)
    → find_pollfd epfd s.process.pollfds ≡ some k
    → fd_start ≤ fd
    → find_fd fd s.process.fds ≡ none
    → epoll_ctl kernel epfd ctl_add fd (some ev) s ≡ fail ebadf s
unfolding epoll_ctl get_pollfd_by_num get_fd_by_num
unknown_fails kernel s epfd k fd ev found own unknown =
    let e1 : ltb fd fd_start ≡ false = ground (arith, own) in simp (found, unknown, e1)

module _ (ext : External) (kernel : Kernel) (epfd k : ℕ) (e : Epollfd) (s : State)
    (h : PollIdle epfd k e s) (p q : PollFd) (i : ℕ) (own : fd_start ≤ p.fd)
    (found : find_fd p.fd s.process.fds ≡ some i) (own_q : fd_start ≤ q.fd)
    (unknown : find_fd q.fd s.process.fds ≡ none) where
  -- `poll` with its epoll descriptor idle, on a descriptor in use and then one that is not: it
  -- fails with EBADF, and the listener for the first stays. From then on `poll` fails with EEXIST
  -- for this descriptor first in the array, whatever stands behind it and however long it may
  -- wait, and leaves everything but `errno` as it was, so that it fails again.
  pub poll_leak :
      (rest others : List PollFd) (p' : PollFd) (timeout timeout' : ℤ)
      (schedule schedule' : Schedule)
      → p'.fd ≡ p.fd
      → (u : State) × (poll ext kernel (p ∷ q ∷ rest) timeout schedule s
          ≡ ok (failure, p ∷ q ∷ rest) (with_errno u ebadf))
        × ((errno : Errno)
            → poll ext kernel (p' ∷ others) timeout' schedule' (with_errno u errno)
              ≡ ok (failure, p' ∷ others) (with_errno u eexist))
  unfolding poll poll_add
  poll_leak rest others p' timeout timeout' schedule schedule' same =
      let (x, off, layout) = nonempty e.lfds (λ z. omega (arith, z, h.size)) in
      let free = subst (All IsOff) layout h.free in
      let l = listener i (poll_event 0 p) in
      let u = with_lfds s k e (l ∷ off) in
      let found_u = found_slot s k e epfd h.at_k h.found (l ∷ off) in
      let first =
        add_slot s k e h.at_k epfd p.fd i h.found found own kernel [] x off (poll_event 0 p) layout
          tt free.0 free.1 tt in
      let second = unknown_fails kernel u epfd k q.fd (poll_event 1 q) found_u own_q unknown in
      let found' : find_fd p'.fd s.process.fds ≡ some i =
        ap (λ n. find_fd n s.process.fds) same ∙ found in
      let own' : fd_start ≤ p'.fd = omega (arith, own, same) in
      (
        u,
        simp (descriptor_kept s epfd h.kept, first, second),
        λ errno.
            let v = with_errno u errno in
            let third =
              add_again v k (record e { lfds = l ∷ off }) (again s k e h.at_k 0 _) epfd p'.fd i
                found_u found' own' kernel l off (poll_event 0 p') refl refl refl in
            simp (descriptor_kept v epfd h.kept, third),
      )
