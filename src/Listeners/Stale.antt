-- ===== src/Listeners/Stale.antt =====
-- A listener that outlives its descriptor, and the next descriptor in the same entry of the table.
use shmsock.Base.{
  ℕ, ◌<◌, ◌≡◌, refl, sym, ◌∙◌, subst, ◌≢◌, true, false, List, some, arith, ◌==◌, set, get_elem?,
  length, ltb, bit_and, All, All-map, get_elem?-set_ne,
}
use shmsock.Machine.{pos, eexist, EpollEvent, EventListenFd, Epollfd, Fd, State, Kernel}
use shmsock.Machine.Cmd.{ok}
use shmsock.Fds.{find_empty, fd_start, pollfd_start, get_fd_by_num, fail}
use shmsock.Fds.Table.{find_empty-some}
use shmsock.Fds.Keeps.{Good}
use shmsock.Pollfds.{find_pollfd, load_pollfd, get_pollfd_by_num}
use shmsock.Listeners.{get_listener_for_fd, add_listener, epoll_ctl, ctl_add}
use shmsock.Listeners.Lifecycle.{Other, loop_hit}
use shmsock.Socket.Setup.{socket, af_inet, sock_stream, type_mask}
use shmsock.Socket.Setup.Serving.{socket_run, found_fd, at_fd, with_fd, created}

-- A listener that is not active, or one for another entry, with another number.
abbrev pub Elsewhere : List Fd → ℕ → ℕ → EventListenFd → Type 0
Elsewhere ds i num l =
    l.active ≡ true
    → (i ≢ l.fd) × ((d : Fd) × (get_elem? ds l.fd ≡ some d) × ((d.num == num) ≡ false))

module _ (s : State) (k : ℕ) (e : Epollfd) (at_k : get_elem? s.process.pollfds k ≡ some e)
    (epfd i j : ℕ) (found_e : find_pollfd epfd s.process.pollfds ≡ some k) (ls : List EventListenFd)
    (x : EventListenFd) (lfds : e.lfds ≡ set ls j x) (inside : j < length ls)
    (active : x.active ≡ true) (stale : x.fd ≡ i) (good : Good s)
    (free : find_empty s.process.fds ≡ some i) (left : s.process.current_max_fd < pollfd_start)
    (others : All (Elsewhere s.process.fds i s.process.current_max_fd) ls) where
  -- An epoll descriptor still has an active listener for an entry of the descriptor table that is
  -- free again, as `close` leaves it, and that is the first free one. Then a new socket gets this
  -- entry and with it the listener: adding the new descriptor, which nobody has added before, fails
  -- with EEXIST.
  pub stale_listener :
      (type protocol : ℕ) (kernel : Kernel) (ev : EpollEvent)
      → bit_and type type_mask ≡ sock_stream
      → (t : State) × (socket af_inet type protocol s ≡ ok (pos s.process.current_max_fd) t)
        × (epoll_ctl kernel epfd ctl_add s.process.current_max_fd (some ev) t ≡ fail eexist t)
  unfolding epoll_ctl get_pollfd_by_num get_fd_by_num add_listener get_listener_for_fd load_pollfd
  stale_listener type protocol kernel ev stream =
      let num = s.process.current_max_fd in
      let (y, at_y, off) = find_empty-some s.process.fds i free in
      let d = created s type protocol i good stream left free y in
      let t = with_fd s type protocol i good stream left free d in
      let at = at_fd s type protocol i good stream left free d in
      let found = found_fd s type protocol i good stream left free d refl refl in
      let e1 : ltb num fd_start ≡ false = ground (arith, good.start) in
      let absent : All (Other t.process.fds num) ls =
        All-map _ _
          (λ l h on.
            let (ne, (z, at_z, other)) = h on in
            (z, get_elem?-set_ne s.process.fds i l.fd d ne ∙ at_z, other))
          ls others in
      let hit =
        loop_hit t num x d active (subst (λ q. get_elem? t.process.fds q ≡ some d) (sym stale) at)
          refl refl ls j 0 j absent inside (omega arith) in
      (
        t,
        socket_run s type protocol i good stream left free y at_y,
        simp (found_e, found, e1, at_k, lfds, hit),
      )
