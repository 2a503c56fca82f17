-- ===== src/Poll/Slots.antt =====
-- `epoll_ctl` on a table of listeners whose active ones stand together: adding takes the slot
-- behind them, and removing the first gives its slot back.
use shmsock.Base.{
  ℕ, suc, ◌+◌, ◌≤◌, ◌≡◌, refl, sym, ap, subst, ◌∙◌, true, false, List, [], ◌∷◌, ◌++◌, none, some,
  arith, ◌==◌, set, get_elem?, length, ltb, All, All-append, All-map,
}
use shmsock.Machine.{pos, eexist, EpollEvent, EventListenFd, Epollfd, Fd, State, Kernel}
use shmsock.Machine.Cmd.{ok, load_fd}
use shmsock.Fds.{find_fd, fd_start, get_fd_by_num, fail}
use shmsock.Fds.Table.{find_fd-some}
use shmsock.Pollfds.{find_pollfd, load_pollfd, get_pollfd_by_num, delete_listener}
use shmsock.Pollfds.Table.{find_pollfd-some}
use shmsock.Listeners.{
  listener_loop, get_listener_for_fd, find_empty_listener, get_empty_listener, take_listener,
  update_listener, with_event, add_listener, remove_listener, epoll_ctl, ctl_add, ctl_del,
}
use shmsock.Listeners.Lifecycle.{Other, with_lfds, loop_none, update_first, update_next}

abbrev pub IsOn : EventListenFd → Type 0
IsOn l = l.active ≡ true

abbrev pub IsOff : EventListenFd → Type 0
IsOff l = l.active ≡ false

module _ {ℓ} {A : Type ℓ} where
  pub get_elem?-middle :
      (xs : List A) (y : A) (ys : List A) → get_elem? (xs ++ y ∷ ys) (length xs) ≡ some y
  get_elem?-middle [] y ys = refl
  get_elem?-middle (x ∷ xs) y ys = get_elem?-middle xs y ys

  pub set-middle :
      (xs : List A) (y z : A) (ys : List A) → set (xs ++ y ∷ ys) (length xs) z ≡ xs ++ z ∷ ys
  set-middle [] y z ys = refl
  set-middle (x ∷ xs) y z ys = ap (◌∷◌ x) (set-middle xs y z ys)

find_empty_middle :
    (on : List EventListenFd) (x : EventListenFd) (off : List EventListenFd)
    → All IsOn on
    → IsOff x
    → find_empty_listener (on ++ x ∷ off) ≡ some (length on)
unfolding find_empty_listener
find_empty_middle [] x off h free = simp free
find_empty_middle (l ∷ on) x off h free = simp (h.0, find_empty_middle on x off h.1 free)

-- The listener that `epoll_ctl` makes for the entry `i`.
abbrev pub listener : ℕ → EpollEvent → EventListenFd
listener i ev =
    with_event ev (record { active = true; is_level_triggered = true; event = ev; fd = i })

module _ (s : State) (num : ℕ) (l : EventListenFd) (d : Fd) (live : IsOn l)
    (at : get_elem? s.process.fds l.fd ≡ some d) (own : d.num ≡ num) (used : d.active ≡ true) where
  first_on :
      (gone on : List EventListenFd) (m n : ℕ)
      → All IsOff gone
      → n ≡ m + length gone
      → listener_loop num (gone ++ l ∷ on) m s ≡ ok (some (n, true)) s
  unfolding listener_loop load_fd
  first_on [] on m n offs sum =
      let e1 : (d.num == num) ≡ true = ground (arith, own) in
      let e2 : n ≡ m = omega (arith, sum) in simp (live, at, e1, used, e2)
  first_on (x ∷ gone) on m n offs sum =
      simp offs.0 (first_on gone on (suc m) n offs.1 (omega (arith, sum)))

-- The epoll descriptor is still found when its listeners change.
pub found_slot :
    (s : State) (k : ℕ) (e : Epollfd) (epfd : ℕ)
    → get_elem? s.process.pollfds k ≡ some e
    → find_pollfd epfd s.process.pollfds ≡ some k
    → (ls : List EventListenFd) → find_pollfd epfd (with_lfds s k e ls).process.pollfds ≡ some k
found_slot s k e epfd at_k found ls =
    let (x, at_x, stays) = find_pollfd-some epfd s.process.pollfds k found in
    stays (record e { lfds = ls }) (ground (arith, at_k, at_x)) (ground (arith, at_k, at_x))

module _ (s : State) (k : ℕ) (e : Epollfd) (at_k : get_elem? s.process.pollfds k ≡ some e)
    (epfd sockfd i : ℕ) (found_e : find_pollfd epfd s.process.pollfds ≡ some k)
    (found_d : find_fd sockfd s.process.fds ≡ some i) (own : fd_start ≤ sockfd)
    (kernel : Kernel) where
  update_slot :
      (before : List EventListenFd) (x : EventListenFd) (after : List EventListenFd)
      (f : EventListenFd → EventListenFd)
      → e.lfds ≡ before ++ x ∷ after
      → update_listener k (length before) f s ≡ ok tt (with_lfds s k e (before ++ f x ∷ after))
  update_slot before x after f layout =
      update_first s k e at_k (length before) x f
        (ap (λ ls. get_elem? ls (length before)) layout ∙ get_elem?-middle before x after)
      ∙ ap (λ ls. ok tt (with_lfds s k e ls))
          (ap (λ ls. set ls (length before) (f x)) layout ∙ set-middle before x (f x) after)

  update_again :
      (before : List EventListenFd) (x : EventListenFd) (after : List EventListenFd)
      (f : EventListenFd → EventListenFd)
      → update_listener k (length before) f (with_lfds s k e (before ++ x ∷ after))
        ≡ ok tt (with_lfds s k e (before ++ f x ∷ after))
  update_again before x after f =
      update_next s k e at_k (length before) (before ++ x ∷ after) x f
        (get_elem?-middle before x after)
      ∙ ap (λ ls. ok tt (with_lfds s k e ls)) (set-middle before x (f x) after)

  no-Other : (off : List EventListenFd) → All IsOff off → All (Other s.process.fds sockfd) off
  no-Other off frees = All-map IsOff (Other s.process.fds sockfd) (λ l free on. cc) off frees

  -- The listeners that stand before the slot are for other descriptors.
  pub add_slot :
      (on : List EventListenFd) (x : EventListenFd) (off : List EventListenFd) (ev : EpollEvent)
      → e.lfds ≡ on ++ x ∷ off
      → All IsOn on
      → IsOff x
      → All IsOff off
      → All (Other s.process.fds sockfd) on
      → epoll_ctl kernel epfd ctl_add sockfd (some ev) s
        ≡ ok (pos 0) (with_lfds s k e (on ++ listener i ev ∷ off))
  unfolding epoll_ctl get_pollfd_by_num get_fd_by_num add_listener get_listener_for_fd
      get_empty_listener take_listener load_pollfd
  add_slot on x off ev layout actives free frees others =
      let e1 : ltb sockfd fd_start ≡ false = ground (arith, own) in
      let absent : All (Other s.process.fds sockfd) e.lfds =
        subst (All (Other s.process.fds sockfd)) (sym layout) (
          All-append (Other s.process.fds sockfd) on (x ∷ off) others
            (no-Other (x ∷ off) (free, frees))) in
      let slot : find_empty_listener e.lfds ≡ some (length on) =
        ap find_empty_listener layout ∙ find_empty_middle on x off actives free in
      simp (
        found_e,
        found_d,
        e1,
        at_k,
        loop_none s sockfd e.lfds 0 absent,
        slot,
        update_slot on x off _ layout,
        update_again on,
      )

  pub del_slot :
      (gone : List EventListenFd) (l : EventListenFd) (on : List EventListenFd)
      → e.lfds ≡ gone ++ l ∷ on
      → All IsOff gone
      → IsOn l
      → l.fd ≡ i
      → epoll_ctl kernel epfd ctl_del sockfd none s
        ≡ ok (pos 0) (with_lfds s k e (gone ++ delete_listener l ∷ on))
  unfolding epoll_ctl get_pollfd_by_num get_fd_by_num remove_listener get_listener_for_fd
      load_pollfd
  del_slot gone l on layout offs live at =
      let e1 : ltb sockfd fd_start ≡ false = ground (arith, own) in
      let (d, at_d, used, num) = find_fd-some sockfd s.process.fds i found_d in
      let at_l : get_elem? s.process.fds l.fd ≡ some d = ap (get_elem? s.process.fds) at ∙ at_d in
      let hit : listener_loop sockfd e.lfds 0 s ≡ ok (some (length gone, true)) s =
        ap (λ ls. listener_loop sockfd ls 0 s) layout
        ∙ first_on s sockfd l d live at_l num used gone on 0 (length gone) offs (omega arith) in
      simp (found_e, found_d, e1, at_k, hit, update_slot gone l on _ layout)

  -- A descriptor that has a listener already.
  pub add_again :
      (l : EventListenFd) (after : List EventListenFd) (ev : EpollEvent)
      → e.lfds ≡ l ∷ after
      → IsOn l
      → l.fd ≡ i
      → epoll_ctl kernel epfd ctl_add sockfd (some ev) s ≡ fail eexist s
  unfolding epoll_ctl get_pollfd_by_num get_fd_by_num add_listener get_listener_for_fd load_pollfd
  add_again l after ev layout live at =
      let e1 : ltb sockfd fd_start ≡ false = ground (arith, own) in
      let (d, at_d, used, num) = find_fd-some sockfd s.process.fds i found_d in
      let at_l : get_elem? s.process.fds l.fd ≡ some d = ap (get_elem? s.process.fds) at ∙ at_d in
      let hit : listener_loop sockfd e.lfds 0 s ≡ ok (some (0, true)) s =
        ap (λ ls. listener_loop sockfd ls 0 s) layout
        ∙ first_on s sockfd l d live at_l num used [] after 0 0 tt (omega arith) in
      simp (found_e, found_d, e1, at_k, hit)
