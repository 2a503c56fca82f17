-- ===== src/Listeners/Lifecycle.antt =====
-- `epoll_ctl`: a listener is added, changed and removed.
use shmsock.Base.{
  ℕ, zero, suc, ◌+◌, ◌<◌, ◌≤◌, ◌≡◌, refl, inl, inr, true, false, List, [], ◌∷◌, none, some, arith,
  ◌==◌, set, get_elem?, length, ltb, All, All-set, get_elem?-set_self, set-set, lt_of_get_elem?,
  Bool-cases,
}
use shmsock.Machine.{pos, eexist, enoent, EpollEvent, EventListenFd, Epollfd, Fd, State, Kernel}
use shmsock.Machine.Cmd.{ok, load_fd}
use shmsock.Fds.{find_fd, fd_start, get_fd_by_num, fail}
use shmsock.Fds.Table.{find_fd-some}
use shmsock.Pollfds.Table.{find_pollfd-some}
use shmsock.Pollfds.{find_pollfd, load_pollfd, update_pollfd, get_pollfd_by_num, delete_listener}
use shmsock.Listeners.{
  listener_loop, get_listener_for_fd, find_empty_listener, get_empty_listener, take_listener,
  update_listener, with_event, add_listener, modify_listener, remove_listener, epoll_ctl, ctl_add,
  ctl_mod, ctl_del,
}

-- A listener that is not active, or one for an entry of the table with another number.
abbrev pub Other : List Fd → ℕ → EventListenFd → Type 0
Other ds num l =
    l.active ≡ true → (d : Fd) × (get_elem? ds l.fd ≡ some d) × ((d.num == num) ≡ false)

module _ (s : State) (num : ℕ) where
  pub loop_none :
      (ls : List EventListenFd) (m : ℕ)
      → All (Other s.process.fds num) ls
      → listener_loop num ls m s ≡ ok none s
  unfolding listener_loop load_fd
  loop_none [] m k = refl
  loop_none (l ∷ ls) m k =
      let ih = loop_none ls (suc m) k.1 in
      elim (Bool-cases l.active) [
        | inl t ↦ let (d, at, other) = k.0 t in simp (t, at, other) ih
        | inr t ↦ simp t ih
      ]

  module _ (x : EventListenFd) (d : Fd) (on : x.active ≡ true)
      (at : get_elem? s.process.fds x.fd ≡ some d) (own : d.num ≡ num)
      (live : d.active ≡ true) where
    pub loop_hit :
        (ls : List EventListenFd) (j m k : ℕ)
        → All (Other s.process.fds num) ls
        → j < length ls
        → k ≡ m + j
        → listener_loop num (set ls j x) m s ≡ ok (some (k, true)) s
    unfolding listener_loop load_fd
    loop_hit [] j m k others h e = absurd (omega (arith, h))
    loop_hit (l ∷ ls) zero m k others h e =
        let e1 : (d.num == num) ≡ true = ground (arith, own) in
        let e2 : k ≡ m = omega (arith, e) in simp (on, at, e1, live, e2)
    loop_hit (l ∷ ls) (suc j) m k others h e =
        let ih = loop_hit ls j (suc m) k others.1 (omega (arith, h)) (omega (arith, e)) in
        elim (Bool-cases l.active) [
          | inl t ↦ let (y, at_y, other) = others.0 t in simp (t, at_y, other) ih
          | inr t ↦ simp t ih
        ]

find_empty_listener_lem :
    (ls : List EventListenFd) (j : ℕ)
    → find_empty_listener ls ≡ some j
    → (l : EventListenFd) × (get_elem? ls j ≡ some l)
unfolding find_empty_listener
find_empty_listener_lem [] j e = cc
find_empty_listener_lem (l ∷ ls) zero e = (l, refl)
find_empty_listener_lem (l ∷ ls) (suc j) e = find_empty_listener_lem ls j (ground arith)

-- The state with these listeners of the epoll descriptor `e` at `k`.
abbrev pub with_lfds : State → ℕ → Epollfd → List EventListenFd → State
with_lfds s k e ls = record s {
  process = record s.process { pollfds = set s.process.pollfds k (record e { lfds = ls }) };
}

module _ (s : State) (k : ℕ) (e : Epollfd) (at_k : get_elem? s.process.pollfds k ≡ some e)
    (j : ℕ) where
  pub again : (x : Epollfd) → get_elem? (set s.process.pollfds k x) k ≡ some x
  again x = get_elem?-set_self s.process.pollfds k x (lt_of_get_elem? s.process.pollfds k at_k)

  pub update_first :
      (l : EventListenFd) (f : EventListenFd → EventListenFd)
      → get_elem? e.lfds j ≡ some l
      → update_listener k j f s ≡ ok tt (with_lfds s k e (set e.lfds j (f l)))
  unfolding update_listener load_pollfd update_pollfd
  update_first l f at = simp (at_k, at)

  pub update_next :
      (ls : List EventListenFd) (l : EventListenFd) (f : EventListenFd → EventListenFd)
      → get_elem? ls j ≡ some l
      → update_listener k j f (with_lfds s k e ls) ≡ ok tt (with_lfds s k e (set ls j (f l)))
  unfolding update_listener load_pollfd update_pollfd
  update_next ls l f at = simp (again, at, set-set s.process.pollfds k)

  module _ (epfd sockfd i : ℕ) (found_e : find_pollfd epfd s.process.pollfds ≡ some k)
      (found_d : find_fd sockfd s.process.fds ≡ some i) (own : fd_start ≤ sockfd)
      (absent : All (Other s.process.fds sockfd) e.lfds)
      (free : find_empty_listener e.lfds ≡ some j) where
    still_found :
        (ls : List EventListenFd)
        → find_pollfd epfd (set s.process.pollfds k (record e { lfds = ls })) ≡ some k
    still_found ls =
        let (x, at_x, stays) = find_pollfd-some epfd s.process.pollfds k found_e in
        stays (record e { lfds = ls }) (ground (arith, at_k, at_x)) (ground (arith, at_k, at_x))

    -- The listener for the descriptor, over what the slot held.
    abbrev listener : EventListenFd → EpollEvent → EventListenFd
    listener l ev = with_event ev (record l { active = true; fd = i })

    at_slot : (x : EventListenFd) → get_elem? (set e.lfds j x) j ≡ some x
    at_slot x =
        let (l, at) = find_empty_listener_lem e.lfds j free in
        get_elem?-set_self e.lfds j x (lt_of_get_elem? e.lfds j at)

    get_start : get_listener_for_fd k sockfd s ≡ ok none s
    unfolding get_listener_for_fd load_pollfd
    get_start = simp (at_k, loop_none s sockfd e.lfds 0 absent)

    get_empty :
        (l : EventListenFd)
        → get_elem? e.lfds j ≡ some l
        → get_empty_listener k s
          ≡ ok (some j) (with_lfds s k e (set e.lfds j (record l { active = true })))
    unfolding get_empty_listener load_pollfd take_listener
    get_empty l at = rw (at_k, free, update_first l (λ x. record x { active = true }) at)

    get_hit :
        (l : EventListenFd) (ev : EpollEvent)
        → let t = with_lfds s k e (set e.lfds j (listener l ev)) in
          get_listener_for_fd k sockfd t ≡ ok (some j) t
    unfolding get_listener_for_fd load_pollfd
    get_hit l ev =
        let t = with_lfds s k e (set e.lfds j (listener l ev)) in
        let (d, at, on, num) = find_fd-some sockfd s.process.fds i found_d in
        let (y, at_y) = find_empty_listener_lem e.lfds j free in
        simp (
          again,
          loop_hit t sockfd (listener l ev) d refl at num on e.lfds j 0 j absent
              (lt_of_get_elem? e.lfds j at_y) (omega arith),
        )

    get_gone :
        (x : EventListenFd)
        → x.active ≡ false
        → let t = with_lfds s k e (set e.lfds j x) in get_listener_for_fd k sockfd t ≡ ok none t
    unfolding get_listener_for_fd load_pollfd
    get_gone x off =
        let t = with_lfds s k e (set e.lfds j x) in
        let others : All (Other s.process.fds sockfd) (set e.lfds j x) =
          All-set (Other s.process.fds sockfd) x (λ on. cc) e.lfds j absent in
        simp (again, loop_none t sockfd (set e.lfds j x) 0 others)

    -- On a known epoll descriptor with a free slot and a known descriptor of this library that has
    -- no listener there: adding it succeeds, adding it again fails with EEXIST, changing its event
    -- succeeds, removing it succeeds and removing it again fails with ENOENT. In between, the slot
    -- holds an active listener for the entry of the descriptor with the event that was given last,
    -- level-triggered unless the event has EPOLLET, and the other listeners are as before.
    pub listener_lifecycle :
        (kernel : Kernel) (ev ev' : EpollEvent)
        → (l : EventListenFd) × (get_elem? e.lfds j ≡ some l)
          × (let s1 = with_lfds s k e (set e.lfds j (listener l ev)) in
              let s2 = with_lfds s k e (set e.lfds j (listener l ev')) in
              let s3 = with_lfds s k e (set e.lfds j (delete_listener (listener l ev'))) in
              (epoll_ctl kernel epfd ctl_add sockfd (some ev) s ≡ ok (pos 0) s1)
              × (epoll_ctl kernel epfd ctl_add sockfd (some ev') s1 ≡ fail eexist s1)
              × (epoll_ctl kernel epfd ctl_mod sockfd (some ev') s1 ≡ ok (pos 0) s2)
              × (epoll_ctl kernel epfd ctl_del sockfd none s2 ≡ ok (pos 0) s3)
              × (epoll_ctl kernel epfd ctl_del sockfd none s3 ≡ fail enoent s3))
    unfolding epoll_ctl get_pollfd_by_num get_fd_by_num add_listener modify_listener remove_listener
    listener_lifecycle kernel ev ev' =
        let (l, at) = find_empty_listener_lem e.lfds j free in
        let e1 : ltb sockfd fd_start ≡ false = ground (arith, own) in
        let off : (delete_listener (listener l ev')).active ≡ false = refl in
        (
          l,
          at,
          (
            simp (
              found_e,
              found_d,
              e1,
              get_start,
              get_empty l at,
              update_next _ _ _ (at_slot _),
              set-set e.lfds j,
            ),
            simp (still_found, found_d, e1, get_hit l ev),
            simp (
              still_found,
              found_d,
              e1,
              get_hit l ev,
              update_next _ _ _ (at_slot (listener l ev)),
              set-set e.lfds j,
            ),
            simp (
              still_found,
              found_d,
              e1,
              get_hit l ev',
              update_next _ _ _ (at_slot (listener l ev')),
              set-set e.lfds j,
            ),
            simp (still_found, found_d, e1, get_gone _ off),
          ),
        )
