-- ===== src/Listeners/Keeps.antt =====
-- `epoll_ctl` and the level-triggered events keep the invariants of both tables.
use shmsock.Base.{
  true, ℕ, suc, List, [], ◌∷◌, Option, none, some, ◌==◌, ltb, get_elem?, length-set, refl,
  Option-cases, inl, inr,
}
use shmsock.Llist.{Ptr}
use shmsock.Machine.{
  ℤ, ebadf, eexist, enomem, enoent, einval, EpollEvent, EventListenFd, External, Kernel,
}
use shmsock.Fds.{fd_start}
use shmsock.Fds.Keeps.{
  Keeps, Keeps-bind, Keeps-if, Keeps-pure, Keeps-fail, Keeps-option, Keeps-load_fd,
  Keeps-get_fd_by_num, state_rules,
}
use shmsock.Pollfds.{load_pollfd, update_pollfd}
use shmsock.Pollfds.Table.{IsPollTable-set}
use shmsock.Pollfds.Keeps.{Keeps-load_pollfd, Keeps-update_pollfd, Keeps-get_pollfd_by_num}
use shmsock.Listeners.{
  update_listener, handle_fd_close_in_events, listener_loop, get_listener_for_fd,
  find_empty_listener, take_listener, get_empty_listener, real_ctl, add_listener, modify_listener,
  remove_listener, epoll_ctl, ctl_add, ctl_mod, ctl_del, set_level_triggered_events,
}

pub Keeps-update_listener :
    (k j : ℕ) (f : EventListenFd → EventListenFd) → Keeps (update_listener k j f)
unfolding update_listener load_pollfd update_pollfd
Keeps-update_listener k j f = record {
  at = λ s h. elim (Option-cases (get_elem? s.process.pollfds k)) [
    | inl q ↦ rw q tt
    | inr (e, q) ↦ elim (Option-cases (get_elem? e.lfds j)) [
      | inl r ↦ rw (q, r) tt
      | inr (l, r) ↦
          rw (q, r, q)
            (h.0, IsPollTable-set h.1 k e _ q refl (λ on. on) (length-set e.lfds j (f l)))
    ]
  ];
}

pub Keeps-handle_fd_close : (k j : ℕ) → Keeps (handle_fd_close_in_events k j)
unfolding handle_fd_close_in_events
Keeps-handle_fd_close k j = Keeps-update_listener k j _

Keeps-listener_loop : (num : ℕ) (ls : List EventListenFd) (j : ℕ) → Keeps (listener_loop num ls j)
unfolding listener_loop
Keeps-listener_loop num [] j = Keeps-pure none
Keeps-listener_loop num (l ∷ ls) j =
    Keeps-if l.active _ _
      (Keeps-bind _ _ (Keeps-load_fd l.fd)
        λ d. Keeps-if (d.num == num) _ _ (Keeps-pure _) (Keeps-listener_loop num ls (suc j)))
      (Keeps-listener_loop num ls (suc j))

Keeps-get_listener_for_fd : (k num : ℕ) → Keeps (get_listener_for_fd k num)
unfolding get_listener_for_fd
Keeps-get_listener_for_fd k num = Keeps-bind _ _ (Keeps-load_pollfd k) λ e.
    Keeps-bind _ _ (Keeps-listener_loop num e.lfds 0) (elim [
      | none ↦ Keeps-pure none
      | some (j, on) ↦
          Keeps-if on _ _ (Keeps-pure (some j))
            (Keeps-bind _ _ (Keeps-handle_fd_close k j) λ u. Keeps-pure none)
    ])

Keeps-take_listener : (k : ℕ) (o : Option ℕ) → Keeps (take_listener k o)
unfolding take_listener
Keeps-take_listener k none = Keeps-pure none
Keeps-take_listener k (some j) =
    Keeps-bind _ _ (Keeps-update_listener k j _) λ u. Keeps-pure (some j)

Keeps-get_empty_listener : (k : ℕ) → Keeps (get_empty_listener k)
unfolding get_empty_listener
Keeps-get_empty_listener k =
    Keeps-bind _ _ (Keeps-load_pollfd k) λ e. Keeps-take_listener k (find_empty_listener e.lfds)

ruleset listener_rules = (
  state_rules, Keeps-fail, Keeps-option, Keeps-load_pollfd, Keeps-get_pollfd_by_num,
  Keeps-update_listener, Keeps-get_listener_for_fd, Keeps-get_empty_listener,
)

Keeps-set_mixed :
    (k : ℕ) (r : ℤ) → Keeps (update_pollfd k (λ x. record x { real_pollfd = r; is_mixed = true }))
Keeps-set_mixed k r = Keeps-update_pollfd k _ (λ x. (refl, (λ on. on), refl))

Keeps-real_ctl :
    (kernel : Kernel) (k op sockfd : ℕ) (event : Option EpollEvent)
    → Keeps (real_ctl kernel k op sockfd event)
unfolding real_ctl
Keeps-real_ctl kernel k op sockfd event = search (listener_rules, Keeps-set_mixed) depth 30

Keeps-add_listener :
    (k i sockfd : ℕ) (event : Option EpollEvent) → Keeps (add_listener k i sockfd event)
unfolding add_listener
Keeps-add_listener k i sockfd event = Keeps-bind _ _ (Keeps-get_listener_for_fd k sockfd) (elim [
  | some j ↦ Keeps-fail eexist
  | none ↦
      Keeps-bind _ _ (Keeps-get_empty_listener k)
        (elim [ none ↦ Keeps-fail enomem | some j ↦ search listener_rules depth 30 ])
])

Keeps-modify_listener :
    (k sockfd : ℕ) (event : Option EpollEvent) → Keeps (modify_listener k sockfd event)
unfolding modify_listener
Keeps-modify_listener k sockfd event =
    Keeps-bind _ _ (Keeps-get_listener_for_fd k sockfd)
      (elim [ none ↦ Keeps-fail enoent | some j ↦ search listener_rules depth 30 ])

Keeps-remove_listener : (k sockfd : ℕ) → Keeps (remove_listener k sockfd)
unfolding remove_listener
Keeps-remove_listener k sockfd =
    Keeps-bind _ _ (Keeps-get_listener_for_fd k sockfd)
      (elim [ none ↦ Keeps-fail enoent | some j ↦ search listener_rules depth 30 ])

pub Keeps-epoll_ctl :
    (kernel : Kernel) (epfd op sockfd : ℕ) (event : Option EpollEvent)
    → Keeps (epoll_ctl kernel epfd op sockfd event)
unfolding epoll_ctl
Keeps-epoll_ctl kernel epfd op sockfd event = Keeps-bind _ _ (Keeps-get_pollfd_by_num epfd) λ g.
    Keeps-bind _ _ (Keeps-get_fd_by_num sockfd) λ f. Keeps-option g _ _ (Keeps-fail ebadf) λ k.
      Keeps-if (ltb sockfd fd_start) _ _ (Keeps-real_ctl kernel k op sockfd event) (
        Keeps-option f _ _ (Keeps-fail ebadf) λ i.
          Keeps-if (op == ctl_add) _ _ (Keeps-add_listener k i sockfd event) (
            Keeps-if (op == ctl_mod) _ _ (Keeps-modify_listener k sockfd event)
              (Keeps-if (op == ctl_del) _ _ (Keeps-remove_listener k sockfd) (Keeps-fail einval))))

pub Keeps-set_levels : (ext : External) (p : Ptr) → Keeps (set_level_triggered_events ext p)
unfolding set_level_triggered_events
Keeps-set_levels ext p = search state_rules depth 30
