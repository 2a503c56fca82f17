-- ===== src/Pollfds/Keeps.antt =====
-- The functions on the table of epoll descriptors keep the invariants of both tables.
use shmsock.Base.{
  ℕ, ◌≡◌, refl, sym, subst, true, leb, length, length-map, none, some, get_elem?, set, set-set,
  get_elem?-set_self, lt_of_get_elem?, Option-cases, Bool-cases, false, inl, inr, ◌+◌,
}
use shmsock.Machine.{enfile, enomem, ebadf, pos, Epollfd, State}
use shmsock.Machine.Cmd.{ok}
use shmsock.Fds.Keeps.{Keeps, Safe, Keeps-bind, Keeps-pure, Keeps-fail, keeps_rules}
use shmsock.Fds.{system_max_fd, fail}
use shmsock.Pollfds.{
  load_pollfd, update_pollfd, get_pollfd_by_num, get_empty_pollfd, find_empty_pollfd, take_pollfd,
  delete_listener, handle_epfd_close, epoll_create1,
}
use shmsock.Pollfds.Table.{find_empty_pollfd-some, IsPollTable-set, IsPollTable-new}

pub Keeps-load_pollfd : (k : ℕ) → Keeps (load_pollfd k)
unfolding load_pollfd
Keeps-load_pollfd k = search keeps_rules depth 12

-- A write to an entry that keeps its number and the count of its listeners, and does not make it
-- active.
pub Keeps-update_pollfd :
    (k : ℕ) (f : Epollfd → Epollfd)
    → ((e : Epollfd)
        → ((f e).num ≡ e.num)
          × ((f e).active ≡ true → e.active ≡ true)
          × (length (f e).lfds ≡ length e.lfds))
    → Keeps (update_pollfd k f)
unfolding update_pollfd
Keeps-update_pollfd k f mild = record {
  at = λ s h. elim (Option-cases (get_elem? s.process.pollfds k)) [
    | inl q ↦ rw q tt
    | inr (e, q) ↦
        let (same, kept, size) = mild e in
        rw q (h.0, IsPollTable-set h.1 k e (f e) q same kept size)
  ];
}

pub Keeps-get_pollfd_by_num : (num : ℕ) → Keeps (get_pollfd_by_num num)
unfolding get_pollfd_by_num
Keeps-get_pollfd_by_num num = record { at = λ s h. h }

pub Keeps-handle_epfd_close : (epfd : ℕ) → Keeps (handle_epfd_close epfd)
unfolding handle_epfd_close
Keeps-handle_epfd_close epfd = Keeps-bind _ _ (Keeps-get_pollfd_by_num epfd) (elim [
  | none ↦ Keeps-fail ebadf
  | some k ↦
      Keeps-bind _ _
        (Keeps-update_pollfd k _ (λ e. (refl, (λ on. cc), length-map delete_listener e.lfds)))
        λ u. Keeps-pure (pos 0)
])

get_empty-none :
    (s : State) → find_empty_pollfd s.process.pollfds ≡ none → get_empty_pollfd s ≡ ok none s
unfolding get_empty_pollfd
get_empty-none s q = rw (q, take_pollfd)

-- The state with entry `k` replaced.
abbrev with_pollfd : State → ℕ → Epollfd → State
with_pollfd s k e = record s { process = record s.process { pollfds = set s.process.pollfds k e } }

module _ (s : State) (k : ℕ) (e : Epollfd) (at : get_elem? s.process.pollfds k ≡ some e) where
  get_empty-some :
      find_empty_pollfd s.process.pollfds ≡ some k
      → get_empty_pollfd s ≡ ok (some k) (with_pollfd s k (record e { active = true }))
  unfolding get_empty_pollfd update_pollfd
  get_empty-some q = rw (q, take_pollfd, at)

  -- The state after `epoll_create1` took the entry.
  abbrev created : ℕ → State
  created flags = record s {
    process = record s.process {
      random_poll_fd = s.process.random_poll_fd + 1;
      pollfds =
          set s.process.pollfds k
            (record e { num = s.process.random_poll_fd; all_flags = flags; active = true });
    };
  }

  create-some :
      (flags : ℕ)
      → leb system_max_fd s.process.random_poll_fd ≡ false
      → find_empty_pollfd s.process.pollfds ≡ some k
      → epoll_create1 flags s ≡ ok (pos s.process.random_poll_fd) (created flags)
  unfolding epoll_create1 update_pollfd
  create-some flags room q =
      let again : get_elem? (set s.process.pollfds k (record e { active = true })) k
          ≡ some (record e { active = true }) =
        get_elem?-set_self s.process.pollfds k _ (lt_of_get_elem? s.process.pollfds k at) in
      rw (room, get_empty-some q, again, set-set s.process.pollfds k) refl

create-none :
    (s : State) (flags : ℕ)
    → leb system_max_fd s.process.random_poll_fd ≡ false
    → find_empty_pollfd s.process.pollfds ≡ none
    → epoll_create1 flags s ≡ fail enomem s
unfolding epoll_create1
create-none s flags room q = rw (room, get_empty-none s q) refl

create-full :
    (s : State) (flags : ℕ)
    → leb system_max_fd s.process.random_poll_fd ≡ true
    → epoll_create1 flags s ≡ fail enfile s
unfolding epoll_create1
create-full s flags full = rw full refl

pub Keeps-epoll_create1 : (flags : ℕ) → Keeps (epoll_create1 flags)
Keeps-epoll_create1 flags = record {
  at = λ s h. elim (Bool-cases (leb system_max_fd s.process.random_poll_fd)) [
    | inl full ↦ subst Safe (sym (create-full s flags full)) h
    | inr room ↦ elim (Option-cases (find_empty_pollfd s.process.pollfds)) [
      | inl q ↦ subst Safe (sym (create-none s flags room q)) h
      | inr (k, q) ↦
          let (e, at) = find_empty_pollfd-some s.process.pollfds k q in
          subst Safe (sym (create-some s k e at flags room q))
            (h.0, IsPollTable-new h.1 k e _ at refl refl)
    ]
  ];
}
