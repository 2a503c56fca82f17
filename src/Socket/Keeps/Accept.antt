-- ===== src/Socket/Keeps/Accept.antt =====
-- `accept4` and `getpeername` keep both tables of descriptors.
use shmsock.Base.{ℕ, refl, not, [], ◌∷◌, Option, none, some}
use shmsock.Llist.{Ptr}
use shmsock.Machine.{pos, failure, SockaddrIn, External, s_listen, ebadf}
use shmsock.Machine.Cmd.{Cmd, Schedule, pure, ◌>>◌, set_errno}
use shmsock.Fds.{in_state}
use shmsock.Fds.Keeps.{
  Keeps, Keeps-bind, Keeps-if, Keeps-fault, Keeps-asleep, Keeps-pure, state_rules,
  Keeps-get_fd_by_num, Keeps-load_fd,
}
use shmsock.Fds.Keeps.Fresh.{Keeps-new_fd}
use shmsock.Connection.Keeps.{Keeps-accept_on_any_iface}
use shmsock.Socket.Accept.{accept_round, accept_wait, accept_fd, accept4, accept}
use shmsock.Socket.Control.{getpeername}
use shmsock.Socket.Keeps.{Mild, Keeps-sleep}

module _ (ext : External) where
  Keeps-accept_round :
      (i : ℕ) (sleep : Cmd (Option Ptr)) → Keeps sleep → Keeps (accept_round ext i sleep)
  unfolding accept_round
  Keeps-accept_round i sleep k = search (state_rules, Keeps-accept_on_any_iface) depth 20

  Keeps-accept_wait :
      (schedule : Schedule) (i : ℕ) → Mild schedule → Keeps (accept_wait ext schedule i)
  unfolding accept_wait
  Keeps-accept_wait [] i m = Keeps-accept_round i _ Keeps-asleep
  Keeps-accept_wait (env ∷ rest) i m =
      Keeps-accept_round i _ (Keeps-sleep env _ m.0 (Keeps-accept_wait rest i m.1))

  pub Keeps-getpeername : (sockfd : ℕ) (addr : Option SockaddrIn) → Keeps (getpeername sockfd addr)
  unfolding getpeername
  Keeps-getpeername sockfd addr =
      Keeps-bind _ _ (Keeps-get_fd_by_num sockfd)
        (elim [ none ↦ search state_rules depth 20 | some i ↦ search state_rules depth 30 ])

  Keeps-accept_fd :
      (c : Ptr) (flags : ℕ) (addr : Option SockaddrIn) → Keeps (accept_fd ext c flags addr)
  unfolding accept_fd
  Keeps-accept_fd c flags addr =
      Keeps-new_fd _ _ _ Keeps-fault
        (λ n. Keeps-bind _ _ (Keeps-getpeername n addr) (λ r. Keeps-pure (pos n, r.1)))
        (λ n d. refl)

  pub Keeps-accept4 :
      (sockfd : ℕ) (addr : Option SockaddrIn) (flags : ℕ) (schedule : Schedule)
      → Mild schedule
      → Keeps (accept4 ext sockfd addr flags schedule)
  unfolding accept4
  Keeps-accept4 sockfd addr flags schedule m = Keeps-bind _ _ (Keeps-get_fd_by_num sockfd) (elim [
    | none ↦ search state_rules depth 20
    | some i ↦ Keeps-bind _ _ (Keeps-load_fd i) λ d.
        Keeps-if (not (in_state s_listen d)) (set_errno ebadf >> pure (failure, addr)) _
          (search state_rules depth 20)
          (Keeps-bind _ _ (Keeps-accept_wait schedule i m)
            (elim [ none ↦ Keeps-pure (failure, addr) | some c ↦ Keeps-accept_fd c flags addr ]))
  ])

  pub Keeps-accept :
      (sockfd : ℕ) (addr : Option SockaddrIn) (schedule : Schedule)
      → Mild schedule
      → Keeps (accept ext sockfd addr schedule)
  unfolding accept
  Keeps-accept sockfd addr schedule m = Keeps-accept4 sockfd addr 0 schedule m
