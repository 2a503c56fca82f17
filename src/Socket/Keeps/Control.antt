-- ===== src/Socket/Keeps/Control.antt =====
-- The other calls keep both tables.
use shmsock.Base.{ℕ, refl, Option, none, some, ◌==◌, ◌||◌, ltb}
use shmsock.Machine.{pos, SockaddrIn, External, Kernel, einval}
use shmsock.Fds.{pollfd_start, fd_start}
use shmsock.Fds.Keeps.{
  Keeps, Keeps-bind, Keeps-if, Keeps-pure, keeps_rules, state_rules, Keeps-update_fd,
  Keeps-assert_fd_state, Keeps-assert_fd, Keeps-get_fd_by_num, Keeps-fail, Keeps-load_fd,
}
use shmsock.Connection.Keeps.{Keeps-close_connection}
use shmsock.Pollfds.Keeps.{Keeps-handle_epfd_close}
use shmsock.Socket.Control.{shutdown, handle_sockfd_close, close, ioctl, fcntl, getsockname}
use shmsock.Socket.Keeps.{Keeps-system_call}

module _ (ext : External) where
  pub Keeps-getsockname : (sockfd : ℕ) (addr : Option SockaddrIn) → Keeps (getsockname sockfd addr)
  unfolding getsockname
  Keeps-getsockname sockfd addr =
      Keeps-bind _ _ (Keeps-get_fd_by_num sockfd)
        (elim [ none ↦ search state_rules depth 20 | some i ↦ search state_rules depth 30 ])

  pub Keeps-handle_sockfd_close : (sockfd : ℕ) → Keeps (handle_sockfd_close ext sockfd)
  unfolding handle_sockfd_close
  Keeps-handle_sockfd_close sockfd =
      Keeps-assert_fd sockfd _ λ i. search (state_rules, Keeps-close_connection) depth 24

  pub Keeps-shutdown : (sockfd how : ℕ) → Keeps (shutdown sockfd how)
  unfolding shutdown
  Keeps-shutdown sockfd how =
      Keeps-assert_fd_state sockfd _ _ λ i. search (keeps_rules, Keeps-fail) depth 20

  pub Keeps-close : (kernel : Kernel) (sockfd : ℕ) → Keeps (close ext kernel sockfd)
  unfolding close
  Keeps-close kernel sockfd = Keeps-if (ltb sockfd fd_start) _ _ (Keeps-system_call _) (
      Keeps-if (ltb sockfd pollfd_start) _ _ (Keeps-handle_sockfd_close sockfd)
        (Keeps-handle_epfd_close sockfd))

  pub Keeps-ioctl :
      (kernel : Kernel) (sockfd request argp : ℕ) → Keeps (ioctl ext kernel sockfd request argp)
  unfolding ioctl
  Keeps-ioctl kernel sockfd request argp =
      Keeps-if (ltb sockfd fd_start) _ _ (Keeps-system_call _) (Keeps-pure _)

  pub Keeps-fcntl : (kernel : Kernel) (sockfd cmd arg : ℕ) → Keeps (fcntl ext kernel sockfd cmd arg)
  unfolding fcntl
  Keeps-fcntl kernel sockfd cmd arg = Keeps-if (ltb sockfd fd_start) _ _ (Keeps-system_call _) (
      Keeps-assert_fd sockfd _ λ i. Keeps-bind _ _ (Keeps-load_fd i) λ d.
        Keeps-if (cmd == 3 || cmd == 1) _ _ (Keeps-pure _) (
          Keeps-if (cmd == 4 || cmd == 2) _ _
            (Keeps-bind _ _ (Keeps-update_fd i _ (λ e. (refl, λ a. a))) λ u. Keeps-pure (pos 0))
            (Keeps-fail einval)))
