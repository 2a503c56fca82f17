-- ===== src/Socket/Keeps/Connect.antt =====
-- `connect` and `connectEx` keep both tables of descriptors.
use shmsock.Base.{ℕ, refl, not, [], ◌∷◌, Option, ◌==◌}
use shmsock.Machine.{ℤ, pos, SockaddrIn, External, econnrefused, einprogress}
use shmsock.Machine.Cmd.{Cmd, Schedule}
use shmsock.Fds.{fail}
use shmsock.Fds.Keeps.{
  Keeps, Keeps-bind, Keeps-if, Keeps-asleep, Keeps-pure, Keeps-update_fd, Keeps-assert_fd_state,
  Keeps-fail, Keeps-or_fault, Keeps-load_fd,
}
use shmsock.Connection.Keeps.{
  Keeps-get_interface_by_sockaddr, Keeps-create_new_connection, Keeps-initiate_new_connection,
  Keeps-check_if_accepted, Keeps-check_if_closed,
}
use shmsock.Socket.Connect.{
  next_port, connect_round, connect_wait, connect_start, connect_ex, connect,
}
use shmsock.Socket.Keeps.{Mild, Keeps-sleep}

module _ (ext : External) where
  Keeps-connect_round : (i : ℕ) (sleep : Cmd ℤ) → Keeps sleep → Keeps (connect_round ext i sleep)
  unfolding connect_round
  Keeps-connect_round i sleep k = Keeps-bind _ _ (Keeps-load_fd i) λ d.
      Keeps-bind _ _ (Keeps-check_if_accepted ext d.conn) λ accepted.
        Keeps-if accepted _ _
          (Keeps-bind _ _ (Keeps-update_fd i _ (λ e. (refl, λ a. a))) λ u. Keeps-pure (pos 0))
          (Keeps-bind _ _ (Keeps-check_if_closed ext d.conn) λ closed.
            Keeps-if closed (fail econnrefused) _ (Keeps-fail econnrefused) (
              Keeps-if (not (d.flag_nonblock == 0)) (fail einprogress) sleep
                (Keeps-fail einprogress) k))

  Keeps-connect_wait :
      (schedule : Schedule) (i : ℕ) → Mild schedule → Keeps (connect_wait ext schedule i)
  unfolding connect_wait
  Keeps-connect_wait [] i m = Keeps-connect_round i _ Keeps-asleep
  Keeps-connect_wait (env ∷ rest) i m =
      Keeps-connect_round i _ (Keeps-sleep env _ m.0 (Keeps-connect_wait rest i m.1))

  Keeps-next_port : Keeps next_port
  unfolding next_port
  Keeps-next_port = record { at = λ s h. h }

  Keeps-connect_start :
      (i : ℕ) (addr : Option SockaddrIn) (schedule : Schedule)
      → Mild schedule
      → Keeps (connect_start ext i addr schedule)
  unfolding connect_start
  Keeps-connect_start i addr schedule m = Keeps-bind _ _ (Keeps-or_fault addr) λ a.
      Keeps-bind _ _ (Keeps-get_interface_by_sockaddr a.sin_addr) λ iface.
        Keeps-if _ _ _ (Keeps-fail _) (
          Keeps-bind _ _ Keeps-next_port λ port.
            Keeps-bind _ _ (Keeps-create_new_connection ext iface port a.sin_port) λ p.
              Keeps-bind _ _ (Keeps-update_fd i _ (λ d. (refl, λ e. e))) λ u.
                Keeps-bind _ _ (Keeps-initiate_new_connection ext p) λ v.
                  Keeps-bind _ _ (Keeps-update_fd i _ (λ d. (refl, λ e. e)))
                    λ w. Keeps-connect_wait schedule i m)

  pub Keeps-connect_ex :
      (sockfd : ℕ) (addr : Option SockaddrIn) (schedule : Schedule)
      → Mild schedule
      → Keeps (connect_ex ext sockfd addr schedule)
  unfolding connect_ex
  Keeps-connect_ex sockfd addr schedule m = Keeps-assert_fd_state sockfd _ _ λ i.
      Keeps-bind _ _ (Keeps-load_fd i) λ d.
        Keeps-if _ _ _ (Keeps-connect_wait schedule i m) (Keeps-connect_start i addr schedule m)

  pub Keeps-connect :
      (sockfd : ℕ) (addr : Option SockaddrIn) (schedule : Schedule)
      → Mild schedule
      → Keeps (connect ext sockfd addr schedule)
  unfolding connect
  Keeps-connect sockfd addr schedule m = Keeps-assert_fd_state sockfd _ _ λ i.
      Keeps-bind _ _ (Keeps-load_fd i)
        λ d. Keeps-if _ _ _ (Keeps-fail _) (Keeps-connect_ex sockfd addr schedule m)
