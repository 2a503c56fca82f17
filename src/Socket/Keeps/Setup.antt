-- ===== src/Socket/Keeps/Setup.antt =====
-- `socket`, `bind` and `listen` keep both tables of descriptors.
use shmsock.Base.{ℕ, refl, Option}
use shmsock.Llist.{null}
use shmsock.Machine.{pos, SockaddrIn, External, enomem, s_created}
use shmsock.Machine.Cmd.{pure}
use shmsock.Fds.{fail}
use shmsock.Fds.Keeps.{
  Keeps, Keeps-bind, Keeps-pure, keeps_rules, state_rules, Keeps-update_fd, Keeps-assert_fd_state,
  Keeps-fail, Keeps-or_fault,
}
use shmsock.Fds.Keeps.Fresh.{new_fd, Keeps-new_fd}
use shmsock.Connection.Keeps.{Keeps-create_new_listener_connection}
use shmsock.Socket.Setup.{socket, bind, listen}

-- The end of `socket`.
Keeps-socket_fd :
    (flag : ℕ)
    → Keeps (
        new_fd
          (fail enomem)
          (λ n d. record d { num = n; state = s_created; conn = null; flag_nonblock = flag })
          (λ n. pure (pos n)))
Keeps-socket_fd flag = Keeps-new_fd _ _ _ (Keeps-fail _) (λ n. Keeps-pure (pos n)) (λ n d. refl)

pub Keeps-socket : (domain type protocol : ℕ) → Keeps (socket domain type protocol)
unfolding socket
Keeps-socket domain type protocol = search (state_rules, Keeps-fail, Keeps-socket_fd) depth 20

pub Keeps-bind_call : (sockfd : ℕ) (addr : Option SockaddrIn) → Keeps (bind sockfd addr)
unfolding bind
Keeps-bind_call sockfd addr = Keeps-assert_fd_state sockfd _ _ λ i.
    Keeps-bind _ _ (Keeps-or_fault addr)
      λ a. Keeps-bind _ _ (Keeps-update_fd i _ (λ d. (refl, λ e. e))) λ u. search keeps_rules

module _ (ext : External) where
  pub Keeps-listen : (sockfd backlog : ℕ) → Keeps (listen ext sockfd backlog)
  unfolding listen
  Keeps-listen sockfd backlog = Keeps-assert_fd_state sockfd _ _ λ i.
      Keeps-bind _ _ (Keeps-create_new_listener_connection ext)
        λ p. Keeps-bind _ _ (Keeps-update_fd i _ (λ d. (refl, λ e. e))) λ u. search keeps_rules
