-- ===== src/Socket/Setup.antt =====
-- `socket`, `bind` and `listen` of socket.c.
pub mod Serving
use shmsock.Base.{ℕ, Option, none, some, if◌then◌else◌, ◌==◌, leb, not, bit_and}
use shmsock.Llist.{null}
use shmsock.Machine.{
  ℤ, pos, s_created, s_bound, s_listen, eafnosupport, eprotonosupport, enfile, enomem, SockaddrIn,
  External,
}
use shmsock.Machine.Cmd.{Cmd, pure, ◌>>=◌, ◌>>◌, get_process, update_fd, or_fault}
use shmsock.Fds.{pollfd_start, get_empty_fd, fail, in_state, assert_fd_state, next_fd_num}
use shmsock.Connection.{create_new_listener_connection}

abbrev pub af_inet : ℕ
af_inet = 2

abbrev pub sock_stream : ℕ
sock_stream = 1

abbrev pub sock_nonblock : ℕ
sock_nonblock = 2048

-- ~(SOCK_NONBLOCK | SOCK_CLOEXEC) over 32 bits
abbrev pub type_mask : ℕ
type_mask = 0xfff7_f7ff

unfoldable pub socket : ℕ → ℕ → ℕ → Cmd ℤ
socket domain type protocol =
    if not (domain == af_inet)
    then fail eafnosupport
    else if not (bit_and type type_mask == sock_stream)
    then fail eprotonosupport
    else (do
      p ← get_process
      if leb pollfd_start p.current_max_fd then fail enfile else (do
        f ← get_empty_fd
        elim f [
          | none ↦ fail enomem
          | some i ↦ (do
            n ← next_fd_num
            update_fd i λ d. record d {
              num = n;
              state = s_created;
              conn = null;
              flag_nonblock = bit_and type sock_nonblock;
            }
            pure (pos n))
        ]))

-- The address is a pointer, none for NULL.
unfoldable pub bind : ℕ → Option SockaddrIn → Cmd ℤ
bind sockfd addr = assert_fd_state sockfd (in_state s_created) λ i. (do
  a ← or_fault addr
  update_fd i
      λ d. record d { listen_port = a.sin_port; listen_address = a.sin_addr; state = s_bound }
  pure (pos 0))

unfoldable pub listen : External → ℕ → ℕ → Cmd ℤ
listen ext sockfd backlog = assert_fd_state sockfd (in_state s_bound) λ i. (do
  p ← create_new_listener_connection ext
  update_fd i (λ d. record d { conn = p; state = s_listen })
  pure (pos 0))
