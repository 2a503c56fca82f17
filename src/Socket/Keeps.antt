-- ===== src/Socket/Keeps.antt =====
-- Each call of socket.c keeps the invariants of both tables: what its children share.
pub mod Setup
pub mod Accept
pub mod Connect
pub mod Transfer
pub mod Control
use shmsock.Base.{
  ℕ, refl, not, List, [], ◌∷◌, Option, none, some, All, ◌==◌, ◌||◌, ltb, Option-cases, inl, inr,
  get_elem?, ◌+◌,
}
use shmsock.Llist.{Ptr, null}
use shmsock.Machine.{
  ℤ, pos, negsuc, failure, Errno, SockaddrIn, External, Kernel, enomem, econnrefused, einprogress,
  Epollfd, s_created, s_listen, ebadf, einval, State, s_open,
}
use shmsock.Machine.Cmd.{Cmd, Schedule, pure, ◌>>◌, set_errno}
use shmsock.Fds.{pollfd_start, in_state, fail, sleep_then, fd_start}
use shmsock.Fds.Keeps.{
  Sound, Keeps, Keeps-bind, Keeps-if, Keeps-fault, Keeps-asleep, Keeps-pure, keeps_rules,
  state_rules, Keeps-update_fd, Keeps-assert_fd_state, Keeps-assert_fd, Keeps-get_fd_by_num,
  Keeps-fail, Keeps-or_fault, Keeps-load_fd,
}
use shmsock.Fds.Keeps.Fresh.{new_fd, Keeps-new_fd}
use shmsock.Connection.Keeps.{
  Keeps-get_interface_by_sockaddr, Keeps-create_new_connection,
  Keeps-create_new_listener_connection, Keeps-initiate_new_connection, Keeps-check_if_accepted,
  Keeps-check_if_closed, Keeps-accept_on_any_iface, Keeps-close_connection, Keeps-send_connection,
  Keeps-recv_connection,
}
use shmsock.Pollfds.{handle_epfd_close, update_pollfd, get_pollfd_by_num}
use shmsock.Socket.Setup.{socket, bind, listen}
use shmsock.Socket.Accept.{accept_round, accept_wait, accept_fd, accept4, accept}
use shmsock.Socket.Connect.{
  next_port, connect_round, connect_wait, connect_start, connect_ex, connect,
}
use shmsock.Socket.Transfer.{
  send_sized, recv_sized, send, recv_round, recv_wait, recv, read, write, send_pieces, sendmsg,
}
use shmsock.Socket.Control.{
  system_call, shutdown, handle_sockfd_close, close, ioctl, fcntl, getsockname, getpeername,
}

-- What the others do while a call sleeps keeps both tables too.
abbrev pub Mild : Schedule → Type 0
Mild = All (λ env. (s : State) → Sound s → Sound (env s))

pub Keeps-sleep :
    {A : Type 0} (env : State → State) (body : Cmd A)
    → ((s : State) → Sound s → Sound (env s))
    → Keeps body
    → Keeps (sleep_then env body)
Keeps-sleep env body ke kb = record { at = λ s h. kb.at (env s) (ke s h) }

-- A system call, whose result goes through `errno`.
pub Keeps-system_call : (call : Errno → ℤ × Errno) → Keeps (system_call call)
Keeps-system_call call = record { at = λ s h. h }
