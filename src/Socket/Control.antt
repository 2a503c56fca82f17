-- ===== src/Socket/Control.antt =====
-- The rest of socket.c: `shutdown`, `close`, `ioctl`, `fcntl`, the options and the names.
pub mod Closing
pub mod Names
pub mod Flags
use shmsock.Base.{
  ℕ, ◌≡◌, Bool, true, false, List, [], Option, none, some, if◌then◌else◌, ◌==◌, ◌||◌, not, ltb,
  bit_and,
}
use shmsock.Llist.{Ptr, null}
use shmsock.Machine.{
  ℤ, pos, failure, s_listen, s_open, s_shutdown, s_close, c_open, conn_num, ebadf, einval, enotconn,
  Errno, SockaddrIn, External, Kernel, State,
}
use shmsock.Machine.Sides.{own_port, remote_port, own_address, remote_address}
use shmsock.Machine.Cmd.{
  Run, ok, fault, Cmd, pure, ◌>>=◌, ◌>>◌, get_process, set_errno, load_fd, update_fd, load_conn,
  load_iface, or_fault,
}
use shmsock.Fds.{
  fd_start, pollfd_start, get_fd_by_num, delete_fd, handle_close_while_io, fail, in_state,
  assert_fd_state, assert_fd,
}
use shmsock.Pollfds.{handle_epfd_close}
use shmsock.Connection.{close_connection}
use shmsock.Socket.Setup.{af_inet}

abbrev pub o_nonblock : ℕ
o_nonblock = 2048

-- SHUT_RD, SHUT_WR and SHUT_RDWR are 0, 1 and 2.
unfoldable pub shutdown : ℕ → ℕ → Cmd ℤ
shutdown sockfd how =
    assert_fd_state sockfd (λ d. in_state s_open d || in_state s_shutdown d)
      λ i. (if how == 0 || how == 1 || how == 2 then pure (pos 0) else fail einval)

unfoldable pub handle_sockfd_close : External → ℕ → Cmd ℤ
handle_sockfd_close ext sockfd = assert_fd sockfd λ i. (do
  d ← load_fd i
  if d.conn == null then pure tt else close_connection ext d.conn
  handle_close_while_io i
  delete_fd i
  pure (pos 0))

-- A system call: its result, and `errno` as the kernel leaves it.
abbrev pub system_call : (Errno → ℤ × Errno) → Cmd ℤ
system_call call = do p ← get_process; let r = call p.errno; set_errno r.1; pure r.0

module _ (ext : External) (kernel : Kernel) where
  unfoldable pub close : ℕ → Cmd ℤ
  close sockfd =
      if ltb sockfd fd_start
      then system_call (kernel.sys_close sockfd)
      else if ltb sockfd pollfd_start
      then handle_sockfd_close ext sockfd
      else handle_epfd_close sockfd

  unfoldable pub ioctl : ℕ → ℕ → ℕ → Cmd ℤ
  ioctl sockfd request argp =
      if ltb sockfd fd_start
      then system_call (kernel.sys_ioctl sockfd request argp)
      else pure (pos 0)

  -- F_GETFD, F_SETFD, F_GETFL and F_SETFL are 1, 2, 3 and 4.
  unfoldable pub fcntl : ℕ → ℕ → ℕ → Cmd ℤ
  fcntl sockfd cmd arg =
      if ltb sockfd fd_start
      then system_call (kernel.sys_fcntl sockfd cmd arg)
      else assert_fd sockfd λ i. (do
        d ← load_fd i
        if cmd == 3 || cmd == 1
            then pure (pos (if d.flag_nonblock == 0 then 0 else o_nonblock))
            else if cmd == 4 || cmd == 2
            then (do
              update_fd i (λ e. record e { flag_nonblock = bit_and arg o_nonblock })
              pure (pos 0))
            else fail einval)

  unfoldable pub fcntl64 : ℕ → ℕ → ℕ → Cmd ℤ
  fcntl64 sockfd cmd arg = fcntl sockfd cmd arg

-- Not implemented in the source: nothing is done.
unfoldable pub recvmsg : ℕ → ℕ → Cmd ℤ
recvmsg sockfd flags = pure failure

unfoldable pub getsockopt : ℕ → ℕ → ℕ → Cmd ℤ
getsockopt sockfd level optname = pure (pos 0)

unfoldable pub setsockopt : ℕ → ℕ → ℕ → Cmd ℤ
setsockopt sockfd level optname = pure (pos 0)

-- errno = ENOTCONN; return(-1), with the caller's address as it was
abbrev not_connected : Option SockaddrIn → Cmd (ℤ × Option SockaddrIn)
not_connected addr = do set_errno enotconn; pure (failure, addr)

abbrev no_fd : Option SockaddrIn → Cmd (ℤ × Option SockaddrIn)
no_fd addr = do set_errno ebadf; pure (pos 1, addr)

-- The second component is what `addr` points to afterwards; none for NULL. The family is left as
-- it was.
unfoldable pub getsockname : ℕ → Option SockaddrIn → Cmd (ℤ × Option SockaddrIn)
getsockname sockfd addr = do
  f ← get_fd_by_num sockfd
  elim f [
    | none ↦ no_fd addr
    | some i ↦ (do
      d ← load_fd i
      if in_state s_listen d
          then (do
            a ← or_fault addr
            pure (pos 0, some (record a { sin_port = d.listen_port; sin_addr = d.listen_address })))
          else if d.conn == null
          then not_connected addr
          else (do
            c ← load_conn d.conn
            if not (conn_num c.conn_state == conn_num c_open) then not_connected addr else (do
              a ← or_fault addr
              i ← load_iface c.associated_iface
              p ← get_process
              pure (
                pos 0,
                some (record a { sin_port = own_port p.side c; sin_addr = own_address p.side i }),
              ))))
  ]

unfoldable pub getpeername : ℕ → Option SockaddrIn → Cmd (ℤ × Option SockaddrIn)
getpeername sockfd addr = do
  f ← get_fd_by_num sockfd
  elim f [
    | none ↦ no_fd addr
    | some i ↦ (do
      d ← load_fd i
      if d.conn == null then not_connected addr else (do
        c ← load_conn d.conn
        if not (conn_num c.conn_state == conn_num c_open) then not_connected addr else (do
          a ← or_fault addr
          i ← load_iface c.associated_iface
          p ← get_process
          pure (
            pos 0,
            some (record {
              sin_family = af_inet;
              sin_port = remote_port p.side c;
              sin_addr = remote_address p.side i;
            }),
          ))))
  ]
