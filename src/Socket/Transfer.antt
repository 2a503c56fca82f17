-- ===== src/Socket/Transfer.antt =====
-- `send`, `recv`, `read`, `write` and `sendmsg` of socket.c.
pub mod Drain
pub mod Waking
pub mod Sending
use shmsock.Base.{
  ℕ, zero, suc, ◌+◌, ◌≡◌, Bool, true, false, List, [], ◌∷◌, Option, none, some, if◌then◌else◌, ◌==◌,
  not, ◌||◌, ltb, bit_and,
}
use shmsock.Llist.{Ptr, null, has_data_list}
use shmsock.Machine.{
  ℤ, pos, negsuc, failure, s_open, c_close, conn_num, enotconn, eagain, ebadf, Errno, External,
  Kernel, State,
}
use shmsock.Machine.Sides.{recv_buffer}
use shmsock.Machine.Cmd.{
  Run, ok, fault, asleep, Cmd, Schedule, pure, ◌>>=◌, ◌>>◌, get_process, set_errno, load_fd,
  load_conn, int_of_size,
}
use shmsock.Fds.{
  fd_start, get_fd_by_num, handle_close_while_io, fail, in_state, assert_fd_state, sleep_then,
}
use shmsock.Connection.{send_connection, recv_connection}
use shmsock.Socket.Control.{system_call}

abbrev pub msg_dontwait : ℕ
msg_dontwait = 0x40

-- errno = EAGAIN; return(-1)
abbrev would_block : Cmd (ℤ × List ℕ)
would_block = do set_errno eagain; pure (failure, [])

module _ (ext : External) where
  -- `sendConnection` and `recvConnection` take an `int` for the `size_t` of their callers. A
  -- length that turns negative runs out of every array, but is not looked at where nothing is
  -- there to read.
  unfoldable pub send_sized : Ptr → List ℕ → ℕ → Cmd ℤ
  send_sized p buf len = do n ← int_of_size len; r ← send_connection ext p buf n; pure (pos r)

  unfoldable pub recv_sized : Ptr → ℕ → Cmd (ℕ × List ℕ)
  recv_sized p len = do
    c ← load_conn p
    pr ← get_process
    if not (has_data_list ext.ll (recv_buffer pr.side c))
        then pure (0, [])
        else (do n ← int_of_size len; recv_connection ext p n)

  unfoldable pub send : ℕ → List ℕ → ℕ → ℕ → Cmd ℤ
  send sockfd buf len flags = assert_fd_state sockfd (in_state s_open) λ i. (do
    d ← load_fd i
    c ← load_conn d.conn
    if conn_num c.conn_state == conn_num c_close
        then (do handle_close_while_io i; fail enotconn)
        else send_sized d.conn buf len)

  -- One look for data: `sleep` is what follows the sleep.
  unfoldable pub recv_round : ℕ → ℕ → ℕ → Cmd (ℤ × List ℕ) → Cmd (ℤ × List ℕ)
  recv_round i len flags sleep = do
    d ← load_fd i
    r ← recv_sized d.conn len
    if not (r.0 == 0) then pure (pos r.0, r.1) else (do
      c ← load_conn d.conn
      if conn_num c.conn_state == conn_num c_close
          then (do handle_close_while_io i; pure (pos 0, []))
          else if not (d.flag_nonblock == 0) || not (bit_and flags msg_dontwait == 0)
          then would_block
          else sleep)

  unfoldable pub recv_wait : Schedule → ℕ → ℕ → ℕ → Cmd (ℤ × List ℕ)
  recv_wait [] i len flags = recv_round i len flags (λ s. asleep)
  recv_wait (env ∷ rest) i len flags =
      recv_round i len flags (sleep_then env (recv_wait rest i len flags))

  -- The second component is what was copied into the buffer.
  unfoldable pub recv : ℕ → ℕ → ℕ → Schedule → Cmd (ℤ × List ℕ)
  recv sockfd len flags schedule = do
    f ← get_fd_by_num sockfd
    elim f [
      | none ↦ (do set_errno ebadf; pure (failure, []))
      | some i ↦ (do
        d ← load_fd i
        if in_state s_open d
            then recv_wait schedule i len flags
            else (do set_errno ebadf; pure (failure, [])))
    ]

  unfoldable pub read : Kernel → ℕ → ℕ → Schedule → Cmd (ℤ × List ℕ)
  read kernel sockfd count schedule =
      if ltb sockfd fd_start
      then (do
        p ← get_process
        let r = kernel.sys_read sockfd count p.errno
        set_errno r.2
        pure (r.0, r.1))
      else recv sockfd count 0 schedule

  unfoldable pub write : Kernel → ℕ → List ℕ → ℕ → Cmd ℤ
  write kernel sockfd buf count =
      if ltb sockfd fd_start
      then system_call (kernel.sys_write sockfd buf count)
      else send sockfd buf count 0

  -- The loop of `sendmsg` over the pieces, each a buffer and a length. A negative result ends it;
  -- the bytes of the pieces before are sent then and not counted.
  unfoldable pub send_pieces : ℕ → ℕ → ℕ → List (List ℕ × ℕ) → Cmd ℤ
  send_pieces sockfd flags sent [] = pure (pos sent)
  send_pieces sockfd flags sent ((base, len) ∷ rest) = do
    r ← send sockfd base len flags
    elim r [ negsuc n ↦ pure failure | pos n ↦ send_pieces sockfd flags (sent + n) rest ]

  unfoldable pub sendmsg : ℕ → List (List ℕ × ℕ) → ℕ → Cmd ℤ
  sendmsg sockfd pieces flags = assert_fd_state sockfd (in_state s_open) λ i. (do
    d ← load_fd i
    c ← load_conn d.conn
    if conn_num c.conn_state == conn_num c_close
        then (do handle_close_while_io i; fail enotconn)
        else send_pieces sockfd flags 0 pieces)
