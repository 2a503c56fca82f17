-- ===== src/Socket/Accept.antt =====
-- `accept` and `accept4` of socket.c.
pub mod Handover
use shmsock.Base.{
  ℕ, ◌+◌, ◌≡◌, Bool, true, false, List, [], ◌∷◌, Option, none, some, if◌then◌else◌, ◌==◌, not,
  bit_and,
}
use shmsock.Llist.{Ptr, null}
use shmsock.Machine.{
  ℤ, pos, failure, s_listen, s_open, s_close, eagain, ebadf, SockaddrIn, External, State,
}
use shmsock.Machine.Cmd.{
  Run, ok, fault, asleep, Cmd, Schedule, pure, ◌>>=◌, ◌>>◌, get_process, set_errno, load_fd,
  update_fd,
}
use shmsock.Fds.{get_fd_by_num, get_empty_fd, in_state, next_fd_num, sleep_then}
use shmsock.Connection.{accept_new_connection_on_any_iface}
use shmsock.Socket.Setup.{sock_nonblock}
use shmsock.Socket.Control.{getpeername}

module _ (ext : External) where
  -- One look for a connection, and what is done where there is none: `sleep` is what follows the
  -- sleep. `none` means that `errno` is set and that the call returns -1.
  unfoldable pub accept_round : ℕ → Cmd (Option Ptr) → Cmd (Option Ptr)
  accept_round i sleep = do
    d ← load_fd i
    c ← accept_new_connection_on_any_iface ext d.listen_address d.listen_port
    if not (c == null) then pure (some c) else (do
      e ← load_fd i
      if not (e.flag_nonblock == 0)
          then (do set_errno eagain; pure none)
          else if in_state s_close e
          then (do set_errno ebadf; pure none)
          else sleep)

  unfoldable pub accept_wait : Schedule → ℕ → Cmd (Option Ptr)
  accept_wait [] i = accept_round i (λ s. asleep)
  accept_wait (env ∷ rest) i = accept_round i (sleep_then env (accept_wait rest i))

  -- A descriptor for the accepted connection. The check of the new entry tests the listener's
  -- instead, which is not NULL here; with no free entry the write goes through NULL.
  unfoldable pub accept_fd : Ptr → ℕ → Option SockaddrIn → Cmd (ℤ × Option SockaddrIn)
  accept_fd c flags addr = do
    f ← get_empty_fd
    elim f [
      | none ↦ λ s. fault
      | some j ↦ (do
        n ← next_fd_num
        update_fd j λ d. record d {
          num = n;
          state = s_open;
          conn = c;
          flag_nonblock = bit_and flags sock_nonblock;
        }
        r ← getpeername n addr
        pure (pos n, r.1))
    ]

  -- The second component is what `addr` points to afterwards; none for NULL.
  unfoldable pub accept4 : ℕ → Option SockaddrIn → ℕ → Schedule → Cmd (ℤ × Option SockaddrIn)
  accept4 sockfd addr flags schedule = do
    f ← get_fd_by_num sockfd
    elim f [
      | none ↦ (do set_errno ebadf; pure (failure, addr))
      | some i ↦ (do
        d ← load_fd i
        if not (in_state s_listen d) then (do set_errno ebadf; pure (failure, addr)) else (do
          r ← accept_wait schedule i
          elim r [ none ↦ pure (failure, addr) | some c ↦ accept_fd c flags addr ]))
    ]

  unfoldable pub accept : ℕ → Option SockaddrIn → Schedule → Cmd (ℤ × Option SockaddrIn)
  accept sockfd addr schedule = accept4 sockfd addr 0 schedule
