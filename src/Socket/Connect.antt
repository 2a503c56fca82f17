-- ===== src/Socket/Connect.antt =====
-- `connect` and `connectEx` of socket.c.
pub mod Progress
pub mod Handshake
use shmsock.Base.{
  ℕ, ◌+◌, ◌≡◌, Bool, true, false, List, [], ◌∷◌, Option, none, some, if◌then◌else◌, ◌==◌, not, ◌||◌,
}
use shmsock.Llist.{Ptr, null}
use shmsock.Machine.{
  ℤ, pos, failure, s_created, s_connecting, s_open, enetunreach, econnrefused, einprogress,
  ealready, SockaddrIn, External, State,
}
use shmsock.Machine.Cmd.{
  Run, ok, fault, asleep, Cmd, Schedule, pure, ◌>>=◌, ◌>>◌, get_process, put_process, set_errno,
  load_fd, update_fd, or_fault,
}
use shmsock.Fds.{fail, in_state, assert_fd_state, sleep_then}
use shmsock.Interface.{get_interface_by_sockaddr}
use shmsock.Connection.{
  create_new_connection, initiate_new_connection, check_if_accepted_connection,
  check_if_closed_connection,
}

-- randomPort++
unfoldable pub next_port : Cmd ℕ
next_port = do
  p ← get_process
  put_process (record p { random_port = p.random_port + 1 })
  pure p.random_port

module _ (ext : External) where
  -- One look at the connection: `sleep` is what follows the sleep.
  unfoldable pub connect_round : ℕ → Cmd ℤ → Cmd ℤ
  connect_round i sleep = do
    d ← load_fd i
    accepted ← check_if_accepted_connection ext d.conn
    if accepted then (do update_fd i (λ e. record e { state = s_open }); pure (pos 0)) else (do
      closed ← check_if_closed_connection ext d.conn
      if closed
          then fail econnrefused
          else if not (d.flag_nonblock == 0)
          then fail einprogress
          else sleep)

  unfoldable pub connect_wait : Schedule → ℕ → Cmd ℤ
  connect_wait [] i = connect_round i (λ s. asleep)
  connect_wait (env ∷ rest) i = connect_round i (sleep_then env (connect_wait rest i))

  -- Making the connection and offering it; then the label wait_for_accept.
  unfoldable pub connect_start : ℕ → Option SockaddrIn → Schedule → Cmd ℤ
  connect_start i addr schedule = do
    a ← or_fault addr
    iface ← get_interface_by_sockaddr a.sin_addr
    if iface == null then fail enetunreach else (do
      port ← next_port
      p ← create_new_connection ext iface port a.sin_port
      update_fd i (λ d. record d { conn = p })
      initiate_new_connection ext p
      update_fd i (λ d. record d { state = s_connecting })
      connect_wait schedule i)

  unfoldable pub connect_ex : ℕ → Option SockaddrIn → Schedule → Cmd ℤ
  connect_ex sockfd addr schedule =
      assert_fd_state sockfd (λ d. in_state s_created d || in_state s_connecting d)
        λ i. (do
          d ← load_fd i
          if in_state s_connecting d
              then connect_wait schedule i
              else connect_start i addr schedule)

  unfoldable pub connect : ℕ → Option SockaddrIn → Schedule → Cmd ℤ
  connect sockfd addr schedule =
      assert_fd_state sockfd (λ d. in_state s_created d || in_state s_connecting d)
        λ i. (do
          d ← load_fd i
          if in_state s_connecting d then fail ealready else connect_ex sockfd addr schedule)
