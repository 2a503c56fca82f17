-- ===== src/Socket/Transfer/Sending.antt =====
-- `send` on an open descriptor.
use shmsock.Base.{
  ℕ, ◌+◌, ◌<◌, ◌≤◌, ◌≡◌, refl, subst, ◌≢◌, false, List, [], ◌++◌, some, arith, ◌==◌, get_elem?, set,
  length, take, ◌^◌, get_elem?-set_self, lt_of_get_elem?,
}
use shmsock.Llist.{null}
use shmsock.Machine.{
  pos, failure, s_close, c_close, conn_num, enotconn, ebadf, Errno, Connection, Fd, State, External,
  ExternalLaws, mctx,
}
use shmsock.Machine.Cmd.{ok, Schedule, load_fd, load_conn, update_fd}
use shmsock.Fds.{find_fd, get_fd_by_num, handle_close_while_io, assert_fd_state}
use shmsock.Fds.Table.{IsTable-set, find_fd-some, find_fd-active}
use shmsock.Fds.Keeps.{Good, with_entry}
use shmsock.Connection.{sizeof_buffer_entry}
use shmsock.Connection.Stream.{Connected, incoming, outgoing}
use shmsock.Connection.Send.{send_connection_lem}
use shmsock.Socket.Transfer.{send, send_sized, recv}
use shmsock.Socket.Transfer.Drain.{Reads, int_of_size_lem}

abbrev pub set_error : State → Errno → State
set_error s e = record s { process = record s.process { errno = e } }

module _ (ext : External) (laws : ExternalLaws ext) (s : State) (sockfd i : ℕ) (d : Fd)
    (c : Connection) (h : Reads s sockfd i d c) (buf : List ℕ) (len flags : ℕ) where
  -- `send` on an open connection, with memory left, returns the length that it was given. The
  -- bytes stand behind all that the other side has not read yet, what comes the other way and the
  -- state are as before, and the malloc context is NULL.
  pub send_lem :
      len < 2 ^ 31
      → len ≤ length buf
      → c.conn_state ≢ c_close
      → ext.malloc (mctx c.associated_iface) s.memory (sizeof_buffer_entry + len) ≢ null
      → (s' : State) × (c' : Connection) × (send ext sockfd buf len flags s ≡ ok (pos len) s')
        × Connected s'.memory d.conn c'
        × (outgoing s.process.side s'.memory c'
            ≡ outgoing s.process.side s.memory c ++ take len buf)
        × (incoming s.process.side s'.memory c' ≡ incoming s.process.side s.memory c)
        × (c'.conn_state ≡ c.conn_state)
        × (s'.process ≡ record s.process { context = null })
  unfolding send send_sized assert_fd_state get_fd_by_num load_fd load_conn
  send_lem small fits open_c room =
      let (s', c', run, h', out, inc, st, i', fi, fc, fe, pr) =
        send_connection_lem ext laws s d.conn c h.connected buf len room fits in
      let e1 : (d.conn == null) ≡ false = ground (arith, h.connected.ne_null) in
      let e2 : (conn_num c.conn_state == conn_num c_close) ≡ false = ground (arith, open_c) in
      (
        s',
        c',
        simp (h.found, h.at, h.live, e1, h.connected.holds, e2, int_of_size_lem len s small, run),
        h',
        out,
        inc,
        st,
        pr,
      )

  -- `send` on a connection that the other side has closed fails with ENOTCONN and closes the
  -- descriptor. The memory is as before; but a `recv` that follows fails with EBADF, so what the
  -- other side sent before it closed can no longer be read.
  pub send_closed :
      (size flags' : ℕ) (schedule : Schedule)
      → Good s
      → c.conn_state ≡ c_close
      → let t = with_entry (set_error s enotconn) i (record d { state = s_close }) in
        (send ext sockfd buf len flags s ≡ ok failure t)
        × Connected t.memory d.conn c
        × (incoming s.process.side t.memory c ≡ incoming s.process.side s.memory c)
        × (recv ext sockfd size flags' schedule t ≡ ok (failure, []) (set_error t ebadf))
  unfolding send recv assert_fd_state get_fd_by_num load_fd load_conn update_fd
      handle_close_while_io
  send_closed size flags' schedule good closed =
      let e1 : (d.conn == null) ≡ false = ground (arith, h.connected.ne_null) in
      let d' : Fd = record d { state = s_close } in
      let (x, at_x, on_x, num) = find_fd-some sockfd s.process.fds i h.found in
      let at' : get_elem? (set s.process.fds i d') i ≡ some d' =
        get_elem?-set_self s.process.fds i d' (lt_of_get_elem? s.process.fds i h.at) in
      let found' : find_fd sockfd (set s.process.fds i d') ≡ some i =
        subst (λ n. find_fd n (set s.process.fds i d') ≡ some i) (ground (arith, h.at, at_x, num))
          (find_fd-active (IsTable-set good i d d' h.at refl (λ e. e)) i d' at'
            (ground (arith, h.at, at_x, on_x))) in
      (
        simp (h.found, h.at, h.live, e1, h.connected.holds, closed),
        h.connected,
        refl,
        simp (found', at'),
      )
