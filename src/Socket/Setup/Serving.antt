-- ===== src/Socket/Setup/Serving.antt =====
-- `socket`, `bind` and `listen` in a row.
use shmsock.Base.{
  ℕ, ◌+◌, ◌<◌, ◌≡◌, refl, ap, subst, ◌≢◌, true, false, some, arith, leb, bit_and, get_elem?, set,
  get_elem?-set_self, lt_of_get_elem?, set-set,
}
use shmsock.Llist.{null}
use shmsock.Machine.{
  pos, s_created, s_bound, s_listen, c_listen, Block, Connection, Fd, Process, State, SockaddrIn,
  External, ExternalLaws,
}
use shmsock.Machine.Cmd.{ok, load_fd, update_fd}
use shmsock.Fds.{find_fd, find_empty, get_fd_by_num, assert_fd_state, pollfd_start}
use shmsock.Fds.Table.{IsTable-new, find_fd-active, find_empty-some}
use shmsock.Fds.Keeps.{Good}
use shmsock.Fds.Keeps.Fresh.{new_fd-some}
use shmsock.Connection.{sizeof_connection}
use shmsock.Connection.Create.{create_new_listener_connection_lem}
use shmsock.Socket.Setup.{socket, bind, listen, af_inet, sock_stream, sock_nonblock, type_mask}

module _ (s : State) (type protocol j : ℕ) (good : Good s)
    (stream : bit_and type type_mask ≡ sock_stream) (left : s.process.current_max_fd < pollfd_start)
    (free : find_empty s.process.fds ≡ some j) where
  abbrev pub n : ℕ
  n = s.process.current_max_fd

  abbrev pub with_fd : Fd → State
  with_fd d = record s {
    process = record s.process { current_max_fd = n + 1; fds = set s.process.fds j d };
  }

  pub at_fd : (d : Fd) → get_elem? (set s.process.fds j d) j ≡ some d
  at_fd d =
      let (e, at, off) = find_empty-some s.process.fds j free in
      get_elem?-set_self s.process.fds j d (lt_of_get_elem? s.process.fds j at)

  pub found_fd : (d : Fd) → d.num ≡ n → d.active ≡ true → find_fd n (set s.process.fds j d) ≡ some j
  found_fd d num on =
      subst (λ k. find_fd k (set s.process.fds j d) ≡ some j) num
        (find_fd-active (IsTable-new good j d num) j d (at_fd d) on)

  -- The new descriptor, over what the entry held.
  abbrev pub created : Fd → Fd
  created e = record e {
    num = n;
    state = s_created;
    conn = null;
    flag_nonblock = bit_and type sock_nonblock;
    active = true;
  }

  pub socket_run :
      (e : Fd)
      → get_elem? s.process.fds j ≡ some e
      → socket af_inet type protocol s ≡ ok (pos n) (with_fd (created e))
  unfolding socket
  socket_run e at =
      let e1 : leb pollfd_start s.process.current_max_fd ≡ false = ground (arith, left) in
      simp (stream, e1) (new_fd-some _ _ _ s j e free at)

  bind_run :
      (d : Fd) (a : SockaddrIn)
      → d.num ≡ n
      → d.active ≡ true
      → d.state ≡ s_created
      → bind n (some a) (with_fd d)
        ≡ ok (pos 0) (
            with_fd
              (record d { listen_port = a.sin_port; listen_address = a.sin_addr; state = s_bound }))
  unfolding bind assert_fd_state get_fd_by_num load_fd update_fd
  bind_run d a num on st = simp (found_fd d num on, at_fd d, st, set-set s.process.fds j)

  -- With a number below POLLFD_START, a free entry and memory left: `socket` returns the next
  -- number, and `bind` and `listen` on it succeed one after the other. Then the number belongs to a
  -- descriptor that listens on the address and port of `bind`, with a connection of its own in the
  -- state c_listen and the O_NONBLOCK of the type; the table is as it should be.
  pub serving_lem :
      (ext : External) (laws : ExternalLaws ext) (a : SockaddrIn) (backlog : ℕ)
      → ext.malloc s.process.context s.memory sizeof_connection ≢ null
      → (s1 : State) × (s2 : State) × (s3 : State) × (d : Fd) × (b : Block Connection) × (socket
            af_inet type protocol s
          ≡ ok (pos n) s1)
        × (bind n (some a) s1 ≡ ok (pos 0) s2)
        × (listen ext n backlog s2 ≡ ok (pos 0) s3)
        × (find_fd n s3.process.fds ≡ some j)
        × (get_elem? s3.process.fds j ≡ some d)
        × ((d.state ≡ s_listen)
            × (d.listen_port ≡ a.sin_port)
            × (d.listen_address ≡ a.sin_addr)
            × (d.flag_nonblock ≡ bit_and type sock_nonblock))
        × (s3.memory.conns d.conn ≡ some b)
        × (b.value.conn_state ≡ c_listen)
        × Good s3
  unfolding listen assert_fd_state get_fd_by_num load_fd update_fd
  serving_lem ext laws a backlog room =
      let (e, at, off) = find_empty-some s.process.fds j free in
      let d1 = created e in
      let d2 : Fd = record d1 {
        listen_port = a.sin_port;
        listen_address = a.sin_addr;
        state = s_bound;
      } in
      let (u, b, run, at_c, st, ifc, ev, pr) =
        create_new_listener_connection_lem ext laws (with_fd d2) room in
      let p = ext.malloc s.process.context s.memory sizeof_connection in
      let d3 : Fd = record d2 { conn = p; state = s_listen } in
      let same : u.process.fds ≡ set s.process.fds j d2 = ap (λ (q : Process). q.fds) pr in
      let next : u.process.current_max_fd ≡ n + 1 = ap (λ (q : Process). q.current_max_fd) pr in
      (
        with_fd d1,
        with_fd d2,
        record u { process = record u.process { fds = set s.process.fds j d3 } },
        d3,
        b,
        socket_run e at,
        bind_run d1 a refl refl refl,
        simp (found_fd d2 refl refl, at_fd d2, run, same, set-set s.process.fds j),
        found_fd d3 refl refl,
        at_fd d3,
        (refl, refl, refl, refl),
        at_c,
        st,
        rw next (IsTable-new good j d3 refl),
      )
