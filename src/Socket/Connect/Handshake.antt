-- ===== src/Socket/Connect/Handshake.antt =====
-- `connect` from its start to the acceptance by the other side.
use shmsock.Base.{
  ℕ, ◌+◌, ◌≡◌, refl, ap, ◌∙◌, subst, ◌≢◌, false, Option, none, some, arith, ◌==◌, get_elem?, set,
  get_elem?-set_self, lt_of_get_elem?, set-set, All-map,
}
use shmsock.Llist.{Ptr, null}
use shmsock.Machine.{
  pos, failure, s_created, s_connecting, s_open, c_open, einprogress, peer, Interface, Connection,
  Block, Memory, Fd, Process, State, SockaddrIn, mctx, External, ExternalLaws,
}
use shmsock.Machine.Sides.{remote_port}
use shmsock.Machine.Access.{update_self}
use shmsock.Machine.Cmd.{ok, Schedule, load_fd, update_fd}
use shmsock.Fds.{find_fd, get_fd_by_num, assert_fd_state}
use shmsock.Fds.Table.{IsTable-set, find_fd-some, find_fd-active}
use shmsock.Fds.Keeps.{Good, with_entry}
use shmsock.Interface.{get_interface_by_sockaddr}
use shmsock.Connection.{create_new_connection, accept_new_connection_on_iface, sizeof_connection}
use shmsock.Connection.Stream.{Connected}
use shmsock.Connection.Search.{IsInterface, Listed}
use shmsock.Connection.Create.{create_new_connection_lem}
use shmsock.Connection.Accept.{opened, offer, initiate_run, offer-accept}
use shmsock.Socket.Connect.{connect, connect_ex, connect_start, connect_wait, next_port}
use shmsock.Socket.Connect.Progress.{Connects, round_answer, wait_round, connect_ex_lem}

module _ (ext : External) (laws : ExternalLaws ext) where
  -- The connection at `p` and its interface, in the state `u` that `createNewConnection` left: the
  -- rest of `connectEx` up to the label wait_for_accept.
  abbrev waiting_fd : Fd → Ptr → Fd
  waiting_fd d p = record d { conn = p; state = s_connecting }

  abbrev waiting : State → State → ℕ → Fd → Ptr → Connection → Interface → State
  waiting s u i d p c f = record {
    memory = offer u.memory p c f;
    process = record u.process { fds = set s.process.fds i (waiting_fd d p) };
  }

  start_run :
      (s u : State) (i : ℕ) (d : Fd) (a : SockaddrIn) (q p : Ptr) (c : Connection) (f : Interface)
      (schedule : Schedule)
      → get_elem? s.process.fds i ≡ some d
      → get_interface_by_sockaddr a.sin_addr s ≡ ok q s
      → q ≢ null
      → create_new_connection ext q s.process.random_port a.sin_port
          (record s { process = record s.process { random_port = s.process.random_port + 1 } })
        ≡ ok p u
      → u.process.fds ≡ s.process.fds
      → Connected u.memory p c
      → IsInterface u.memory c.associated_iface f
      → connect_start ext i (some a) schedule s
        ≡ connect_wait ext schedule i (waiting s u i d p c f)
  unfolding connect_start next_port update_fd
  start_run s u i d a q p c f schedule at find ne run same h hf =
      let e1 : (q == null) ≡ false = ground (arith, ne) in
      let again : (x : Fd) → get_elem? (set s.process.fds i x) i ≡ some x =
        λ x. get_elem?-set_self s.process.fds i x (lt_of_get_elem? s.process.fds i at) in
      let offers =
        initiate_run ext laws
          (record u {
            process = record u.process { fds = set s.process.fds i (record d { conn = p }) };
          })
          p c f h hf in
      simp (find, e1, run, same, at, offers, again, set-set s.process.fds i)

  connect_run :
      (s : State) (sockfd i : ℕ) (d : Fd) (addr : Option SockaddrIn) (schedule : Schedule)
      → find_fd sockfd s.process.fds ≡ some i
      → get_elem? s.process.fds i ≡ some d
      → d.state ≡ s_created
      → connect ext sockfd addr schedule s ≡ connect_start ext i addr schedule s
  unfolding connect connect_ex assert_fd_state get_fd_by_num load_fd
  connect_run s sockfd i d addr schedule found at st = simp (found, at, st)

  -- A new connection changes nothing about an interface.
  IsInterface-create :
      (m m' : Memory) (q q' p : Ptr) (f : Interface)
      → IsInterface m q f
      → q' ≡ q
      → m'.ifaces ≡ m.ifaces
      → m.conns p ≡ none
      → ((x : Ptr) → x ≢ p → m'.conns x ≡ m.conns x)
      → IsInterface m' q' f
  IsInterface-create m m' q q' p f h e ifaces fresh others = record {
    ne_null = rw e h.ne_null;
    holds = rw (e, ifaces) h.holds;
    owned = h.owned;
    listed = All-map _ _ still f.connection_list.list.items h.listed;
  }
    where
      still : (x : Ptr) → Listed m x → Listed m' x
      still x (b, at, ne) = (b, others x (λ x_is_p. ground (arith, x_is_p, at, fresh)) ∙ at, ne)

  module _ (s : State) (sockfd i : ℕ) (d : Fd) (a : SockaddrIn) (q : Ptr) (f : Interface)
      (good : Good s) (found : find_fd sockfd s.process.fds ≡ some i)
      (at : get_elem? s.process.fds i ≡ some d) (made : d.state ≡ s_created)
      (now : d.flag_nonblock ≢ 0) (find : get_interface_by_sockaddr a.sin_addr s ≡ ok q s)
      (hf : IsInterface s.memory q f)
      (room : ext.malloc (mctx q) s.memory sizeof_connection ≢ null) where
    waiting_at :
        (u : State) (p : Ptr) (c : Connection)
        → get_elem? (set s.process.fds i (waiting_fd d p)) i ≡ some (waiting_fd d p)
    waiting_at u p c = get_elem?-set_self s.process.fds i _ (lt_of_get_elem? s.process.fds i at)

    found_again : (p : Ptr) → find_fd sockfd (set s.process.fds i (waiting_fd d p)) ≡ some i
    found_again p =
        let (x, at_x, on, num) = find_fd-some sockfd s.process.fds i found in
        subst (λ k. find_fd k (set s.process.fds i (waiting_fd d p)) ≡ some i)
          (ground (arith, at, at_x, num))
          (find_fd-active (IsTable-set good i d (waiting_fd d p) at refl (λ e. e)) i
            (waiting_fd d p)
            (get_elem?-set_self s.process.fds i _ (lt_of_get_elem? s.process.fds i at))
            (ground (arith, at, at_x, on)))

    -- The handshake. A `connect` that does not block, on a new descriptor, to an address that
    -- an interface has for the other side, with memory left: it fails with EINPROGRESS. Then the
    -- other side, accepting on that interface and the port of the address, gets the connection of
    -- this very descriptor, and after that `connectEx` returns 0 and the descriptor is open.
    pub connect-accept :
        (schedule : Schedule) (other : Process)
        → other.side ≡ peer s.process.side
        → (t : State) × (m' : Memory) × (p : Ptr) × (connect ext sockfd (some a) schedule s
            ≡ ok failure (record t { process = record t.process { errno = einprogress } }))
          × (accept_new_connection_on_iface ext q a.sin_port
                (record { memory = t.memory; process = other })
              ≡ ok p (record { memory = m'; process = other }))
          × (connect_ex ext sockfd (some a) schedule (record t { memory = m' })
              ≡ ok
                  (pos 0)
                  (with_entry (record t { memory = m' }) i (record d { conn = p; state = s_open })))
    connect-accept schedule other side =
        let s0 = record s {
          process = record s.process { random_port = s.process.random_port + 1 };
        } in
        let (u, c, run, h, fresh, st, ifc, ports, lists, ev, ifaces, entries, others, pr) =
          create_new_connection_lem ext laws s0 q s.process.random_port a.sin_port room in
        let p = ext.malloc (mctx q) s.memory sizeof_connection in
        let hf' : IsInterface u.memory c.associated_iface f =
          IsInterface-create s.memory u.memory q c.associated_iface p f hf ifc ifaces fresh
            others in
        let same : u.process.fds ≡ s.process.fds = ap (λ (z : Process). z.fds) pr in
        let t = waiting s u i d p c f in
        let block : Block Connection = record { arena = mctx c.associated_iface; value = c } in
        let m' = opened t.memory p block in
        let connects : Connects t i (waiting_fd d p) block = record {
          at = waiting_at u p c;
          live = refl;
          ne_null = h.ne_null;
          holds = h.holds;
        } in
        let shake =
          offer-accept ext laws (record { memory = u.memory; process = s.process }) p c f h hf'
            other st side in
        let accepts : Ptr → ℕ → Type 0 = λ x k.
          accept_new_connection_on_iface ext x k (record { memory = t.memory; process = other })
          ≡ ok p (record { memory = m'; process = other }) in
        let e1 : (d.flag_nonblock == 0) ≡ false = ground (arith, now) in
        (
          t,
          m',
          p,
          connect_run s sockfd i d (some a) schedule found at made
              ∙ start_run s u i d a q p c f schedule at find hf.ne_null run same h hf'
              ∙ wait_round ext i schedule t
              ∙ round_answer ext i schedule t (waiting_fd d p) block connects
              ∙ simp (st, e1),
          subst (λ k. accepts q k) ports.1
              (subst (λ x. accepts x (remote_port s.process.side c)) ifc shake.2),
          connect_ex_lem ext i (record t { memory = m' }) sockfd (waiting_fd d p)
              (record block { value = record c { conn_state = c_open } }) (some a) schedule
              (found_again p)
              (record {
                at = waiting_at u p c;
                live = refl;
                ne_null = h.ne_null;
                holds = update_self t.memory.conns p _;
              }),
        )
