-- ===== src/Waiting/Offers.antt =====
-- Listeners on sockets that are not open: new ones, listening ones and those that connect.
use shmsock.Base.{
  ℕ, ◌<◌, ◌≡◌, refl, ◌∙◌, ◌≢◌, inl, inr, true, false, [], ◌∷◌, none, some, arith, ◌==◌, ◌||◌,
  get_elem?, bit_or, Bool-cases, ==_refl, All,
}
use shmsock.Base.Bits.{input_set}
use shmsock.Llist.{null}
use shmsock.Machine.{
  Side, server, client, ℤ, pos, c_open, s_listen, s_connecting, s_open, EventListenFd, Epollfd, Fd,
  Connection, Block, State, External, ExternalLaws, Kernel,
}
use shmsock.Machine.Sides.{
  own_address, own_events, set_own_events, own_lt_events, set_own_lt_events,
}
use shmsock.Machine.Access.{update_self, update-update}
use shmsock.Machine.Cmd.{ok, fault, Schedule, update, load_fd, load_conn, update_conn}
use shmsock.Fds.{in_state, find_fd}
use shmsock.Fds.Keeps.{with_entry}
use shmsock.Pollfds.{find_pollfd, load_pollfd}
use shmsock.Listeners.{set_level_triggered_events}
use shmsock.Connection.{epollin, check_if_accepted_connection}
use shmsock.Connection.AnyIface.{Slot, any_pending, search-accept}
use shmsock.Socket.Connect.Progress.{Connects, connect_ex_lem}
use shmsock.Waiting.{
  epoll_wait, visit_listener, check_and_set_events, check_level, check_edge, check_listen,
  check_connecting, set_input, event_of, clear_event,
}
use shmsock.Waiting.Single.{Only, wait_event, wait_fault}

module _ (n : ℕ) (c : Connection) where
  own-set : (k : Side) → own_events k (set_own_events k n c) ≡ n
  own-set server = refl
  own-set client = refl

  lt-set : (k : Side) → own_lt_events k (set_own_lt_events k n c) ≡ n
  lt-set server = refl
  lt-set client = refl

  own_lt-set_own : (k : Side) → own_lt_events k (set_own_events k n c) ≡ own_lt_events k c
  own_lt-set_own server = refl
  own_lt-set_own client = refl

  own-set_lt : (k : Side) → own_events k (set_own_lt_events k n c) ≡ own_events k c
  own-set_lt server = refl
  own-set_lt client = refl

module _ (n : ℕ) (c : Connection) where
  state-set_own : (k : Side) → (set_own_events k n c).conn_state ≡ c.conn_state
  state-set_own server = refl
  state-set_own client = refl

  state-set_lt : (k : Side) → (set_own_lt_events k n c).conn_state ≡ c.conn_state
  state-set_lt server = refl
  state-set_lt client = refl

ruleset mask_rules = (own-set, lt-set, own_lt-set_own, own-set_lt)

module _ (ext : External) (kernel : Kernel) (epfd k j max : ℕ) (s : State) (e : Epollfd)
    (l : EventListenFd) (h : Only s k j e l) (room : 0 < max)
    (found : find_pollfd epfd s.process.pollfds ≡ some k) (d : Fd)
    (at : get_elem? s.process.fds l.fd ≡ some d) (live : d.active ≡ true) where
  visit_unconnected :
      in_state s_listen d ≡ false
      → in_state s_connecting d ≡ false
      → d.conn ≡ null
      → visit_listener ext k j [] s ≡ fault
  unfolding visit_listener load_pollfd load_fd check_and_set_events check_level check_edge
      set_level_triggered_events load_conn update_conn
  visit_unconnected no_listen no_connect no_conn = elim (Bool-cases l.is_level_triggered) [
    | inl lt ↦ simp (h.at_k, h.at_j, h.on, at, live, no_listen, no_connect, lt, no_conn)
    | inr et ↦ simp (h.at_k, h.at_j, h.on, at, live, no_listen, no_connect, et, no_conn)
  ]

  -- A descriptor that has no connection yet, as `socket` leaves it, with its listener the only
  -- active one: `epoll_wait` with room for an event goes through NULL, for level-triggered and for edge-triggered
  -- listeners.
  pub unconnected_faults :
      (timeout : ℤ) (schedule : Schedule)
      → in_state s_listen d ≡ false
      → in_state s_connecting d ≡ false
      → d.conn ≡ null
      → epoll_wait ext kernel epfd max timeout schedule s ≡ fault
  unconnected_faults timeout schedule no_listen no_connect no_conn =
      wait_fault ext kernel epfd k j max s e l h room found timeout schedule
        (visit_unconnected no_listen no_connect no_conn)

  module _ (b : Block Connection) (ne : d.conn ≢ null)
      (holds : s.memory.conns d.conn ≡ some b) where
    -- The state with another connection in the block.
    abbrev with_conn : Connection → State
    with_conn c = record s {
      memory = record s.memory {
        conns = update s.memory.conns d.conn (some (record b { value = c }));
      };
    }

    -- Both masks get EPOLLIN, and then it is read off whatever the listener listens to.
    input_check :
        (in_state s_listen d || in_state s_connecting d) ≡ true
        → (c : Connection) × (u : State) × (set_input d.conn s ≡ ok tt u)
          × (check_and_set_events ext l epollin [] u ≡ ok (event_of l epollin ∷ []) (with_conn c))
          × (c.conn_state ≡ b.value.conn_state)
    unfolding set_input check_and_set_events check_level check_edge load_fd load_conn update_conn
    input_check special =
        let e1 : (d.conn == null) ≡ false = ground (arith, ne) in
        let side = s.process.side in
        let both =
          set_own_lt_events side (bit_or (own_lt_events side b.value) epollin)
            (set_own_events side (bit_or (own_events side b.value) epollin) b.value) in
        elim (Bool-cases l.is_level_triggered) [
          | inl lt ↦ (
            both,
            with_conn both,
            simp (e1, holds, mask_rules, update-update, ==_refl),
            simp (lt, at, e1, holds, special, mask_rules, input_set, update-update, ==_refl),
            rw (state-set_lt, state-set_own) refl,
          )
          | inr et ↦ (
            set_own_events side (clear_event (bit_or (own_events side b.value) epollin) epollin)
                both,
            with_conn both,
            simp (e1, holds, mask_rules, update-update, ==_refl),
            simp (et, at, e1, holds, special, mask_rules, input_set, update-update, ==_refl),
            rw (state-set_own, state-set_lt, state-set_own) refl,
          )
        ]

    -- A listening socket with a connection to accept, its address not 0, and its listener the only
    -- active one of an epoll descriptor that is not mixed: `epoll_wait` with room for an event
    -- reports EPOLLIN, at once, also where the listener does not listen to
    -- it.
    pub listening_reports :
        (laws : ExternalLaws ext) (timeout : ℤ) (schedule : Schedule)
        → in_state s_listen d ≡ true
        → d.listen_address ≢ 0
        → All (Slot s.memory) s.process.interfaces
        → any_pending s.memory s.process.side d.listen_port
            (λ i. own_address s.process.side i == d.listen_address)
            s.process.interfaces
          ≢ null
        → (c : Connection) × (epoll_wait ext kernel epfd max timeout schedule s
            ≡ ok (pos 1, event_of l epollin ∷ []) (with_conn c))
    unfolding visit_listener check_listen load_pollfd load_fd
    listening_reports laws timeout schedule listens ne_zero slots offered =
        let (c, u, sets, checks, same) = input_check (rw listens refl) in
        let (search, accepts) =
          search-accept ext laws s d.listen_address d.listen_port slots ne_zero in
        let some_conn : (any_pending s.memory s.process.side d.listen_port
                (λ i. own_address s.process.side i == d.listen_address) s.process.interfaces
              == null)
            ≡ false =
          ground (arith, offered) in
        let visit : visit_listener ext k j [] s ≡ ok (event_of l epollin ∷ []) (with_conn c) =
          simp (h.at_k, h.at_j, h.on, at, live, listens, search, some_conn, sets, checks) in
        (
          c,
          wait_event ext kernel epfd k j max s e l h room found timeout schedule _ (with_conn c)
              visit refl,
        )

    -- A socket that connects, whose connection has been accepted, its listener the only active one
    -- of an epoll descriptor that is not mixed: `epoll_wait` with room for an event reports
    -- EPOLLIN, at once, also where the listener listens to EPOLLOUT alone,
    -- and the descriptor is open from then on.
    pub connecting_opens :
        (timeout : ℤ) (schedule : Schedule)
        → d.state ≡ s_connecting
        → b.value.conn_state ≡ c_open
        → find_fd d.num s.process.fds ≡ some l.fd
        → (c : Connection) × (epoll_wait ext kernel epfd max timeout schedule s
            ≡ ok
                (pos 1, event_of l epollin ∷ [])
                (with_entry (with_conn c) l.fd (record d { state = s_open })))
    unfolding visit_listener check_connecting check_if_accepted_connection load_pollfd load_fd
        load_conn
    connecting_opens timeout schedule connects opened own =
        let (c, u, sets, checks, same) = input_check (rw connects refl) in
        let e1 : (d.conn == null) ≡ false = ground (arith, ne) in
        let ready : Connects (with_conn c) l.fd d (record b { value = c }) = record {
          at = at;
          live = connects;
          ne_null = ne;
          holds = update_self s.memory.conns d.conn _;
        } in
        let opens =
          connect_ex_lem ext l.fd (with_conn c) d.num d (record b { value = c }) none [] own
            ready in
        let open_now : c.conn_state ≡ c_open = same ∙ opened in
        let t = with_entry (with_conn c) l.fd (record d { state = s_open }) in
        let visit : visit_listener ext k j [] s ≡ ok (event_of l epollin ∷ []) t = simp (
          h.at_k, h.at_j, h.on, at, live, connects, e1, holds, opened, sets, checks, opens,
          open_now,
        ) in
        (c, wait_event ext kernel epfd k j max s e l h room found timeout schedule _ t visit refl)
