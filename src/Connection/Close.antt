-- ===== src/Connection/Close.antt =====
-- `closeConnection` and `removeConnection`: the side that closes first marks the connection, the one
-- that closes last takes it out of the list and frees it.
use shmsock.Base.{
  ◌≡◌, refl, ◌≢◌, ◌⊎◌, true, false, none, some, arith, ◌==◌, ◌||◌, ==_refl, eq_of_==, All-map,
  bit_or,
}
use shmsock.Llist.{Ptr, null, Llist}
use shmsock.Llist.Owned.{with_items}
use shmsock.Machine.{
  Side, server, client, peer, c_create, c_close, conn_num, Interface, Connection, Memory, State,
  External, ExternalLaws, mctx,
}
use shmsock.Machine.Access.{update_self, update-update}
use shmsock.Machine.Cmd.{ok, update, update_conn, load_conn, load_iface, update_iface, free_conn}
use shmsock.Connection.Stream.{
  Connected, incoming, outgoing, Connected-of_sides, send-IsBuffer, recv-IsBuffer, recv-Apart,
}
use shmsock.Connection.Search.{IsInterface}
use shmsock.Llist.Remove.{NonNull, erase, remove-erase_form}
use shmsock.Connection.{
  close_connection, remove_connection, malloc_in_conn, set_remote_event, epollhup,
}
use shmsock.Machine.Sides.{
  own_events, remote_events, set_remote_events, recv_buffer, send_buffer, set_recv_buffer,
  set_send_buffer,
}

-- The connection as the first to close leaves it.
pub conn_closed : Side → Connection → Connection
conn_closed side c =
    let d = record c { conn_state = c_close } in
    set_remote_events side (bit_or (remote_events side d) epollhup) d

conn_closed_lem :
    (side : Side) (c : Connection)
    → (recv_buffer side (conn_closed side c) ≡ recv_buffer side c)
      × (send_buffer side (conn_closed side c) ≡ send_buffer side c)
      × ((conn_closed side c).conn_state ≡ c_close)
      × ((conn_closed side c).associated_iface ≡ c.associated_iface)
      × (own_events (peer side) (conn_closed side c) ≡ bit_or (own_events (peer side) c) epollhup)
unfolding conn_closed
conn_closed_lem server c = (refl, refl, refl, refl, refl)
conn_closed_lem client c = (refl, refl, refl, refl, refl)

set_recv-iface :
    (side : Side) (l : Llist) (c : Connection)
    → (set_recv_buffer side l c).associated_iface ≡ c.associated_iface
set_recv-iface server l c = refl
set_recv-iface client l c = refl

set_send-iface :
    (side : Side) (l : Llist) (c : Connection)
    → (set_send_buffer side l c).associated_iface ≡ c.associated_iface
set_send-iface server l c = refl
set_send-iface client l c = refl

module _ (ext : External) (laws : ExternalLaws ext) (s : State) (p : Ptr) (c : Connection)
    (h : Connected s.memory p c) where
  -- Neither closed nor still waiting to be accepted.
  abbrev pub IsLive : Type 0
  IsLive = (c.conn_state ≢ c_close) × (c.conn_state ≢ c_create)

  close_first_run :
      IsLive
      → close_connection ext p s
        ≡ ok tt (record s {
          memory = record s.memory {
            conns = update s.memory.conns p (
                some (record {
                  arena = mctx c.associated_iface;
                  value = conn_closed s.process.side c;
                }));
          };
        })
  unfolding close_connection set_remote_event load_conn update_conn conn_closed
  close_first_run (not_closed, not_new) =
      let e1 : (p == null) ≡ false = ground (arith, h.ne_null) in
      let e2 : (conn_num c.conn_state == conn_num c_close) ≡ false = ground (arith, not_closed) in
      let e3 : (conn_num c.conn_state == conn_num c_create) ≡ false = ground (arith, not_new) in
      simp (e1, e2, e3, h.holds, ==_refl, update-update)

  module _ (i : Interface) (hi : IsInterface s.memory c.associated_iface i) where
    abbrev memory_removed : Memory
    memory_removed = record s.memory {
      ifaces = update s.memory.ifaces c.associated_iface (
          some (record i {
            connection_list = with_items i.connection_list (erase p i.connection_list.list.items);
          }));
      conns = update s.memory.conns p none;
    }

    remove_run :
        remove_connection ext p s
        ≡ ok true
            (record { memory = memory_removed; process = record s.process { context = null } })
    unfolding remove_connection malloc_in_conn load_conn load_iface update_iface update_conn
        free_conn
    remove_run =
        let e1 : (p == null) ≡ false = ground (arith, h.ne_null) in
        let e2 : (c.associated_iface == null) ≡ false = ground (arith, hi.ne_null) in
        let nn : NonNull i.connection_list.list.items =
          All-map _ _ (λ q k. k.2) i.connection_list.list.items hi.listed in
        simp (
          e1,
          e2,
          h.holds,
          hi.holds,
          ==_refl,
          update-update,
          set_recv-iface,
          set_send-iface,
          remove-erase_form ext.ll laws.ll_laws i.connection_list hi.owned p s.process.context nn,
        )

    -- `closeConnection` on a connection that the other side has closed, or that was never
    -- accepted, takes it out of the list of its interface and frees it, in the malloc context that
    -- it was allocated in; there is no fault. The other interfaces, connections and packets are as
    -- before, and the malloc context is NULL.
    pub close_last_lem :
        (c.conn_state ≡ c_close) ⊎ (c.conn_state ≡ c_create)
        → (s' : State) × (close_connection ext p s ≡ ok tt s')
          × (s'.memory.conns p ≡ none)
          × (s'.memory.ifaces c.associated_iface
              ≡ some (record i {
                connection_list =
                    with_items i.connection_list (erase p i.connection_list.list.items);
              }))
          × ((q : Ptr) → q ≢ p → s'.memory.conns q ≡ s.memory.conns q)
          × ((q : Ptr) → q ≢ c.associated_iface → s'.memory.ifaces q ≡ s.memory.ifaces q)
          × (s'.memory.entries ≡ s.memory.entries)
          × (s'.process ≡ record s.process { context = null })
    unfolding close_connection load_conn
    close_last_lem over =
        let e1 : (p == null) ≡ false = ground (arith, h.ne_null) in
        let e2 : (conn_num c.conn_state == conn_num c_close
              || conn_num c.conn_state == conn_num c_create)
            ≡ true =
          ground arith in
        (
          record { memory = memory_removed; process = record s.process { context = null } },
          simp (e1, h.holds, e2, remove_run),
          update_self s.memory.conns p none,
          update_self s.memory.ifaces c.associated_iface _,
          (λ q ne. ground (arith, ne, eq_of_== p q)),
          (λ q ne. ground (arith, ne, eq_of_== c.associated_iface q)),
          refl,
          refl,
        )

  -- The first side to close a live connection only marks it: the state is c_close, the other side
  -- is told by EPOLLHUP in its events, and all bytes on the way in both directions are still there
  -- to be read. Nothing is freed, and the interfaces, the packets, the other connections and
  -- the process are as before.
  pub close_first_lem :
      IsLive
      → (s' : State) × (c' : Connection) × (close_connection ext p s ≡ ok tt s')
        × Connected s'.memory p c'
        × (c'.conn_state ≡ c_close)
        × (own_events (peer s.process.side) c'
            ≡ bit_or (own_events (peer s.process.side) c) epollhup)
        × (incoming s.process.side s'.memory c' ≡ incoming s.process.side s.memory c)
        × (outgoing s.process.side s'.memory c' ≡ outgoing s.process.side s.memory c)
        × (c'.associated_iface ≡ c.associated_iface)
        × (s'.memory.ifaces ≡ s.memory.ifaces)
        × (s'.memory.entries ≡ s.memory.entries)
        × ((q : Ptr) → q ≢ p → s'.memory.conns q ≡ s.memory.conns q)
        × (s'.process ≡ s.process)
  close_first_lem live =
      let side = s.process.side in
      let facts = conn_closed_lem side c in
      let m = record s.memory {
        conns =
            update s.memory.conns p
              (some (record { arena = mctx c.associated_iface; value = conn_closed side c }));
      } in
      (
        record s { memory = m },
        conn_closed side c,
        close_first_run live,
        Connected-of_sides side m p (conn_closed side c) h.ne_null
            (rw facts.3 (update_self s.memory.conns p _))
            (rw (facts.0, facts.3) (recv-IsBuffer h side))
            (rw (facts.1, facts.3) (send-IsBuffer h side))
            (rw (facts.0, facts.1) (recv-Apart h side)),
        facts.2,
        facts.4,
        rw facts.0,
        rw facts.1,
        facts.3,
        refl,
        refl,
        (λ q ne. ground (arith, ne, eq_of_== p q)),
        refl,
      )
