-- ===== src/Connection/Create.antt =====
-- `createNewConnection` and `createNewListenerConnection`: every field that is read later is set.
use shmsock.Base.{ℕ, ◌≡◌, refl, ◌≢◌, false, [], none, some, arith, ◌==◌, ==_refl, eq_of_==}
use shmsock.Llist.{Ptr, null, Llist}
use shmsock.Llist.Owned.{llist_new_lem}
use shmsock.Machine.{
  Side, server, client, c_create, c_listen, Connection, Block, State, mctx, External, ExternalLaws,
}
use shmsock.Machine.Sides.{
  set_recv_buffer, set_send_buffer, own_port, remote_port, set_own_port, set_remote_port,
}
use shmsock.Machine.Access.{update_self, update-update}
use shmsock.Machine.Cmd.{ok, update, update_conn, malloc_conn}
use shmsock.Connection.Stream.{Connected, IsBuffer}
use shmsock.Connection.{
  create_new_connection, create_new_listener_connection, clear_events, sizeof_connection,
}

-- An empty list in the context of an interface.
abbrev pub empty_list : Ptr → Llist
empty_list arena = record { list = record { items = []; arena = arena }; malloc_ctx = arena }

-- A connection with nothing on the way and no event, whatever malloc left in the block.
pub new_connection : Side → Ptr → ℕ → ℕ → Connection
new_connection side iface own remote = record {
  conn_state = c_create;
  associated_iface = iface;
  to_server = empty_list (mctx iface);
  to_client = empty_list (mctx iface);
  server_events = 0;
  client_events = 0;
  server_lt_events = 0;
  client_lt_events = 0;
  server_port = elim side [ server ↦ own | client ↦ remote ];
  client_port = elim side [ server ↦ remote | client ↦ own ];
}

fields_set :
    (side : Side) (junk : Connection) (iface : Ptr) (own remote : ℕ)
    → set_send_buffer side (empty_list (mctx iface)) (
        set_recv_buffer side (empty_list (mctx iface)) (
          clear_events (record (set_remote_port side remote (set_own_port side own junk)) {
            conn_state = c_create;
            associated_iface = iface;
          })))
      ≡ new_connection side iface own remote
unfolding new_connection
fields_set server junk iface own remote = refl
fields_set client junk iface own remote = refl

module _ (ext : External) (laws : ExternalLaws ext) (s : State) where
  module _ (iface : Ptr) (own remote : ℕ) where
    abbrev block : Ptr
    block = ext.malloc (mctx iface) s.memory sizeof_connection

    abbrev after_create : State
    after_create = record {
      memory = record s.memory {
        conns = update s.memory.conns block (
            some (record {
              arena = mctx iface;
              value = new_connection s.process.side iface own remote;
            }));
      };
      process = record s.process { context = null };
    }

    create_run : block ≢ null → create_new_connection ext iface own remote s ≡ ok block after_create
    unfolding create_new_connection malloc_conn update_conn
    create_run nn =
        let e1 : (block == null) ≡ false = ground arith in
        simp (e1, ==_refl, update-update, llist_new_lem ext.ll laws.ll_laws, fields_set)

    empty-IsBuffer : IsBuffer s.memory.entries (mctx iface) (empty_list (mctx iface))
    empty-IsBuffer = record { owned = refl; in_arena = refl; packets = tt; distinct = tt }

    new_ports :
        (side : Side)
        → (own_port side (new_connection side iface own remote) ≡ own)
          × (remote_port side (new_connection side iface own remote) ≡ remote)
    unfolding new_connection
    new_ports server = (refl, refl)
    new_ports client = (refl, refl)

    -- With memory left, `createNewConnection` takes a block in the context of the interface and
    -- makes it a well-formed connection in the state c_create, between the given ports as the
    -- calling side sees them, with both buffers empty and no event set, whatever the block held.
    -- The interfaces, the packets and the other connections are as before, and the malloc context
    -- is NULL.
    pub create_new_connection_lem :
        block ≢ null
        → (s' : State) × (c : Connection) × (create_new_connection ext iface own remote s
            ≡ ok block s')
          × Connected s'.memory block c
          × (s.memory.conns block ≡ none)
          × (c.conn_state ≡ c_create)
          × (c.associated_iface ≡ iface)
          × ((own_port s.process.side c ≡ own) × (remote_port s.process.side c ≡ remote))
          × ((c.to_server.list.items ≡ []) × (c.to_client.list.items ≡ []))
          × ((c.server_events ≡ 0)
              × (c.client_events ≡ 0)
              × (c.server_lt_events ≡ 0)
              × (c.client_lt_events ≡ 0))
          × (s'.memory.ifaces ≡ s.memory.ifaces)
          × (s'.memory.entries ≡ s.memory.entries)
          × ((q : Ptr) → q ≢ block → s'.memory.conns q ≡ s.memory.conns q)
          × (s'.process ≡ record s.process { context = null })
    unfolding new_connection
    create_new_connection_lem nn = (
      after_create,
      new_connection s.process.side iface own remote,
      create_run nn,
      record {
        ne_null = nn;
        holds = update_self s.memory.conns block _;
        to_server = empty-IsBuffer;
        to_client = empty-IsBuffer;
        apart = λ q i. cc;
      },
      laws.fresh_connection (mctx iface) s.memory sizeof_connection nn,
      refl,
      refl,
      new_ports s.process.side,
      (refl, refl),
      (refl, refl, refl, refl),
      refl,
      refl,
      (λ q ne. ground (arith, ne, eq_of_== block q)),
      refl,
    )

  -- A listener's connection is in no list and no interface: it carries events only.
  pub create_new_listener_connection_lem :
      ext.malloc s.process.context s.memory sizeof_connection ≢ null
      → (s' : State) × (b : Block Connection) × (create_new_listener_connection ext s
          ≡ ok (ext.malloc s.process.context s.memory sizeof_connection) s')
        × (s'.memory.conns (ext.malloc s.process.context s.memory sizeof_connection) ≡ some b)
        × (b.value.conn_state ≡ c_listen)
        × (b.value.associated_iface ≡ null)
        × ((b.value.server_events ≡ 0)
            × (b.value.client_events ≡ 0)
            × (b.value.server_lt_events ≡ 0)
            × (b.value.client_lt_events ≡ 0))
        × (s'.process ≡ s.process)
  unfolding create_new_listener_connection malloc_conn update_conn
  create_new_listener_connection_lem nn =
      let q = ext.malloc s.process.context s.memory sizeof_connection in
      let e1 : (q == null) ≡ false = ground arith in
      let b : Block Connection = record {
        arena = s.process.context;
        value = clear_events (record (ext.junk_connection q) {
          conn_state = c_listen;
          associated_iface = null;
          server_port = 0xffff_ffff;
          client_port = 0xffff_ffff;
        });
      } in
      (
        record s { memory = record s.memory { conns = update s.memory.conns q (some b) } },
        b,
        simp (e1, ==_refl, update-update),
        update_self s.memory.conns q (some b),
        refl,
        refl,
        (refl, refl, refl, refl),
        refl,
      )
