-- ===== src/Connection.antt =====
-- util.c, the part on connections: making, offering, accepting and closing a connection, and the
-- packets that go through it.
pub mod Stream
pub mod Send
pub mod Recv
pub mod Received
pub mod Reading
pub mod World
pub mod Traffic
pub mod Create
pub mod Search
pub mod Accept
pub mod AnyIface
pub mod Keeps
pub mod Close
use shmsock.Base.{
  ℕ, zero, suc, ◌+◌, ◌-◌, ◌≡◌, Bool, true, false, List, [], ◌∷◌, Option, none, some, if◌then◌else◌,
  ◌==◌, leb, ◌&&◌, ◌||◌, not, bit_or, drop,
}
use shmsock.Llist.{
  Ptr, null, Llist, llist_len, llist_new, llist_delete, llist_insert_first, llist_insert_last,
  llist_remove, llist_remove_first, llist_get_n, llist_get_first, has_data_list,
}
use shmsock.Machine.{
  Side, c_create, c_open, c_close, c_listen, conn_num, BufferEntry, Interface, Connection, State,
  External, mctx,
}
use shmsock.Machine.Sides.{
  own_address, recv_buffer, send_buffer, set_recv_buffer, set_send_buffer, own_port, set_own_port,
  set_remote_port, remote_events, set_own_events, set_remote_events,
}
use shmsock.Machine.Cmd.{
  Run, ok, fault, Cmd, pure, ◌>>=◌, ◌>>◌, get_process, set_context, load_conn, update_conn,
  load_entry, update_entry, load_iface, update_iface, free_conn, free_entry, memcpy, in_context,
  change_list, or_fault, malloc_conn, malloc_entry,
}

-- sizeof(struct connection) and sizeof(struct bufferEntry) on a 64-bit machine
abbrev pub sizeof_connection : ℕ
sizeof_connection = 72

abbrev pub sizeof_buffer_entry : ℕ
sizeof_buffer_entry = 8

abbrev pub epollin : ℕ
epollin = 1

abbrev pub epollhup : ℕ
epollhup = 16

-- SET_EVENT(pConn->remote_events, event)
unfoldable pub set_remote_event : Ptr → ℕ → Cmd (Unit {0})
set_remote_event p event = do
  pr ← get_process
  update_conn p (λ c. set_remote_events pr.side (bit_or (remote_events pr.side c) event) c)

-- All four event masks to 0.
abbrev pub clear_events : Connection → Connection
clear_events c = record c {
  server_events = 0;
  client_events = 0;
  server_lt_events = 0;
  client_lt_events = 0;
}

-- MALLOC_CONN
unfoldable pub malloc_in_conn : Ptr → Cmd (Unit {0})
malloc_in_conn p = do c ← load_conn p; set_context (mctx c.associated_iface)

module _ (ext : External) where
  unfoldable pub create_new_connection : Ptr → ℕ → ℕ → Cmd Ptr
  create_new_connection iface own remote = do
    set_context (mctx iface)
    p ← malloc_conn ext sizeof_connection
    set_context null
    pr ← get_process
    update_conn p λ c.
        clear_events (record (set_remote_port pr.side remote (set_own_port pr.side own c)) {
          conn_state = c_create;
          associated_iface = iface;
        })
    r ← in_context (llist_new ext.ll (mctx iface))
    update_conn p (set_recv_buffer pr.side r)
    s ← in_context (llist_new ext.ll (mctx iface))
    update_conn p (set_send_buffer pr.side s)
    pure p

  -- The ports are -1, written as 32 bits. The two buffers keep what malloc left there.
  unfoldable pub create_new_listener_connection : Cmd Ptr
  create_new_listener_connection = do
    p ← malloc_conn ext sizeof_connection
    update_conn p λ c. clear_events (record c {
      conn_state = c_listen;
      associated_iface = null;
      server_port = 0xffff_ffff;
      client_port = 0xffff_ffff;
    })
    pure p

  unfoldable pub initiate_new_connection : Ptr → Cmd Bool
  initiate_new_connection p = do
    c ← load_conn p
    i ← load_iface c.associated_iface
    list ← change_list (llist_insert_first ext.ll i.connection_list p)
    update_iface c.associated_iface (λ j. record j { connection_list = list })
    pure true

  unfoldable pub check_if_accepted_connection : Ptr → Cmd Bool
  check_if_accepted_connection p = do
    c ← load_conn p
    pure (conn_num c.conn_state == conn_num c_open)

  unfoldable pub check_if_closed_connection : Ptr → Cmd Bool
  check_if_closed_connection p = do
    c ← load_conn p
    pure (conn_num c.conn_state == conn_num c_close)

  -- The rounds of FOREACH_LIST in `searchNewConnectionOnIface`, from index `i` with `entry` read
  -- there. It is given more rounds than the list has elements; a fault would mean too few.
  unfoldable pub search_loop : ℕ → Ptr → ℕ → ℕ → Ptr → Cmd Ptr
  search_loop zero iface port i entry = λ s. fault
  search_loop (suc fuel) iface port i entry =
      let next : Cmd Ptr = (do
        f ← load_iface iface
        e ← in_context (llist_get_n ext.ll f.connection_list (i + 1))
        search_loop fuel iface port (i + 1) e) in
      if entry == null then pure null else (do
        c ← load_conn entry
        pr ← get_process
        if conn_num c.conn_state == conn_num c_create && own_port pr.side c == port
            then pure entry
            else next)

  unfoldable pub search_new_connection_on_iface : Ptr → ℕ → Cmd Ptr
  search_new_connection_on_iface iface port = do
    f ← load_iface iface
    e ← in_context (llist_get_n ext.ll f.connection_list 0)
    search_loop (suc (llist_len ext.ll f.connection_list)) iface port 0 e

  -- The first answer that is not `NULL` among the interfaces that pass a test.
  unfoldable pub on_any_iface : (Interface → Bool) → (Ptr → Cmd Ptr) → List Ptr → Cmd Ptr
  on_any_iface test search [] = pure null
  on_any_iface test search (p ∷ ps) =
      let rest = on_any_iface test search ps in
      if p == null then rest else (do
        i ← load_iface p
        if test i then (do c ← search p; if c == null then rest else pure c) else rest)

  unfoldable pub search_new_connection_on_any_iface : ℕ → ℕ → Cmd Ptr
  search_new_connection_on_any_iface addr port = do
    pr ← get_process
    on_any_iface (λ i. own_address pr.side i == addr) (λ p. search_new_connection_on_iface p port)
        pr.interfaces

  unfoldable pub accept_new_connection_on_iface : Ptr → ℕ → Cmd Ptr
  accept_new_connection_on_iface iface port = do
    p ← search_new_connection_on_iface iface port
    if p == null
        then pure null
        else (do update_conn p (λ c. record c { conn_state = c_open }); pure p)

  -- The address 0 stands for every interface.
  unfoldable pub accept_new_connection_on_any_iface : ℕ → ℕ → Cmd Ptr
  accept_new_connection_on_any_iface addr port = do
    pr ← get_process
    on_any_iface (λ i. addr == 0 || own_address pr.side i == addr)
        (λ p. accept_new_connection_on_iface p port) pr.interfaces

  unfoldable pub remove_connection : Ptr → Cmd Bool
  remove_connection p = do
    c ← load_conn p
    i ← load_iface c.associated_iface
    pr ← get_process
    r ← or_fault (llist_remove ext.ll i.connection_list p pr.context)
    set_context r.2
    update_iface c.associated_iface (λ j. record j { connection_list = r.1 })
    recv ← change_list (llist_delete ext.ll (recv_buffer pr.side c))
    update_conn p (set_recv_buffer pr.side recv)
    send ← change_list (llist_delete ext.ll (send_buffer pr.side c))
    update_conn p (set_send_buffer pr.side send)
    malloc_in_conn p
    free_conn p
    set_context null
    pure true

  unfoldable pub close_connection : Ptr → Cmd (Unit {0})
  close_connection p = do
    c ← load_conn p
    if conn_num c.conn_state == conn_num c_close || conn_num c.conn_state == conn_num c_create
        then (do remove_connection p; pure tt)
        else (do
          update_conn p (λ d. record d { conn_state = c_close })
          set_remote_event p epollhup)

  -- `data` and `len` of the C function; `len` is not negative here.
  unfoldable pub send_connection : Ptr → List ℕ → ℕ → Cmd ℕ
  send_connection p buf len = do
    malloc_in_conn p
    b ← malloc_entry ext (sizeof_buffer_entry + len)
    set_context null
    bytes ← memcpy buf len
    update_entry b (λ e. record e { datasize = len; offset = 0; bytes = bytes })
    c ← load_conn p
    pr ← get_process
    list ← change_list (llist_insert_last ext.ll (send_buffer pr.side c) b)
    update_conn p (set_send_buffer pr.side list)
    set_remote_event p epollin
    pure len

  -- The whole of the first packet fits: it is copied and dropped.
  unfoldable pub recv_whole : Ptr → Ptr → BufferEntry → Cmd (ℕ × List ℕ)
  recv_whole p b e = do
    bytes ← memcpy (drop e.offset e.bytes) e.datasize
    c ← load_conn p
    pr ← get_process
    list ← change_list (llist_remove_first ext.ll (recv_buffer pr.side c))
    update_conn p (set_recv_buffer pr.side list)
    malloc_in_conn p
    free_entry b
    set_context null
    pure (e.datasize, bytes)

  -- Part of it fits: what was copied is cut off at its front.
  unfoldable pub recv_part : Ptr → BufferEntry → ℕ → Cmd (ℕ × List ℕ)
  recv_part b e len = do
    bytes ← memcpy (drop e.offset e.bytes) len
    update_entry b (λ d. record d { offset = d.offset + len; datasize = d.datasize - len })
    pure (len, bytes)

  -- The result is the number that is returned and the bytes that were copied into `data`.
  unfoldable pub recv_connection : Ptr → ℕ → Cmd (ℕ × List ℕ)
  recv_connection p len = do
    c ← load_conn p
    pr ← get_process
    if not (has_data_list ext.ll (recv_buffer pr.side c)) then pure (0, []) else (do
      b ← in_context (llist_get_first ext.ll (recv_buffer pr.side c))
      e ← load_entry b
      if leb e.datasize len then recv_whole p b e else recv_part b e len)
