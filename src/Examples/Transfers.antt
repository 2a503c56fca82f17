-- ===== src/Examples/Transfers.antt =====
-- `send` and `recv` in the concrete setting.
use shmsock.Base.{
  ℕ, ◌<◌, ◌≡◌, refl, List, [], ◌∷◌, ◌++◌, arith, if◌then◌else◌, ◌==◌, not, length, min,
}
use shmsock.Llist.{null, llist_insert_last}
use shmsock.Machine.{
  pos, failure, server, s_open, s_close, c_open, c_close, conn_num, ebadf, enotconn,
  ConnectionState, Connection, State,
}
use shmsock.Machine.Cmd.{ok, load_conn, update_conn, update_entry, memcpy, malloc_entry}
use shmsock.Connection.{send_connection, set_remote_event, malloc_in_conn}
use shmsock.Fds.{find_fd}
use shmsock.Fds.Keeps.{with_entry}
use shmsock.Connection.Stream.{Connected, incoming, outgoing}
use shmsock.Connection.Received.{Received, first_size}
use shmsock.Socket.Transfer.{send, recv}
use shmsock.Socket.Transfer.Drain.{Reads, go_on, no_wait, with_errno, recv_lem, empty_packet_lem}
use shmsock.Socket.Transfer.Waking.{recv_wakes, Waits, HasData}
use shmsock.Socket.Transfer.Sending.{send_lem, send_closed, set_error}
use shmsock.Examples.{ext, ext_laws, search_free, connection}
use shmsock.Examples.Descriptors.{
  fd_700, at_700, one-Good, empty_conn, packet_conn, empty_Connected, one_Connected, two_Connected,
  meanwhile, peer_process,
}

-- The server reads from descriptor 700.
one_Reads :
    (st : ConnectionState) (flags : ℕ)
    → Reads
        (at_700 server [] (packet_conn st (600 ∷ [])) (fd_700 s_open flags))
        700
        0
        (fd_700 s_open flags)
        (packet_conn st (600 ∷ []))
unfolding find_fd
one_Reads st flags = record {
  found = refl;
  at = refl;
  live = refl;
  connected = one_Connected st [];
}

recv_lem_example :
    let c = packet_conn c_close (600 ∷ []) in
    let d = fd_700 s_open 0 in
    let s = at_700 server [] c d in
    (s' : State) × (c' : Connection) × (bytes : List ℕ) × Received server 500 c s.memory s'.memory
      c'
      (length bytes)
      bytes
    × (length bytes ≡ min 1 (first_size s.memory.entries (600 ∷ [])))
    × (s'.process.fds ≡ s.process.fds)
    × (recv ext 700 1 0 [] s ≡ (
        if not (length bytes == 0)
        then ok (pos (length bytes), bytes) s'
        else if conn_num c_close == conn_num c_close
        then ok (pos 0, []) (with_entry s' 0 (record d { state = s_close }))
        else if no_wait d 0
        then ok (failure, []) (with_errno s')
        else go_on ext 0 1 0 [] s'))
recv_lem_example =
    recv_lem ext ext_laws (at_700 server [] (packet_conn c_close (600 ∷ [])) (fd_700 s_open 0)) 700
      0 (fd_700 s_open 0) (packet_conn c_close (600 ∷ [])) 1 0 [] (one_Reads c_close 0)
      (omega arith)

empty_packet_lem_example :
    let c = packet_conn c_open (601 ∷ 600 ∷ []) in
    let s = at_700 server [] c (fd_700 s_open 2048) in
    (s' : State) × (c' : Connection) × (recv ext 700 10 0 [] s ≡ ok (failure, []) (with_errno s'))
    × Connected s'.memory 500 c'
    × (incoming server s'.memory c' ≡ incoming server s.memory c)
unfolding find_fd
empty_packet_lem_example =
    empty_packet_lem ext ext_laws
      (at_700 server [] (packet_conn c_open (601 ∷ 600 ∷ [])) (fd_700 s_open 2048)) 700 0
      (fd_700 s_open 2048) (packet_conn c_open (601 ∷ 600 ∷ [])) 10 0 [] 601 (600 ∷ [])
      (record { found = refl; at = refl; live = refl; connected = two_Connected c_open [] })
      (omega arith) refl refl (λ e. cc) refl

abbrev idle_700 : State
idle_700 = at_700 server [] (empty_conn c_open) (fd_700 s_open 0)

waiting : Waits 0 (fd_700 s_open 0) idle_700
waiting = (empty_conn c_open, refl, empty_Connected c_open [], refl, λ e. cc)

-- The client sends one byte.
abbrev client_sends : State → State
client_sends = meanwhile peer_process (send_connection ext 500 (5 ∷ []) 1)

abbrev sent_conn : Connection
sent_conn = record (connection c_open (1000 ∷ []) []) { server_events = 1 }

sent : HasData 0 (fd_700 s_open 0) (client_sends idle_700)
unfolding send_connection malloc_entry search_free load_conn update_conn update_entry memcpy
    set_remote_event malloc_in_conn llist_insert_last
sent = (
  sent_conn,
  refl,
  record {
    ne_null = λ e. omega arith;
    holds = refl;
    to_server = record {
      owned = refl;
      in_arena = refl;
      packets = (
        (
          record { arena = 124; value = record { datasize = 1; offset = 0; bytes = 5 ∷ [] } },
          refl,
          λ e. omega arith,
          refl,
          omega arith,
        ),
        tt,
      );
      distinct = (refl, tt);
    };
    to_client = record { owned = refl; in_arena = refl; packets = tt; distinct = tt };
    apart = λ p i. refl;
  },
  omega arith,
)

recv_wakes_example :
    (s' : State) × (bytes : List ℕ) × (recv ext 700 9 0
        (((λ t. t) ∷ []) ++ client_sends ∷ [])
        idle_700
      ≡ ok (pos (length bytes), bytes) s')
    × (0 < length bytes)
unfolding find_fd
recv_wakes_example =
    recv_wakes ext ext_laws 0 (fd_700 s_open 0) 9 0 (omega arith) (omega arith) refl 700
      ((λ t. t) ∷ []) client_sends idle_700 refl refl (waiting, (waiting, sent))

send_lem_example :
    let s = at_700 server [] (packet_conn c_open (600 ∷ [])) (fd_700 s_open 0) in
    (s' : State) × (c' : Connection) × (send ext 700 (1 ∷ 2 ∷ []) 2 0 s ≡ ok (pos 2) s')
    × Connected s'.memory 500 c'
    × (outgoing server s'.memory c' ≡ [] ++ 1 ∷ 2 ∷ [])
    × (incoming server s'.memory c' ≡ incoming server s.memory (packet_conn c_open (600 ∷ [])))
    × (c'.conn_state ≡ c_open)
    × (s'.process ≡ record s.process { context = null })
unfolding search_free
send_lem_example =
    send_lem ext ext_laws (at_700 server [] (packet_conn c_open (600 ∷ [])) (fd_700 s_open 0)) 700 0
      (fd_700 s_open 0) (packet_conn c_open (600 ∷ [])) (one_Reads c_open 0) (1 ∷ 2 ∷ []) 2 0
      (omega arith) (omega arith) (λ e. cc) (λ e. omega arith)

send_closed_example :
    let c = packet_conn c_close (600 ∷ []) in
    let d = fd_700 s_open 0 in
    let s = at_700 server [] c d in
    let t = with_entry (set_error s enotconn) 0 (record d { state = s_close }) in
    (send ext 700 (1 ∷ 2 ∷ []) 2 0 s ≡ ok failure t)
    × Connected t.memory 500 c
    × (incoming server t.memory c ≡ incoming server s.memory c)
    × (recv ext 700 9 0 [] t ≡ ok (failure, []) (set_error t ebadf))
send_closed_example =
    send_closed ext ext_laws (at_700 server [] (packet_conn c_close (600 ∷ [])) (fd_700 s_open 0))
      700 0 (fd_700 s_open 0) (packet_conn c_close (600 ∷ [])) (one_Reads c_close 0) (1 ∷ 2 ∷ []) 2
      0 9 0 [] (one-Good server [] (packet_conn c_close (600 ∷ [])) s_open 0) refl
