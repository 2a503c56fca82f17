-- ===== src/Examples/Connections.antt =====
-- Runs of util.c and list.c in the concrete setting, and the theorems on them there.
use shmsock.Base.{
  ℕ, ◌≡◌, ◌≢◌, refl, true, false, List, [], ◌∷◌, ◌++◌, none, some, arith, if◌then◌else◌, ◌==◌,
  length, inl, inr, min, ◌⊎◌, bit_or, All, replicate,
}
use shmsock.Llist.{Ptr, null, llist_remove}
use shmsock.Llist.Owned.{with_items}
use shmsock.Llist.Remove.{remove-erase, erase, contains}
use shmsock.Machine.{Side, server, client, peer, c_open, c_create, c_close, Connection, State}
use shmsock.Machine.Sides.{own_events}
use shmsock.Machine.Cmd.{ok}
use shmsock.Connection.{
  send_connection, recv_connection, close_connection, initiate_new_connection, epollhup,
  accept_new_connection_on_iface, check_if_accepted_connection, search_new_connection_on_any_iface,
  accept_new_connection_on_any_iface,
}
use shmsock.Connection.Stream.{Entries, Connected, IsBuffer, incoming, outgoing}
use shmsock.Connection.Search.{IsInterface}
use shmsock.Connection.AnyIface.{any_pending, accepted, search-accept, wildcard_unseen, Slot}
use shmsock.Connection.Accept.{opened, offer, offer-accept}
use shmsock.Connection.Send.{send_connection_lem}
use shmsock.Connection.Received.{Received, first_size}
use shmsock.Connection.Reading.{recv_connection_lem}
use shmsock.Connection.Close.{close_first_lem, close_last_lem}
use shmsock.Connection.World.{World, Action, put, get, traffic, read_by, sent_by}
use shmsock.Connection.Traffic.{Room, traffic_lem}
use shmsock.Examples.{
  ll, ll_laws, search_free, ext, ext_laws, iface, buffer, connection, packet, memory, process,
  state, no_fd,
}

-- An open connection with one packet towards the server, and one that waits to be accepted.
abbrev open_conn : Connection
open_conn = connection c_open (600 ∷ []) []

abbrev new_conn : Connection
new_conn = connection c_create [] []

abbrev closed_conn : Connection
closed_conn = connection c_close [] []

is_IsBuffer : IsBuffer (memory [] open_conn).entries 124 (buffer (600 ∷ []))
is_IsBuffer = record {
  owned = refl;
  in_arena = refl;
  packets = ((packet, refl, λ e. omega arith, refl, omega arith), tt);
  distinct = (refl, tt);
}

empty_IsBuffer : (f : Entries) → IsBuffer f 124 (buffer [])
empty_IsBuffer f = record { owned = refl; in_arena = refl; packets = tt; distinct = tt }

open_Connected : (conns : List Ptr) → Connected (memory conns open_conn) 500 open_conn
open_Connected conns = record {
  ne_null = λ e. omega arith;
  holds = refl;
  to_server = is_IsBuffer;
  to_client = empty_IsBuffer _;
  apart = λ p i. refl;
}

new_Connected : (conns : List Ptr) → Connected (memory conns new_conn) 500 new_conn
new_Connected conns = record {
  ne_null = λ e. omega arith;
  holds = refl;
  to_server = empty_IsBuffer _;
  to_client = empty_IsBuffer _;
  apart = λ p i. refl;
}

closed_Connected : (conns : List Ptr) → Connected (memory conns closed_conn) 500 closed_conn
closed_Connected conns = record {
  ne_null = λ e. omega arith;
  holds = refl;
  to_server = empty_IsBuffer _;
  to_client = empty_IsBuffer _;
  apart = λ p i. refl;
}

listed_IsInterface : (c : Connection) → IsInterface (memory (500 ∷ []) c) 100 (iface (500 ∷ []))
listed_IsInterface c = record {
  ne_null = λ e. omega arith;
  holds = refl;
  owned = refl;
  listed = ((record { arena = 124; value = c }, refl, λ e. omega arith), tt);
}

empty_IsInterface : (c : Connection) → IsInterface (memory [] c) 100 (iface [])
empty_IsInterface c = record { ne_null = λ e. omega arith; holds = refl; owned = refl; listed = tt }

abbrev world : World
world = record {
  memory = memory [] open_conn;
  of_server = process server (replicate 50 no_fd) 700;
  of_client = process client (replicate 50 no_fd) 700;
}

abbrev actions : List (Side × Action)
actions = (client, put (1 ∷ 2 ∷ [])) ∷ (server, get 1) ∷ (server, get 5) ∷ (server, get 9) ∷ []

actions-Room : Room ext 500 100 actions world
unfolding search_free
actions-Room = ((λ e. omega arith), tt)

traffic_lem_example :
    (w' : World) × (c' : Connection) × (log : List (Side × List ℕ)) × (traffic ext 500 actions world
      ≡ some (w', log))
    × Connected w'.memory 500 c'
    × ((k : Side)
        → incoming k world.memory open_conn ++ sent_by (peer k) actions
          ≡ read_by k log ++ incoming k w'.memory c')
traffic_lem_example =
    traffic_lem ext 500 ext_laws actions world open_conn (open_Connected [])
      (record { is_server = refl; is_client = refl }) actions-Room

offer-accept_example :
    let m = offer (memory [] new_conn) 500 new_conn (iface []) in
    let m' = opened m 500 (record { arena = 124; value = new_conn }) in
    let s = state client [] new_conn in
    let other = process server (replicate 50 no_fd) 700 in
    (initiate_new_connection ext 500 s ≡ ok true (record s { memory = m }))
    × (check_if_accepted_connection ext 500 (record s { memory = m })
        ≡ ok false (record s { memory = m }))
    × (accept_new_connection_on_iface ext 100 80 (record { memory = m; process = other })
        ≡ ok 500 (record { memory = m'; process = other }))
    × (check_if_accepted_connection ext 500 (record s { memory = m' })
        ≡ ok true (record s { memory = m' }))
offer-accept_example =
    offer-accept ext ext_laws (state client [] new_conn) 500 new_conn (iface []) (new_Connected [])
      (empty_IsInterface new_conn) (process server (replicate 50 no_fd) 700) refl refl

recv_connection_lem_example :
    (s' : State) × (c' : Connection) × (bytes : List ℕ) × (recv_connection ext 500 1
        (state server [] open_conn)
      ≡ ok (length bytes, bytes) s')
    × Received server 500 open_conn (memory [] open_conn) s'.memory c' (length bytes) bytes
    × (length bytes ≡ min 1 (first_size (memory [] open_conn).entries (600 ∷ [])))
    × ((s'.process ≡ process server (replicate 50 no_fd) 700)
        ⊎ (s'.process ≡ record (process server (replicate 50 no_fd) 700) { context = null }))
recv_connection_lem_example =
    recv_connection_lem ext ext_laws (state server [] open_conn) 500 open_conn (open_Connected []) 1

room : ext.malloc 124 (memory [] open_conn) 10 ≢ null
unfolding search_free
room = λ e. omega arith

send_connection_lem_example :
    let s = state client [] open_conn in
    (s' : State) × (c' : Connection) × (send_connection ext 500 (4 ∷ 5 ∷ 6 ∷ []) 2 s ≡ ok 2 s')
    × Connected s'.memory 500 c'
    × (outgoing client s'.memory c' ≡ outgoing client s.memory open_conn ++ 4 ∷ 5 ∷ [])
    × (incoming client s'.memory c' ≡ incoming client s.memory open_conn)
    × (c'.conn_state ≡ c_open)
    × (c'.associated_iface ≡ 100)
    × (s'.memory.ifaces ≡ s.memory.ifaces)
    × ((q : Ptr) → q ≢ 500 → s'.memory.conns q ≡ s.memory.conns q)
    × ((q : Ptr) → s.memory.entries q ≢ none → s'.memory.entries q ≡ s.memory.entries q)
    × (s'.process ≡ record s.process { context = null })
send_connection_lem_example =
    send_connection_lem ext ext_laws (state client [] open_conn) 500 open_conn (open_Connected [])
      (4 ∷ 5 ∷ 6 ∷ []) 2 room (omega arith)

close_first_lem_example :
    let s = state server (500 ∷ []) open_conn in
    (s' : State) × (c' : Connection) × (close_connection ext 500 s ≡ ok tt s')
    × Connected s'.memory 500 c'
    × (c'.conn_state ≡ c_close)
    × (own_events client c' ≡ bit_or 0 epollhup)
    × (incoming server s'.memory c' ≡ incoming server s.memory open_conn)
    × (outgoing server s'.memory c' ≡ outgoing server s.memory open_conn)
    × (c'.associated_iface ≡ 100)
    × (s'.memory.ifaces ≡ s.memory.ifaces)
    × (s'.memory.entries ≡ s.memory.entries)
    × ((q : Ptr) → q ≢ 500 → s'.memory.conns q ≡ s.memory.conns q)
    × (s'.process ≡ s.process)
close_first_lem_example =
    close_first_lem ext ext_laws (state server (500 ∷ []) open_conn) 500 open_conn
      (open_Connected (500 ∷ [])) ((λ e. cc), (λ e. cc))

close_last_lem_example :
    let s = state client (500 ∷ []) closed_conn in
    (s' : State) × (close_connection ext 500 s ≡ ok tt s')
    × (s'.memory.conns 500 ≡ none)
    × (s'.memory.ifaces 100
        ≡ some (record (iface (500 ∷ [])) {
          connection_list = with_items (iface (500 ∷ [])).connection_list (erase 500 (500 ∷ []));
        }))
    × ((q : Ptr) → q ≢ 500 → s'.memory.conns q ≡ s.memory.conns q)
    × ((q : Ptr) → q ≢ 100 → s'.memory.ifaces q ≡ s.memory.ifaces q)
    × (s'.memory.entries ≡ s.memory.entries)
    × (s'.process ≡ record s.process { context = null })
close_last_lem_example =
    close_last_lem ext ext_laws (state client (500 ∷ []) closed_conn) 500 closed_conn
      (closed_Connected (500 ∷ [])) (iface (500 ∷ [])) (listed_IsInterface closed_conn) (inl refl)

slots : (side : Side) (c : Connection) → All (Slot (memory (500 ∷ []) c)) (100 ∷ null ∷ [])
slots side c = (inr (iface (500 ∷ []), listed_IsInterface c), (inl refl, tt))

search-accept_example :
    let s = state server (500 ∷ []) new_conn in
    let r = any_pending s.memory server 80 (λ i. i.server_address == 1) (100 ∷ null ∷ []) in
    (search_new_connection_on_any_iface ext 1 80 s ≡ ok r s)
    × (accept_new_connection_on_any_iface ext 1 80 s ≡ accepted s r)
search-accept_example =
    search-accept ext ext_laws (state server (500 ∷ []) new_conn) 1 80 (slots server new_conn)
      (λ e. omega arith)

wildcard_unseen_example :
    let s = state server (500 ∷ []) new_conn in
    let r = any_pending s.memory server 80 (λ i. true) (100 ∷ null ∷ []) in
    (search_new_connection_on_any_iface ext 0 80 s ≡ ok null s)
    × (accept_new_connection_on_any_iface ext 0 80 s ≡ accepted s r)
wildcard_unseen_example =
    wildcard_unseen ext ext_laws (state server (500 ∷ []) new_conn) 0 80 (slots server new_conn)
      refl (inr (iface (500 ∷ []), refl, λ e. omega arith), (inl refl, tt))

remove-erase_example :
    llist_remove ll (buffer (3 ∷ 4 ∷ 3 ∷ [])) 4 9
    ≡ some (
        if contains 4 (3 ∷ 4 ∷ 3 ∷ [])
        then (1, with_items (buffer (3 ∷ 4 ∷ 3 ∷ [])) (erase 4 (3 ∷ 4 ∷ 3 ∷ [])), 9)
        else (0, buffer (3 ∷ 4 ∷ 3 ∷ []), 9))
remove-erase_example =
    remove-erase ll ll_laws (buffer (3 ∷ 4 ∷ 3 ∷ [])) refl 4 9
      ((λ e. omega arith), ((λ e. omega arith), ((λ e. omega arith), tt)))
