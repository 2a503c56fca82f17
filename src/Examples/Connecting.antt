-- ===== src/Examples/Connecting.antt =====
-- `connect` in the concrete setting.
use shmsock.Base.{◌≢◌, ℕ, ◌≡◌, refl, [], ◌∷◌, ◌++◌, none, some, arith, replicate}
use shmsock.Llist.{Ptr, null}
use shmsock.Machine.{
  Memory, einprogress, s_created, pos, failure, server, client, s_open, s_connecting, c_open,
  c_create, c_close, ConnectionState, State, SockaddrIn,
}
use shmsock.Machine.Cmd.{load_iface, ok}
use shmsock.Fds.{find_fd}
use shmsock.Fds.Keeps.{with_entry}
use shmsock.Connection.Search.{IsInterface}
use shmsock.Interface.{get_interface_by_sockaddr, find_interface}
use shmsock.Connection.{accept_new_connection_on_iface}
use shmsock.Socket.Connect.Handshake.{connect-accept}
use shmsock.Socket.Connect.{connect, connect_ex}
use shmsock.Socket.Connect.Progress.{Connects, connect_wakes}
use shmsock.Examples.{ext, ext_laws, search_free, iface, process, no_fd}
use shmsock.Examples.Descriptors.{fd_700, at_700, one-Good, empty_conn}

one_Connects :
    (st : ConnectionState) (flags : ℕ)
    → Connects
        (at_700 client (500 ∷ []) (empty_conn st) (fd_700 s_connecting flags))
        0
        (fd_700 s_connecting flags)
        (record { arena = 124; value = empty_conn st })
one_Connects st flags = record { at = refl; live = refl; ne_null = λ e. omega arith; holds = refl }

connect_wakes_example :
    let d = fd_700 s_connecting 0 in
    let env : State → State = λ t. at_700 client (500 ∷ []) (empty_conn c_open) d in
    (t : State) × (connect_ex ext 700 none
        (((λ u. u) ∷ []) ++ env ∷ [])
        (at_700 client (500 ∷ []) (empty_conn c_create) d)
      ≡ ok (pos 0) (with_entry t 0 (record d { state = s_open })))
unfolding find_fd
connect_wakes_example =
    connect_wakes ext 0 700 none ((λ u. u) ∷ [])
      (λ t. at_700 client (500 ∷ []) (empty_conn c_open) (fd_700 s_connecting 0))
      (at_700 client (500 ∷ []) (empty_conn c_create) (fd_700 s_connecting 0))
      (fd_700 s_connecting 0) refl refl ((λ t u. u), tt)
      (λ t u. (record { arena = 124; value = empty_conn c_open }, one_Connects c_open 0, refl))
      (
        record { arena = 124; value = empty_conn c_create },
        one_Connects c_create 0,
        ((λ e. cc), (λ e. cc)),
      )

-- A new descriptor that does not block, and the interface at 100 with the server's address 1.
abbrev to_connect : State
to_connect = at_700 client [] (empty_conn c_close) (fd_700 s_created 2048)

abbrev server_address : SockaddrIn
server_address = record { sin_family = 2; sin_port = 80; sin_addr = 1 }

empty_IsInterface : IsInterface to_connect.memory 100 (iface [])
empty_IsInterface = record { ne_null = λ e. omega arith; holds = refl; owned = refl; listed = tt }

room_for_conn : ext.malloc 124 to_connect.memory 72 ≢ null
unfolding search_free
room_for_conn = λ e. omega arith

connect-accept_example :
    let other = process server (replicate 50 no_fd) 700 in
    (t : State) × (m' : Memory) × (p : Ptr) × (connect ext 700 (some server_address) [] to_connect
      ≡ ok failure (record t { process = record t.process { errno = einprogress } }))
    × (accept_new_connection_on_iface ext 100 80 (record { memory = t.memory; process = other })
        ≡ ok p (record { memory = m'; process = other }))
    × (connect_ex ext 700 (some server_address) [] (record t { memory = m' })
        ≡ ok (pos 0) (
            with_entry
              (record t { memory = m' })
              0
              (record (fd_700 s_created 2048) { conn = p; state = s_open })))
unfolding find_fd get_interface_by_sockaddr find_interface load_iface
connect-accept_example =
    connect-accept ext ext_laws to_connect 700 0 (fd_700 s_created 2048) server_address 100
      (iface []) (one-Good client [] (empty_conn c_close) s_created 2048) refl refl refl
      (λ e. omega arith) refl empty_IsInterface room_for_conn []
      (process server (replicate 50 no_fd) 700) refl
