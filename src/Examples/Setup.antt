-- ===== src/Examples/Setup.antt =====
-- Registering an interface and serving on it in the concrete setting.
use shmsock.Base.{◌≡◌, ◌≢◌, refl, true, [], some, arith, inl, inr, get_elem?}
use shmsock.Llist.{Ptr, null}
use shmsock.Machine.{
  pos, server, c_create, c_listen, s_created, s_listen, Block, Connection, Fd, Interface, State,
  SockaddrIn,
}
use shmsock.Machine.Sides.{own_address, remote_address}
use shmsock.Machine.Cmd.{ok}
use shmsock.Fds.{find_fd, find_empty}
use shmsock.Fds.Keeps.{Good}
use shmsock.Interface.{first_free, register_interface, get_interface_by_sockaddr}
use shmsock.Interface.Registered.{register-find}
use shmsock.Connection.Search.{IsInterface}
use shmsock.Socket.Setup.{socket, bind, listen}
use shmsock.Socket.Setup.Serving.{serving_lem}
use shmsock.Examples.{ext, ext_laws, search_free, iface, state, connection}
use shmsock.Examples.Descriptors.{fd_700, at_700, one-Good, empty_conn}

abbrev start : State
start = state server [] (connection c_create [] [])

-- A second region is registered at 8000, for the client address 7.
register-find_example :
    (s' : State) × (f : Interface) × (register_interface ext 8000 4096 true 7 1 start ≡ ok true s')
    × IsInterface s'.memory 8000 f
    × (f.connection_list.list.items ≡ [])
    × ((own_address server f ≡ 1) × (remote_address server f ≡ 7))
    × (get_interface_by_sockaddr 7 s' ≡ ok 8000 s')
    × ((q : Ptr) → q ≢ 8000 → s'.memory.ifaces q ≡ start.memory.ifaces q)
unfolding first_free
register-find_example =
    register-find ext ext_laws start 8000 4096 7 1 1 (λ e. omega arith) refl
      (inr (iface [], refl, λ e. omega arith), (inl refl, tt))

abbrev any_address : SockaddrIn
any_address = record { sin_family = 2; sin_port = 80; sin_addr = 0 }

abbrev one_made : State
one_made = at_700 server [] (empty_conn c_create) (fd_700 s_created 0)

room : ext.malloc null one_made.memory 72 ≢ null
unfolding search_free
room = λ e. omega arith

serving_lem_example :
    (s1 : State) × (s2 : State) × (s3 : State) × (d : Fd) × (b : Block Connection) × (socket 2 2049
        0 one_made
      ≡ ok (pos 701) s1)
    × (bind 701 (some any_address) s1 ≡ ok (pos 0) s2)
    × (listen ext 701 5 s2 ≡ ok (pos 0) s3)
    × (find_fd 701 s3.process.fds ≡ some 1)
    × (get_elem? s3.process.fds 1 ≡ some d)
    × ((d.state ≡ s_listen)
        × (d.listen_port ≡ 80)
        × (d.listen_address ≡ 0)
        × (d.flag_nonblock ≡ 2048))
    × (s3.memory.conns d.conn ≡ some b)
    × (b.value.conn_state ≡ c_listen)
    × Good s3
unfolding find_empty
serving_lem_example =
    serving_lem one_made 2049 0 1 (one-Good server [] (empty_conn c_create) s_created 0) refl
      (omega arith) refl ext ext_laws any_address 5 room
