-- ===== src/Machine/Sides.antt =====
-- The fields of `struct interface` and `struct connection` under the names that one side has for
-- them: util.h lays the fields out in the other order under MODE_SERVER.
use shmsock.Base.{ℕ}
use shmsock.Llist.{Llist}
use shmsock.Machine.{Side, server, client, Interface, Connection}

abbrev pub own_address : Side → Interface → ℕ
own_address server i = i.server_address
own_address client i = i.client_address

abbrev pub remote_address : Side → Interface → ℕ
remote_address server i = i.client_address
remote_address client i = i.server_address

abbrev pub recv_buffer : Side → Connection → Llist
recv_buffer server c = c.to_server
recv_buffer client c = c.to_client

abbrev pub send_buffer : Side → Connection → Llist
send_buffer server c = c.to_client
send_buffer client c = c.to_server

abbrev pub set_recv_buffer : Side → Llist → Connection → Connection
set_recv_buffer server l c = record c { to_server = l }
set_recv_buffer client l c = record c { to_client = l }

abbrev pub set_send_buffer : Side → Llist → Connection → Connection
set_send_buffer server l c = record c { to_client = l }
set_send_buffer client l c = record c { to_server = l }

abbrev pub own_port : Side → Connection → ℕ
own_port server c = c.server_port
own_port client c = c.client_port

abbrev pub remote_port : Side → Connection → ℕ
remote_port server c = c.client_port
remote_port client c = c.server_port

abbrev pub set_own_port : Side → ℕ → Connection → Connection
set_own_port server n c = record c { server_port = n }
set_own_port client n c = record c { client_port = n }

abbrev pub set_remote_port : Side → ℕ → Connection → Connection
set_remote_port server n c = record c { client_port = n }
set_remote_port client n c = record c { server_port = n }

abbrev pub own_events : Side → Connection → ℕ
own_events server c = c.server_events
own_events client c = c.client_events

abbrev pub remote_events : Side → Connection → ℕ
remote_events server c = c.client_events
remote_events client c = c.server_events

abbrev pub set_own_events : Side → ℕ → Connection → Connection
set_own_events server m c = record c { server_events = m }
set_own_events client m c = record c { client_events = m }

abbrev pub set_remote_events : Side → ℕ → Connection → Connection
set_remote_events server m c = record c { client_events = m }
set_remote_events client m c = record c { server_events = m }

abbrev pub own_lt_events : Side → Connection → ℕ
own_lt_events server c = c.server_lt_events
own_lt_events client c = c.client_lt_events

abbrev pub set_own_lt_events : Side → ℕ → Connection → Connection
set_own_lt_events server m c = record c { server_lt_events = m }
set_own_lt_events client m c = record c { client_lt_events = m }
