-- ===== src/Socket/Control/Names.antt =====
-- `getsockname` and `getpeername` of the two ends of a connection.
use shmsock.Base.{ℕ, ◌≡◌, refl, ◌∙◌, ◌≢◌, false, some, arith, ◌==◌, get_elem?}
use shmsock.Llist.{null}
use shmsock.Machine.{
  pos, s_open, c_open, Side, server, client, peer, Interface, Connection, Fd, State, SockaddrIn,
}
use shmsock.Machine.Sides.{own_port, remote_port, own_address, remote_address}
use shmsock.Machine.Cmd.{ok, load_fd, load_conn, load_iface}
use shmsock.Fds.{find_fd, get_fd_by_num}
use shmsock.Connection.Stream.{Connected}
use shmsock.Socket.Setup.{af_inet}
use shmsock.Socket.Control.{getsockname, getpeername}

-- A descriptor on an accepted connection, over its interface.
pub record Open (s : State) (sockfd i : ℕ) (d : Fd) (c : Connection) (f : Interface) : Type 0 where
  pub found : find_fd sockfd s.process.fds ≡ some i
  pub at : get_elem? s.process.fds i ≡ some d
  pub live : d.state ≡ s_open
  pub connected : Connected s.memory d.conn c
  pub accepted : c.conn_state ≡ c_open
  pub iface : c.associated_iface ≢ null
  pub at_f : s.memory.ifaces c.associated_iface ≡ some f

module _ (s : State) (sockfd i : ℕ) (d : Fd) (c : Connection) (f : Interface)
    (h : Open s sockfd i d c f) (a : SockaddrIn) where
  sockname_run :
      getsockname sockfd (some a) s
      ≡ ok
          (
            pos 0,
            some (record a {
              sin_port = own_port s.process.side c;
              sin_addr = own_address s.process.side f;
            }),
          )
          s
  unfolding getsockname get_fd_by_num load_fd load_conn load_iface
  sockname_run =
      let e1 : (d.conn == null) ≡ false = ground (arith, h.connected.ne_null) in
      let e2 : (c.associated_iface == null) ≡ false = ground (arith, h.iface) in
      simp (h.found, h.at, h.live, e1, h.connected.holds, h.accepted, e2, h.at_f)

  peername_run :
      getpeername sockfd (some a) s
      ≡ ok
          (
            pos 0,
            some (record {
              sin_family = af_inet;
              sin_port = remote_port s.process.side c;
              sin_addr = remote_address s.process.side f;
            }),
          )
          s
  unfolding getpeername get_fd_by_num load_fd load_conn load_iface
  peername_run =
      let e1 : (d.conn == null) ≡ false = ground (arith, h.connected.ne_null) in
      let e2 : (c.associated_iface == null) ≡ false = ground (arith, h.iface) in
      simp (h.found, h.at, e1, h.connected.holds, h.accepted, e2, h.at_f)

port-peer : (k : Side) (c : Connection) → remote_port (peer k) c ≡ own_port k c
port-peer server c = refl
port-peer client c = refl

address-peer : (k : Side) (f : Interface) → remote_address (peer k) f ≡ own_address k f
address-peer server f = refl
address-peer client f = refl

-- The two ends of an accepted connection agree on their names: `getsockname` of one side succeeds
-- with the port and the address that `getpeername` of the other side succeeds with. But
-- `getsockname` leaves the family as the caller had it, where `getpeername` sets AF_INET.
pub sockname-peername :
    (s t : State) (sockfd sockfd' i i' : ℕ) (d d' : Fd) (c : Connection) (f : Interface)
    (a a' : SockaddrIn)
    → Open s sockfd i d c f
    → Open t sockfd' i' d' c f
    → t.process.side ≡ peer s.process.side
    → (name : SockaddrIn) × (getsockname sockfd (some a) s
        ≡ ok (pos 0, some (record name { sin_family = a.sin_family })) s)
      × (getpeername sockfd' (some a') t
          ≡ ok (pos 0, some (record name { sin_family = af_inet })) t)
sockname-peername s t sockfd sockfd' i i' d d' c f a a' h h' side = (
  record a { sin_port = own_port s.process.side c; sin_addr = own_address s.process.side f },
  sockname_run s sockfd i d c f h a,
  peername_run t sockfd' i' d' c f h' a'
      ∙ rw (side, port-peer s.process.side c, address-peer s.process.side f),
)
