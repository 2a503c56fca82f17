-- ===== src/Connection/Keeps.antt =====
-- The functions of util.c do not touch the descriptor table.
use shmsock.Base.{ℕ, zero, suc, Bool, List, [], ◌∷◌, ◌==◌, if◌then◌else◌}
use shmsock.Llist.{Ptr, null}
use shmsock.Machine.{Interface, External, BufferEntry}
use shmsock.Machine.Cmd.{Cmd, pure, ◌>>=◌, load_iface}
use shmsock.Fds.Keeps.{Keeps, Keeps-fault, keeps_rules, state_rules}
use shmsock.Interface.{find_interface, get_interface_by_sockaddr}
use shmsock.Connection.{
  create_new_connection, create_new_listener_connection, initiate_new_connection,
  check_if_accepted_connection, check_if_closed_connection, search_loop,
  search_new_connection_on_iface, search_new_connection_on_any_iface, on_any_iface,
  accept_new_connection_on_iface, accept_new_connection_on_any_iface, remove_connection,
  close_connection, send_connection, recv_connection, recv_whole, recv_part, malloc_in_conn,
  set_remote_event,
}

find_step :
    (test : Interface → Bool) (p : Ptr) (rest : Cmd Ptr)
    → Keeps rest
    → Keeps (if p == null then rest else (do i ← load_iface p; if test i then pure p else rest))
find_step test p rest k = search state_rules depth 12

any_step :
    (test : Interface → Bool) (look : Ptr → Cmd Ptr) (p : Ptr) (rest : Cmd Ptr)
    → ((q : Ptr) → Keeps (look q))
    → Keeps rest
    → Keeps (
        if p == null then rest else (do
          i ← load_iface p
          if test i then (do c ← look p; if c == null then rest else pure c) else rest))
any_step test look p rest kl k = search state_rules depth 20

pub Keeps-find_interface :
    (test : Interface → Bool) (ps : List Ptr) → Keeps (find_interface test ps)
unfolding find_interface
Keeps-find_interface test [] = search keeps_rules
Keeps-find_interface test (p ∷ ps) =
    find_step test p (find_interface test ps) (Keeps-find_interface test ps)

pub Keeps-get_interface_by_sockaddr : (a : ℕ) → Keeps (get_interface_by_sockaddr a)
unfolding get_interface_by_sockaddr
Keeps-get_interface_by_sockaddr a = search (state_rules, Keeps-find_interface) depth 12

Keeps-malloc_in_conn : (p : Ptr) → Keeps (malloc_in_conn p)
unfolding malloc_in_conn
Keeps-malloc_in_conn p = search state_rules depth 12

Keeps-set_remote_event : (p : Ptr) (e : ℕ) → Keeps (set_remote_event p e)
unfolding set_remote_event
Keeps-set_remote_event p e = search state_rules depth 12

ruleset conn_rules = (state_rules, Keeps-malloc_in_conn, Keeps-set_remote_event)

module _ (ext : External) where
  pub Keeps-create_new_connection :
      (iface : Ptr) (own remote : ℕ) → Keeps (create_new_connection ext iface own remote)
  unfolding create_new_connection
  Keeps-create_new_connection iface own remote = search conn_rules depth 20

  pub Keeps-create_new_listener_connection : Keeps (create_new_listener_connection ext)
  unfolding create_new_listener_connection
  Keeps-create_new_listener_connection = search conn_rules depth 20

  pub Keeps-initiate_new_connection : (p : Ptr) → Keeps (initiate_new_connection ext p)
  unfolding initiate_new_connection
  Keeps-initiate_new_connection p = search conn_rules depth 20

  pub Keeps-check_if_accepted : (p : Ptr) → Keeps (check_if_accepted_connection ext p)
  unfolding check_if_accepted_connection
  Keeps-check_if_accepted p = search conn_rules depth 20

  pub Keeps-check_if_closed : (p : Ptr) → Keeps (check_if_closed_connection ext p)
  unfolding check_if_closed_connection
  Keeps-check_if_closed p = search conn_rules depth 20

  Keeps-search_loop :
      (fuel : ℕ) (iface : Ptr) (port i : ℕ) (entry : Ptr)
      → Keeps (search_loop ext fuel iface port i entry)
  unfolding search_loop
  Keeps-search_loop zero iface port i entry = Keeps-fault
  Keeps-search_loop (suc fuel) iface port i entry =
      search (conn_rules, Keeps-search_loop fuel) depth 20

  Keeps-search_on_iface :
      (iface : Ptr) (port : ℕ) → Keeps (search_new_connection_on_iface ext iface port)
  unfolding search_new_connection_on_iface
  Keeps-search_on_iface iface port = search (conn_rules, Keeps-search_loop) depth 20

  Keeps-accept_on_iface :
      (iface : Ptr) (port : ℕ) → Keeps (accept_new_connection_on_iface ext iface port)
  unfolding accept_new_connection_on_iface
  Keeps-accept_on_iface iface port = search (conn_rules, Keeps-search_on_iface) depth 20

  Keeps-on_any_iface :
      (test : Interface → Bool) (look : Ptr → Cmd Ptr) (ps : List Ptr)
      → ((p : Ptr) → Keeps (look p))
      → Keeps (on_any_iface ext test look ps)
  unfolding on_any_iface
  Keeps-on_any_iface test look [] k = search keeps_rules
  Keeps-on_any_iface test look (p ∷ ps) k =
      any_step test look p (on_any_iface ext test look ps) k (Keeps-on_any_iface test look ps k)

  pub Keeps-search_on_any_iface :
      (addr port : ℕ) → Keeps (search_new_connection_on_any_iface ext addr port)
  unfolding search_new_connection_on_any_iface
  Keeps-search_on_any_iface addr port =
      search (conn_rules, Keeps-on_any_iface, Keeps-search_on_iface) depth 20

  pub Keeps-accept_on_any_iface :
      (addr port : ℕ) → Keeps (accept_new_connection_on_any_iface ext addr port)
  unfolding accept_new_connection_on_any_iface
  Keeps-accept_on_any_iface addr port =
      search (conn_rules, Keeps-on_any_iface, Keeps-accept_on_iface) depth 20

  Keeps-remove_connection : (p : Ptr) → Keeps (remove_connection ext p)
  unfolding remove_connection
  Keeps-remove_connection p = search conn_rules depth 30

  pub Keeps-close_connection : (p : Ptr) → Keeps (close_connection ext p)
  unfolding close_connection
  Keeps-close_connection p = search (conn_rules, Keeps-remove_connection) depth 20

  pub Keeps-send_connection :
      (p : Ptr) (buf : List ℕ) (len : ℕ) → Keeps (send_connection ext p buf len)
  unfolding send_connection
  Keeps-send_connection p buf len = search conn_rules depth 30

  Keeps-recv_whole : (p b : Ptr) (e : BufferEntry) → Keeps (recv_whole ext p b e)
  unfolding recv_whole
  Keeps-recv_whole p b e = search conn_rules depth 30

  Keeps-recv_part : (b : Ptr) (e : BufferEntry) (len : ℕ) → Keeps (recv_part ext b e len)
  unfolding recv_part
  Keeps-recv_part b e len = search conn_rules depth 30

  pub Keeps-recv_connection : (p : Ptr) (len : ℕ) → Keeps (recv_connection ext p len)
  unfolding recv_connection
  Keeps-recv_connection p len = search (conn_rules, Keeps-recv_whole, Keeps-recv_part) depth 30
