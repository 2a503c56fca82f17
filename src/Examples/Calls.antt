-- ===== src/Examples/Calls.antt =====
-- `close`, the names and a sequence of calls in the concrete setting.
use shmsock.Base.{
  false, ℕ, ◌≡◌, refl, true, List, [], ◌∷◌, some, arith, get_elem?, length, replicate, zero, suc,
  ap, sym,
}
use shmsock.Machine.{
  pos, Side, server, client, s_open, c_open, Connection, Fd, Epollfd, State, SockaddrIn,
}
use shmsock.Machine.Cmd.{Run, ok, fault, asleep, load_fd, update_fd, load_conn, update_conn}
use shmsock.Fds.{
  find_fd, find_empty, get_fd_by_num, get_empty_fd, take_entry, next_fd_num, delete_fd,
  handle_close_while_io, assert_fd,
}
use shmsock.Fds.Keeps.{Sound}
use shmsock.Connection.{close_connection, set_remote_event}
use shmsock.Pollfds.{
  find_pollfd, find_empty_pollfd, take_pollfd, load_pollfd, update_pollfd, get_pollfd_by_num,
  get_empty_pollfd, epoll_create1,
}
use shmsock.Pollfds.Table.{IsPollTable}
use shmsock.Listeners.{
  epoll_ctl, add_listener, get_listener_for_fd, listener_loop, find_empty_listener,
  get_empty_listener, take_listener, update_listener,
}
use shmsock.Examples.Events.{epoll_900}
use shmsock.Socket.Setup.{socket}
use shmsock.Socket.Transfer.{recv}
use shmsock.Socket.Control.{handle_sockfd_close, close, getsockname, getpeername}
use shmsock.Socket.Control.Names.{Open, sockname-peername}
use shmsock.Socket.Calls.{
  Call, call_socket, call_close, call_recv, call_epoll_create1, call_epoll_ctl, run_call, run_calls,
  calls_lem,
}
use shmsock.Examples.{ext, kernel, iface}
use shmsock.Examples.Descriptors.{
  fd_700, at_700, one-Good, empty_conn, packet_conn, empty_Connected, some_address,
}

one_Open :
    (side : Side)
    → Open
        (at_700 side [] (empty_conn c_open) (fd_700 s_open 0))
        700
        0
        (fd_700 s_open 0)
        (empty_conn c_open)
        (iface [])
unfolding find_fd
one_Open side = record {
  found = refl;
  at = refl;
  live = refl;
  connected = empty_Connected c_open [];
  accepted = refl;
  iface = λ e. omega arith;
  at_f = refl;
}

sockname-peername_example :
    let s = at_700 server [] (empty_conn c_open) (fd_700 s_open 0) in
    let t = at_700 client [] (empty_conn c_open) (fd_700 s_open 0) in
    (name : SockaddrIn) × (getsockname 700 (some some_address) s
      ≡ ok (pos 0, some (record name { sin_family = 0 })) s)
    × (getpeername 700 (some some_address) t ≡ ok (pos 0, some (record name { sin_family = 2 })) t)
sockname-peername_example =
    sockname-peername (at_700 server [] (empty_conn c_open) (fd_700 s_open 0))
      (at_700 client [] (empty_conn c_open) (fd_700 s_open 0)) 700 700 0 0 (fd_700 s_open 0)
      (fd_700 s_open 0) (empty_conn c_open) (iface []) some_address some_address (one_Open server)
      (one_Open client) refl

replicate_elem :
    {A : Type 0} (x : A) (n i : ℕ) {y : A} → get_elem? (replicate n x) i ≡ some y → x ≡ y
replicate_elem x zero i e = cc
replicate_elem x (suc n) zero e = cc
replicate_elem x (suc n) (suc i) e = replicate_elem x n i e

-- No epoll descriptor yet.
abbrev free_epoll : Epollfd
free_epoll = record epoll_900 { num = 0; active = false }

free_inactive :
    (i : ℕ) {e : Epollfd} → get_elem? (replicate 50 free_epoll) i ≡ some e → e.active ≡ true → ⊥
free_inactive i at on =
    let same = ap (λ (x : Epollfd). x.active) (replicate_elem free_epoll 50 i at) in
    ground (arith, same, on)

free_IsPollTable : IsPollTable (replicate 50 free_epoll) 900
free_IsPollTable = record {
  numbered = record {
    size = refl;
    start = omega arith;
    below = λ i e at on. absurd (free_inactive i at on);
    unique = λ i j e f at_i at_j on_e on_f num. absurd (free_inactive i at_i on_e);
  };
  listeners =
      λ k e at. sym (ap (λ (x : Epollfd). length x.lfds) (replicate_elem free_epoll 50 k at));
}

-- A socket and an epoll descriptor are made, with a listener for another socket, which is closed
-- then, and a read is tried.
abbrev calls : List Call
calls =
    call_socket 2 1 0
    ∷ call_epoll_create1 0
    ∷ call_epoll_ctl 900 1 700 (some (record { events = 1; user = 700 }))
    ∷ call_close 700
    ∷ call_recv 700 9 0 []
    ∷ []

abbrev before_calls : State
before_calls =
    let s = at_700 client [] (packet_conn c_open (600 ∷ [])) (fd_700 s_open 0) in
    record s {
      process = record s.process { pollfds = replicate 50 free_epoll; random_poll_fd = 900 };
    }

abbrev result_of : Run (Unit {0}) → State
result_of (ok a s) = s
result_of fault = before_calls
result_of asleep = before_calls

calls_lem_example :
    let t = result_of (run_calls ext kernel calls before_calls) in
    Sound t
    × ((i : ℕ) (d : Fd)
        → get_elem? t.process.fds i ≡ some d
        → d.active ≡ true
        → find_fd d.num t.process.fds ≡ some i)
    × ((k : ℕ) (e : Epollfd)
        → get_elem? t.process.pollfds k ≡ some e
        → e.active ≡ true
        → find_pollfd e.num t.process.pollfds ≡ some k)
unfolding run_calls run_call socket close recv handle_sockfd_close find_fd find_empty get_fd_by_num
    get_empty_fd take_entry next_fd_num delete_fd handle_close_while_io assert_fd load_fd update_fd
    load_conn update_conn close_connection set_remote_event epoll_create1 get_empty_pollfd
    find_empty_pollfd take_pollfd load_pollfd update_pollfd get_pollfd_by_num find_pollfd epoll_ctl
    add_listener get_listener_for_fd listener_loop find_empty_listener get_empty_listener
    take_listener update_listener
calls_lem_example =
    calls_lem ext kernel calls before_calls (result_of (run_calls ext kernel calls before_calls))
      (one-Good client [] (packet_conn c_open (600 ∷ [])) s_open 0, free_IsPollTable)
      (tt, (tt, (tt, (tt, (tt, tt))))) refl
