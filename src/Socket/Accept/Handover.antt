-- ===== src/Socket/Accept/Handover.antt =====
-- `accept4`: the connection that is handed over, and what becomes of it when the table is full.
use shmsock.Base.{
  ltb, ◌≤◌, ℕ, ◌+◌, ◌≡◌, refl, ◌∙◌, ◌≢◌, true, false, [], ◌∷◌, Option, none, some, arith, ◌==◌,
  ◌||◌, bit_and, get_elem?, set, All, ==_refl, get_elem?-set_self, lt_of_get_elem?,
}
use shmsock.Llist.{Ptr, null}
use shmsock.Machine.{
  Kernel, ebadf, pos, s_listen, s_open, c_open, Side, server, client, Interface, Connection, Block,
  Fd, State, SockaddrIn, External, ExternalLaws,
}
use shmsock.Machine.Sides.{own_address, remote_address, remote_port}
use shmsock.Machine.Cmd.{ok, fault, Cmd, Schedule, pure, and_then, load_fd, load_conn, load_iface}
use shmsock.Fds.{fd_start, pollfd_start, fail, find_fd, find_empty, get_fd_by_num}
use shmsock.Fds.Table.{IsTable-new, find_fd-active}
use shmsock.Fds.Keeps.{Good}
use shmsock.Fds.Keeps.Fresh.{new_fd-none, new_fd-some}
use shmsock.Connection.Accept.{opened}
use shmsock.Connection.AnyIface.{any_pending, any_pending-block, accept_any_lem, Slot}
use shmsock.Socket.Setup.{af_inet, sock_nonblock}
use shmsock.Socket.Accept.{accept4, accept_wait, accept_round, accept_fd}
use shmsock.Pollfds.{find_pollfd, get_pollfd_by_num, handle_epfd_close}
use shmsock.Socket.Control.{getpeername, close}

-- Where `accept4` starts: a listening descriptor, over interfaces that are as they should be.
pub record Accepts (s : State) (sockfd i : ℕ) (d : Fd) : Type 0 where
  pub found : find_fd sockfd s.process.fds ≡ some i
  pub at : get_elem? s.process.fds i ≡ some d
  pub live : d.state ≡ s_listen
  pub slots : All (Slot s.memory) s.process.interfaces

-- The connection that is next.
abbrev pub next_conn : State → Fd → Ptr
next_conn s d =
    any_pending s.memory s.process.side d.listen_port
      (λ i. d.listen_address == 0 || own_address s.process.side i == d.listen_address)
      s.process.interfaces

remote_port-open :
    (k : Side) (c : Connection) → remote_port k (record c { conn_state = c_open }) ≡ remote_port k c
remote_port-open server c = refl
remote_port-open client c = refl

module _ (ext : External) (laws : ExternalLaws ext) (s : State) (sockfd i : ℕ) (d : Fd)
    (h : Accepts s sockfd i d) where
  accept_start :
      (addr : Option SockaddrIn) (flags : ℕ) (schedule : Schedule) (c : Ptr) (t : State)
      → accept_wait ext schedule i s ≡ ok (some c) t
      → accept4 ext sockfd addr flags schedule s ≡ accept_fd ext c flags addr t
  unfolding accept4 get_fd_by_num load_fd
  accept_start addr flags schedule c t run = simp (h.found, h.at, h.live, run)

  round_hit :
      (sleep : Cmd (Option Ptr)) (b : Block Connection)
      → next_conn s d ≢ null
      → s.memory.conns (next_conn s d) ≡ some b
      → accept_round ext i sleep s
        ≡ ok (some (next_conn s d)) (record s { memory = opened s.memory (next_conn s d) b })
  unfolding accept_round load_fd
  round_hit sleep b ne at_c =
      let e1 : (next_conn s d == null) ≡ false = ground (arith, ne) in
      simp (h.at, accept_any_lem ext laws s d.listen_address d.listen_port h.slots, e1, at_c)

  wait_hit :
      (schedule : Schedule) (b : Block Connection)
      → next_conn s d ≢ null
      → s.memory.conns (next_conn s d) ≡ some b
      → accept_wait ext schedule i s
        ≡ ok (some (next_conn s d)) (record s { memory = opened s.memory (next_conn s d) b })
  unfolding accept_wait
  wait_hit [] b ne at_c = round_hit _ b ne at_c
  wait_hit (env ∷ rest) b ne at_c = round_hit _ b ne at_c

  -- Where a connection is offered and all descriptors are in use, `accept4` opens the connection
  -- and then writes through NULL: the check of the new entry looks at the listener's.
  pub accept_full :
      (addr : Option SockaddrIn) (flags : ℕ) (schedule : Schedule)
      → next_conn s d ≢ null
      → find_empty s.process.fds ≡ none
      → accept4 ext sockfd addr flags schedule s ≡ fault
  unfolding accept_fd
  accept_full addr flags schedule ne full =
      let (b, at_c) =
        any_pending-block s.memory s.process.side d.listen_port _ s.process.interfaces h.slots ne in
      accept_start addr flags schedule (next_conn s d) _ (wait_hit schedule b ne at_c)
      ∙ new_fd-none _ _ _ (record s { memory = opened s.memory (next_conn s d) b }) full

  -- The descriptor that `accept4` makes.
  abbrev pub accepted_fd : ℕ → Fd → Fd
  accepted_fd flags e = record e {
    num = s.process.current_max_fd;
    state = s_open;
    conn = next_conn s d;
    flag_nonblock = bit_and flags sock_nonblock;
    active = true;
  }

  abbrev pub after_accept : ℕ → ℕ → Fd → Block Connection → State
  after_accept flags j e b = record {
    memory = opened s.memory (next_conn s d) b;
    process = record s.process {
      current_max_fd = s.process.current_max_fd + 1;
      fds = set s.process.fds j (accepted_fd flags e);
    };
  }

  abbrev pub peer_address : Block Connection → Interface → SockaddrIn
  peer_address b f = record {
    sin_family = af_inet;
    sin_port = remote_port s.process.side b.value;
    sin_addr = remote_address s.process.side f;
  }

  module _ (flags j : ℕ) (e : Fd) (b : Block Connection) (f : Interface) (good : Good s)
      (free : find_empty s.process.fds ≡ some j) (at_j : get_elem? s.process.fds j ≡ some e)
      (ne : next_conn s d ≢ null) (at_c : s.memory.conns (next_conn s d) ≡ some b)
      (iface : b.value.associated_iface ≢ null)
      (at_f : s.memory.ifaces b.value.associated_iface ≡ some f) where
    at_new : get_elem? (set s.process.fds j (accepted_fd flags e)) j ≡ some (accepted_fd flags e)
    at_new = get_elem?-set_self s.process.fds j _ (lt_of_get_elem? s.process.fds j at_j)

    found_new :
        find_fd s.process.current_max_fd (set s.process.fds j (accepted_fd flags e)) ≡ some j
    found_new =
        find_fd-active (IsTable-new good j (accepted_fd flags e) refl) j (accepted_fd flags e)
          at_new refl

    peername_new :
        (addr : SockaddrIn)
        → getpeername s.process.current_max_fd (some addr) (after_accept flags j e b)
          ≡ ok (pos 0, some (peer_address b f)) (after_accept flags j e b)
    unfolding getpeername get_fd_by_num load_fd load_conn load_iface
    peername_new addr =
        let e1 : (next_conn s d == null) ≡ false = ground (arith, ne) in
        let e2 : (b.value.associated_iface == null) ≡ false = ground (arith, iface) in
        simp (found_new, at_new, e1, ==_refl, e2, at_f, remote_port-open s.process.side b.value)

    peername_null : getpeername s.process.current_max_fd none (after_accept flags j e b) ≡ fault
    unfolding getpeername get_fd_by_num load_fd load_conn
    peername_null =
        let e1 : (next_conn s d == null) ≡ false = ground (arith, ne) in
        simp (found_new, at_new, e1, ==_refl)

    accept_run :
        (addr : Option SockaddrIn) (schedule : Schedule)
        → accept4 ext sockfd addr flags schedule s
          ≡ and_then
              (getpeername s.process.current_max_fd addr (after_accept flags j e b))
              (λ r. pure (pos s.process.current_max_fd, r.1))
    unfolding accept_fd
    accept_run addr schedule =
        accept_start addr flags schedule (next_conn s d) _ (wait_hit schedule b ne at_c)
        ∙ new_fd-some _ _ _ (record s { memory = opened s.memory (next_conn s d) b }) j e free at_j

    -- Where a connection is offered to a listening descriptor and an entry of the table is free,
    -- `accept4` at once opens the first such connection and returns the next number, for a
    -- descriptor in the state s_open on that connection, which does not block if the flags say so;
    -- `getFdByNum` finds it, and the caller's address is that of the other side.
    pub accept4_lem :
        (addr : SockaddrIn) (schedule : Schedule)
        → (accept4 ext sockfd (some addr) flags schedule s
            ≡ ok (pos s.process.current_max_fd, some (peer_address b f)) (after_accept flags j e b))
          × (find_fd s.process.current_max_fd (after_accept flags j e b).process.fds ≡ some j)
          × Good (after_accept flags j e b)
    accept4_lem addr schedule = (
      rw (accept_run (some addr) schedule, peername_new addr),
      found_new,
      IsTable-new good j (accepted_fd flags e) refl,
    )

    -- In the same situation a call with NULL for the address, which the API allows, is a write
    -- through NULL.
    pub accept4_null_address :
        (schedule : Schedule) → accept4 ext sockfd none flags schedule s ≡ fault
    accept4_null_address schedule = rw (accept_run none schedule, peername_null)

    -- `accept4` does not look whether numbers are left, as `socket` does: from POLLFD_START on it
    -- still succeeds, but `close` takes the number that it returned for one of an epoll descriptor
    -- and, where there is none with that number, fails with EBADF and leaves all as it is.
    pub accept_unclosable :
        (addr : SockaddrIn) (schedule : Schedule) (kernel : Kernel)
        → pollfd_start ≤ s.process.current_max_fd
        → find_pollfd s.process.current_max_fd s.process.pollfds ≡ none
        → (accept4 ext sockfd (some addr) flags schedule s
            ≡ ok (pos s.process.current_max_fd, some (peer_address b f)) (after_accept flags j e b))
          × (close ext kernel s.process.current_max_fd (after_accept flags j e b)
              ≡ fail ebadf (after_accept flags j e b))
    unfolding close handle_epfd_close get_pollfd_by_num
    accept_unclosable addr schedule kernel over unknown =
        let e1 : ltb s.process.current_max_fd fd_start ≡ false = ground (arith, over) in
        let e2 : ltb s.process.current_max_fd pollfd_start ≡ false = ground (arith, over) in
        ((accept4_lem addr schedule).0, simp (e1, e2, unknown))
