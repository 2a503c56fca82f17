-- ===== src/Examples.antt =====
-- A concrete setting: a linked-list library over lists, a malloc that looks for a free address, and
-- a server and a client with one interface and one connection between them.
pub mod Connections
pub mod Descriptors
pub mod Transfers
pub mod Accepting
pub mod Connecting
pub mod Calls
pub mod Setup
pub mod Events
pub mod Waiting
pub mod Polling
pub mod Regions
use shmsock.Base.{
  ℕ, zero, suc, ◌+◌, ◌≡◌, ◌≢◌, refl, Bool, true, false, List, [], ◌∷◌, ◌++◌, Option, none, some,
  arith, if◌then◌else◌, ◌==◌, ◌&&◌, is_some, not, length, erase_idx, replicate, ==_refl, Bool-cases,
  inl, inr,
}
use shmsock.Llist.{Ptr, null, Ll, LinkedList, LinkedListLaws, item_at, Llist}
use shmsock.Machine.{
  ℤ, pos, negsuc, Side, server, client, c_open, c_create, c_close, s_created, s_open, s_listen,
  success, ConnectionState, BufferEntry, Interface, Connection, Block, Memory, Fd, Process, State,
  mctx, External, ExternalLaws, Kernel,
}

-- A call in another context than that of the nodes does nothing.
abbrev guarded : Ptr → Ll → List Ptr → ℕ × Ll
guarded c l xs = if l.arena == c then (0, record l { items = xs }) else (1, l)

abbrev pub ll : LinkedList
ll = record {
  ll_new = λ c. record { items = []; arena = c };
  ll_len = λ l. length l.items;
  ll_delete = λ c l. (guarded c l []).1;
  ll_insert_n = λ c l v n. guarded c l (v ∷ l.items);
  ll_insert_first = λ c l v. guarded c l (v ∷ l.items);
  ll_insert_last = λ c l v. guarded c l (l.items ++ v ∷ []);
  ll_remove_n = λ c l n. guarded c l (erase_idx l.items n);
  ll_remove_first = λ c l. guarded c l (erase_idx l.items 0);
  ll_remove_search = λ c l f. (0, l);
  ll_get_n = λ c l n. if l.arena == c then item_at l.items n else null;
  ll_get_first = λ c l. if l.arena == c then item_at l.items 0 else null;
}

guarded_lem :
    (c : Ptr) (l : Ll) (xs : List Ptr) → l.arena ≡ c → (guarded c l xs).1 ≡ record l { items = xs }
guarded_lem c l xs e = rw (e, ==_refl c)

pub ll_laws : LinkedListLaws ll
ll_laws = record {
  new_items = λ c. refl;
  new_arena = λ c. refl;
  len_items = λ l. refl;
  insert_first_items = λ c l v e. guarded_lem c l _ e;
  insert_last_items = λ c l v e. guarded_lem c l _ e;
  remove_n_items = λ c l i e. guarded_lem c l _ e;
  remove_first_items = λ c l e. guarded_lem c l _ e;
  get_n_items = λ c l i e. rw (e, ==_refl c);
  get_first_items = λ c l e. rw (e, ==_refl c);
}

-- Free for a connection and for a packet.
abbrev free_at : Memory → Ptr → Bool
free_at m p = not (is_some (m.conns p)) && not (is_some (m.entries p))

-- The first free address from `p` on, among so many.
unfoldable pub search_free : ℕ → Ptr → Memory → Ptr
search_free zero p m = null
search_free (suc n) p m = if free_at m p then p else search_free n (p + 1) m

none_of_free : {A : Type 0} (o : Option A) (b : Bool) → (not (is_some o) && b) ≡ true → o ≡ none
none_of_free none b e = refl
none_of_free (some a) b e = ground arith

search_free_lem :
    (n : ℕ) (p : Ptr) (m : Memory)
    → search_free n p m ≢ null
    → (m.conns (search_free n p m) ≡ none) × (m.entries (search_free n p m) ≡ none)
unfolding search_free
search_free_lem zero p m ne = absurd (ne refl)
search_free_lem (suc n) p m ne = elim (Bool-cases (free_at m p)) [
  | inl t ↦ rw t (free_at_lem t)
  | inr t ↦ rw t (search_free_lem n (p + 1) m (rw t at ne))
]
  where
    free_at_lem : free_at m p ≡ true → (m.conns p ≡ none) × (m.entries p ≡ none)
    free_at_lem e = (ground (arith, e), ground (arith, e))

abbrev pub ext : External
ext = record {
  ll = ll;
  malloc = λ c m size. search_free 20 1000 m;
  junk_connection = λ p. record {
    conn_state = c_close;
    associated_iface = 77;
    to_server = record { list = record { items = 5 ∷ []; arena = 3 }; malloc_ctx = 4 };
    to_client = record { list = record { items = 6 ∷ []; arena = 3 }; malloc_ctx = 4 };
    server_events = 9;
    client_events = 9;
    server_lt_events = 9;
    client_lt_events = 9;
    server_port = 9;
    client_port = 9;
  };
  junk_entry = λ p. record { datasize = 9; offset = 9; bytes = [] };
}

pub ext_laws : ExternalLaws ext
ext_laws = record {
  ll_laws = ll_laws;
  fresh_connection = λ c m size ne. (search_free_lem 20 1000 m ne).0;
  fresh_entry = λ c m size ne. (search_free_lem 20 1000 m ne).1;
}

abbrev pub kernel : Kernel
kernel = record {
  sys_close = λ fd e. (pos 0, e);
  sys_ioctl = λ fd request argp e. (pos 0, e);
  sys_read = λ fd count e. (pos 0, [], e);
  sys_write = λ fd buf count e. (pos count, e);
  sys_fcntl = λ fd cmd arg e. (pos 0, e);
  sys_epoll_create1 = λ flags e. (pos 9, e);
  sys_epoll_ctl = λ epfd op fd event e. (pos 0, e);
  sys_epoll_wait = λ elapsed epfd room e. ([], e);
}

-- The interface at 100, with the connections of the list.
abbrev pub iface : List Ptr → Interface
iface conns = record {
  magic = 0x12344321;
  connection_list = record { list = record { items = conns; arena = 124 }; malloc_ctx = 124 };
  server_address = 1;
  client_address = 2;
  shmem_size = 4096;
  shmem_start = 100;
  shmem_end = 4196;
}

abbrev pub buffer : List Ptr → Llist
buffer packets = record { list = record { items = packets; arena = 124 }; malloc_ctx = 124 }

-- A connection of the interface, with these packets on the way.
abbrev pub connection : ConnectionState → List Ptr → List Ptr → Connection
connection state to_server to_client = record {
  conn_state = state;
  associated_iface = 100;
  to_server = buffer to_server;
  to_client = buffer to_client;
  server_events = 0;
  client_events = 0;
  server_lt_events = 0;
  client_lt_events = 0;
  server_port = 80;
  client_port = 9000;
}

-- A packet with three bytes, of which one has been read; and an empty packet.
abbrev pub packet : Block BufferEntry
packet = record { arena = 124; value = record { datasize = 2; offset = 1; bytes = 7 ∷ 8 ∷ 9 ∷ [] } }

abbrev pub empty_packet : Block BufferEntry
empty_packet = record { arena = 124; value = record { datasize = 0; offset = 0; bytes = [] } }

-- The interface at 100 lists `conns`; the connection is at 500, a packet at 600 and an empty one at
-- 601.
abbrev pub memory : List Ptr → Connection → Memory
memory conns c = record {
  ifaces = λ q. if 100 == q then some (iface conns) else none;
  conns = λ q. if 500 == q then some (record { arena = 124; value = c }) else none;
  entries = λ q. if 600 == q then some packet else if 601 == q then some empty_packet else none;
}

abbrev pub no_fd : Fd
no_fd = record {
  num = 0;
  state = s_created;
  listen_port = 0;
  listen_address = 0;
  flag_nonblock = 0;
  conn = null;
  active = false;
}

-- A process whose table has these descriptors and free entries behind them.
abbrev pub process : Side → List Fd → ℕ → Process
process side fds next = record {
  side = side;
  interfaces = 100 ∷ null ∷ [];
  context = null;
  errno = success;
  fds = fds;
  current_max_fd = next;
  random_port = 1024;
  pollfds = [];
  random_poll_fd = 900;
  poll_epollfd = none;
}

abbrev pub state : Side → List Ptr → Connection → State
state side conns c = record {
  memory = memory conns c;
  process = process side (replicate 50 no_fd) 700;
}
