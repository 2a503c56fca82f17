-- ===== src/Machine.antt =====
-- The data of socket.h, util.h and event.h: what lies in shared memory, and what each of the two
-- processes that are linked with the library keeps for itself.
pub mod Cmd
pub mod Access
pub mod Sides
use shmsock.Base.{ℕ, ◌≡◌, ◌≢◌, Bool, List, Option, none, ◌+◌}
use shmsock.Llist.{Ptr, null, Llist, LinkedList, LinkedListLaws}

-- An `int` that may be negative: `negsuc n` is -(n + 1).
pub data ℤ : Type 0 where
  pos : ℕ → ℤ
  negsuc : ℕ → ℤ

-- -1
abbrev pub failure : ℤ
failure = negsuc 0

-- MODE_SERVER is defined for one of the two processes, and decides which half of the shared
-- fields is its own.
pub data Side : Type 0 where
  server client : Side

abbrev pub peer : Side → Side
peer server = client
peer client = server

-- enum connectionState
pub data ConnectionState : Type 0 where
  c_create c_open c_close c_listen : ConnectionState

-- enum socketState
pub data SocketState : Type 0 where
  s_created s_bound s_listen s_open s_close s_connecting s_connected s_shutdown : SocketState

-- The values of the two enums, by which C compares.
abbrev pub conn_num : ConnectionState → ℕ
conn_num c_create = 0
conn_num c_open = 1
conn_num c_close = 2
conn_num c_listen = 3

abbrev pub state_num : SocketState → ℕ
state_num s_created = 0
state_num s_bound = 1
state_num s_listen = 2
state_num s_open = 3
state_num s_close = 4
state_num s_connecting = 5
state_num s_connected = 6
state_num s_shutdown = 7

-- The values of `errno` that the library sets; `other` are those of the kernel.
pub data Errno : Type 0 where
  success ebadf enomem eafnosupport eprotonosupport enfile eagain enetunreach : Errno
  econnrefused einprogress ealready enotconn einval eexist enoent : Errno
  other : ℕ → Errno

-- struct bufferEntry, with the bytes of its flexible array
pub record BufferEntry : Type 0 where
  pub datasize : ℕ
  pub offset : ℕ
  pub bytes : List ℕ

-- struct interface. The server's `own_address` and the client's `remote_address` are one field.
pub record Interface : Type 0 where
  pub magic : ℕ
  pub connection_list : Llist
  pub server_address : ℕ
  pub client_address : ℕ
  pub shmem_size : ℕ
  pub shmem_start : Ptr
  pub shmem_end : Ptr

-- struct connection. The server's `recvBuffer` and the client's `sendBuffer` are one field, and
-- so on for the event masks and the ports.
pub record Connection : Type 0 where
  pub conn_state : ConnectionState
  pub associated_iface : Ptr
  pub to_server : Llist
  pub to_client : Llist
  pub server_events : ℕ
  pub client_events : ℕ
  pub server_lt_events : ℕ
  pub client_lt_events : ℕ
  pub server_port : ℕ
  pub client_port : ℕ

-- A block that malloc handed out in the context `arena`.
pub record Block (A : Type 0) : Type 0 where
  pub arena : Ptr
  pub value : A

-- What both processes can reach through pointers, by type. (Listener connections, which only
-- their own process uses, stand here too.)
pub record Memory : Type 0 where
  pub ifaces : Ptr → Option Interface
  pub conns : Ptr → Option (Block Connection)
  pub entries : Ptr → Option (Block BufferEntry)

-- struct fd; a `struct fd*` is an index into the array.
pub record Fd : Type 0 where
  pub num : ℕ
  pub state : SocketState
  pub listen_port : ℕ
  pub listen_address : ℕ
  pub flag_nonblock : ℕ
  pub conn : Ptr
  pub active : Bool

-- struct epoll_event
pub record EpollEvent : Type 0 where
  pub events : ℕ
  pub user : ℕ

-- struct eventListenFd
pub record EventListenFd : Type 0 where
  pub active : Bool
  pub is_level_triggered : Bool
  pub event : EpollEvent
  pub fd : ℕ

-- struct epollfd
pub record Epollfd : Type 0 where
  pub active : Bool
  pub num : ℕ
  pub all_flags : ℕ
  pub is_mixed : Bool
  pub real_pollfd : ℤ
  pub lfds : List EventListenFd

-- The global variables of one process: those of util.c, socket.c and event.c, the malloc context
-- that is current and `errno`. `poll_epollfd` is the static variable of `poll`, none for -1.
pub record Process : Type 0 where
  pub side : Side
  pub interfaces : List Ptr
  pub context : Ptr
  pub errno : Errno
  pub fds : List Fd
  pub current_max_fd : ℕ
  pub random_port : ℕ
  pub pollfds : List Epollfd
  pub random_poll_fd : ℕ
  pub poll_epollfd : Option ℕ

pub record State : Type 0 where
  pub memory : Memory
  pub process : Process

-- struct sockaddr_in
pub record SockaddrIn : Type 0 where
  pub sin_family : ℕ
  pub sin_port : ℕ
  pub sin_addr : ℕ

-- &pIface->mctx
abbrev pub mctx : Ptr → Ptr
mctx iface = iface + 24

-- What the library calls and does not implement. `malloc` takes the context that is current, what
-- is in use and a size; the fresh block holds what `junk_connection` or `junk_entry` say.
pub record External : Type 0 where
  pub ll : LinkedList
  pub malloc : Ptr → Memory → ℕ → Ptr
  pub junk_connection : Ptr → Connection
  pub junk_entry : Ptr → BufferEntry

-- A block that malloc hands out is not in use.
pub record ExternalLaws (ext : External) : Type 0 where
  pub ll_laws : LinkedListLaws ext.ll
  pub fresh_connection :
      (c : Ptr) (m : Memory) (size : ℕ)
      → ext.malloc c m size ≢ null
      → m.conns (ext.malloc c m size) ≡ none
  pub fresh_entry :
      (c : Ptr) (m : Memory) (size : ℕ)
      → ext.malloc c m size ≢ null
      → m.entries (ext.malloc c m size) ≡ none

-- The system calls that descriptors below FD_START are passed to: the result and `errno`.
pub record Kernel : Type 0 where
  pub sys_close : ℕ → Errno → ℤ × Errno
  pub sys_ioctl : ℕ → ℕ → ℕ → Errno → ℤ × Errno
  pub sys_read : ℕ → ℕ → Errno → ℤ × List ℕ × Errno
  pub sys_write : ℕ → List ℕ → ℕ → Errno → ℤ × Errno
  pub sys_fcntl : ℕ → ℕ → ℕ → Errno → ℤ × Errno
  pub sys_epoll_create1 : ℕ → Errno → ℤ × Errno
  pub sys_epoll_ctl : ℤ → ℕ → ℕ → Option EpollEvent → Errno → ℤ × Errno
  -- How often the call has slept before, the descriptor, the room in the array and `errno`: the
  -- events that are stored, none on an error.
  pub sys_epoll_wait : ℕ → ℤ → ℕ → Errno → List EpollEvent × Errno
