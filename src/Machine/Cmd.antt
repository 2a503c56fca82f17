-- ===== src/Machine/Cmd.antt =====
-- Commands: what a C function does to the state, with the faults of C and the sleeps of a call
-- that blocks. A fault is a read or write through `NULL`, through a pointer to no block of the
-- type, or past the end of an array; also a `free` in another malloc context.
use shmsock.Base.{
  ℕ, List, Option, none, some, if◌then◌else◌, ◌==◌, leb, length, get_elem?, set, take, ltb, ◌%◌,
  ◌^◌,
}
use shmsock.Llist.{Ptr, null, Llist}
use shmsock.Machine.{
  BufferEntry, Interface, Connection, Block, Memory, Fd, Process, State, External, Errno,
}

-- `asleep`: the call still waits when the others have done all that the schedule has them do.
pub data Run (A : Type 0) : Type 0 where
  ok : A → State → Run A
  fault : Run A
  asleep : Run A

abbrev pub Cmd : Type 0 → Type 0
Cmd A = State → Run A

-- What other threads and the other process do during one sleep, for each sleep of a call.
abbrev pub Schedule : Type 0
Schedule = List (State → State)

abbrev pub pure : {A : Type 0} → A → Cmd A
pure = ok

module _ {A B : Type 0} where
  abbrev pub and_then : Run A → (A → Cmd B) → Run B
  and_then (ok a s) k = k a s
  and_then fault k = fault
  and_then asleep k = asleep

  infixl 5 ◌>>=◌ ◌>>◌
  abbrev pub ◌>>=◌ : Cmd A → (A → Cmd B) → Cmd B
  m >>= k = λ s. and_then (m s) k

  abbrev pub ◌>>◌ : Cmd A → Cmd B → Cmd B
  m >> n = m >>= λ _. n

abbrev pub get_process : Cmd Process
get_process s = ok s.process s

abbrev pub get_memory : Cmd Memory
get_memory s = ok s.memory s

abbrev pub put_process : Process → Cmd (Unit {0})
put_process p s = ok tt (record s { process = p })

abbrev pub put_memory : Memory → Cmd (Unit {0})
put_memory m s = ok tt (record s { memory = m })

-- setMallocContext, and `errno = e`
abbrev pub set_context : Ptr → Cmd (Unit {0})
set_context c s = ok tt (record s { process = record s.process { context = c } })

abbrev pub set_errno : Errno → Cmd (Unit {0})
set_errno e s = ok tt (record s { process = record s.process { errno = e } })

-- One word of a map changed.
abbrev pub update : {A : Type 0} → (Ptr → Option A) → Ptr → Option A → Ptr → Option A
update f p v q = if p == q then v else f q

-- What a pointer leads to.
abbrev pub deref : {A : Type 0} → (Ptr → Option A) → Ptr → Option A
deref f p = if p == null then none else f p

abbrev pub or_fault : {A : Type 0} → Option A → Cmd A
or_fault none s = fault
or_fault (some a) s = ok a s

unfoldable pub load_conn : Ptr → Cmd Connection
load_conn p = do m ← get_memory; b ← or_fault (deref m.conns p); pure b.value

unfoldable pub update_conn : Ptr → (Connection → Connection) → Cmd (Unit {0})
update_conn p f = do
  m ← get_memory
  b ← or_fault (deref m.conns p)
  put_memory (record m { conns = update m.conns p (some (record b { value = f b.value })) })

unfoldable pub load_entry : Ptr → Cmd BufferEntry
load_entry p = do m ← get_memory; b ← or_fault (deref m.entries p); pure b.value

unfoldable pub update_entry : Ptr → (BufferEntry → BufferEntry) → Cmd (Unit {0})
update_entry p f = do
  m ← get_memory
  b ← or_fault (deref m.entries p)
  put_memory (record m { entries = update m.entries p (some (record b { value = f b.value })) })

unfoldable pub load_iface : Ptr → Cmd Interface
load_iface p = do m ← get_memory; or_fault (deref m.ifaces p)

unfoldable pub update_iface : Ptr → (Interface → Interface) → Cmd (Unit {0})
update_iface p f = do
  m ← get_memory
  i ← or_fault (deref m.ifaces p)
  put_memory (record m { ifaces = update m.ifaces p (some (f i)) })

-- fds[i]
unfoldable pub load_fd : ℕ → Cmd Fd
load_fd i = do p ← get_process; or_fault (get_elem? p.fds i)

unfoldable pub update_fd : ℕ → (Fd → Fd) → Cmd (Unit {0})
update_fd i f = do
  p ← get_process
  d ← or_fault (get_elem? p.fds i)
  put_process (record p { fds = set p.fds i (f d) })

-- free, in the context that is current
unfoldable pub free_conn : Ptr → Cmd (Unit {0})
free_conn p = do
  m ← get_memory
  pr ← get_process
  b ← or_fault (deref m.conns p)
  if b.arena == pr.context then put_memory (record m { conns = update m.conns p none }) else λ s.
      fault

unfoldable pub free_entry : Ptr → Cmd (Unit {0})
free_entry p = do
  m ← get_memory
  pr ← get_process
  b ← or_fault (deref m.entries p)
  if b.arena == pr.context
      then put_memory (record m { entries = update m.entries p none })
      else λ s. fault

-- memcpy of `len` bytes out of an array
unfoldable pub memcpy : List ℕ → ℕ → Cmd (List ℕ)
memcpy from len s = if leb len (length from) then ok (take len from) s else fault

-- A call of list.c, which is run in the context of the process and may change it.
abbrev pub in_context : {A : Type 0} → (Ptr → A × Ptr) → Cmd A
in_context call s =
    let r = call s.process.context in
    ok r.0 (record s { process = record s.process { context = r.1 } })

-- The same for a call that changes a list and returns an `int` that its caller ignores.
abbrev pub change_list : (Ptr → ℕ × Llist × Ptr) → Cmd Llist
change_list call s =
    let r = call s.process.context in
    ok r.1 (record s { process = record s.process { context = r.2 } })

module _ (ext : External) where
  -- malloc. Nothing is written at `NULL`, which says that there is no memory left.
  unfoldable pub malloc_conn : ℕ → Cmd Ptr
  malloc_conn size s =
      let p = ext.malloc s.process.context s.memory size in
      let b : Block Connection = record {
        arena = s.process.context;
        value = ext.junk_connection p;
      } in
      if p == null
      then ok null s
      else ok p (record s { memory = record s.memory { conns = update s.memory.conns p (some b) } })

  unfoldable pub malloc_entry : ℕ → Cmd Ptr
  malloc_entry size s =
      let p = ext.malloc s.process.context s.memory size in
      let b : Block BufferEntry = record { arena = s.process.context; value = ext.junk_entry p } in
      if p == null
      then ok null s
      else ok p
          (record s { memory = record s.memory { entries = update s.memory.entries p (some b) } })

-- `(int)len` for a `size_t`: the low 32 bits, read as a signed number. A negative length makes
-- the copy that follows run out of every array.
unfoldable pub int_of_size : ℕ → Cmd ℕ
int_of_size len s = let low = len % 2 ^ 32 in if ltb low (2 ^ 31) then ok low s else fault
