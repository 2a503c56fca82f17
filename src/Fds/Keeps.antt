-- ===== src/Fds/Keeps.antt =====
-- Commands that keep the invariants of both tables of descriptors, by the way they are built.
pub mod Fresh
use shmsock.Base.{
  ℕ, ◌+◌, ◌≡◌, refl, sym, subst, inl, inr, Bool, true, false, List, Option, none, some, arith,
  if◌then◌else◌, get_elem?, set, Option-cases, lt_of_get_elem?, get_elem?-set_self, set-set,
}
use shmsock.Llist.{Ptr, Llist}
use shmsock.Machine.{ℤ, Errno, BufferEntry, Interface, Connection, Fd, Memory, State, External}
use shmsock.Machine.Cmd.{
  Run, ok, fault, asleep, Cmd, pure, ◌>>=◌, ◌>>◌, and_then, get_process, get_memory, put_memory,
  set_context, set_errno, or_fault, load_conn, update_conn, load_entry, update_entry, load_iface,
  update_iface, load_fd, update_fd, free_conn, free_entry, memcpy, in_context, change_list,
  malloc_conn, malloc_entry, int_of_size,
}
use shmsock.Fds.{
  find_empty, take_entry, get_fd_by_num, get_empty_fd, delete_fd, handle_close_while_io, fail,
  assert_fd_state, assert_fd, next_fd_num,
}
use shmsock.Pollfds.Table.{IsPollTable}
use shmsock.Fds.Table.{IsTable, IsTable-set, IsTable-new, find_empty-some}

abbrev pub Good : State → Type 0
Good s = IsTable s.process.fds s.process.current_max_fd

abbrev pub Sound : State → Type 0
Sound s = Good s × IsPollTable s.process.pollfds s.process.random_poll_fd

abbrev pub Safe : {A : Type 0} → Run A → Type 0
Safe (ok a s) = Sound s
Safe fault = Unit
Safe asleep = Unit

-- However the command ends, both tables are as they should be.
pub record Keeps {A : Type 0} (m : Cmd A) : Type 0 where
  pub at : (s : State) → Sound s → Safe (m s)

module _ {A : Type 0} where
  pub Keeps-pure : (a : A) → Keeps (pure a)
  Keeps-pure a = record { at = λ s h. h }

  pub Keeps-fault : Keeps {A = A} (λ s. fault)
  Keeps-fault = record { at = λ s h. tt }

  pub Keeps-asleep : Keeps {A = A} (λ s. asleep)
  Keeps-asleep = record { at = λ s h. tt }

  pub Keeps-or_fault : (o : Option A) → Keeps (or_fault o)
  Keeps-or_fault none = record { at = λ s h. tt }
  Keeps-or_fault (some a) = record { at = λ s h. h }

  pub Keeps-if : (b : Bool) (m n : Cmd A) → Keeps m → Keeps n → Keeps (if b then m else n)
  Keeps-if true m n km kn = km
  Keeps-if false m n km kn = kn

  pub Keeps-in_context : (call : Ptr → A × Ptr) → Keeps (in_context call)
  Keeps-in_context call = record { at = λ s h. h }

module _ {A B : Type 0} where
  Safe-and_then :
      (r : Run A) (k : A → Cmd B) → Safe r → ((a : A) → Keeps (k a)) → Safe (and_then r k)
  Safe-and_then (ok a s) k h kk = (kk a).at s h
  Safe-and_then fault k h kk = tt
  Safe-and_then asleep k h kk = tt

  pub Keeps-bind : (m : Cmd A) (k : A → Cmd B) → Keeps m → ((a : A) → Keeps (k a)) → Keeps (m >>= k)
  Keeps-bind m k km kk = record { at = λ s h. Safe-and_then (m s) k (km.at s h) kk }

pub Keeps-option :
    {A B : Type 0} (o : Option A) (m : Cmd B) (k : A → Cmd B)
    → Keeps m
    → ((a : A) → Keeps (k a))
    → Keeps (elim o [ none ↦ m | some a ↦ k a ])
Keeps-option none m k km kk = km
Keeps-option (some a) m k km kk = kk a

pub Keeps-change_list : (call : Ptr → ℕ × Llist × Ptr) → Keeps (change_list call)
Keeps-change_list call = record { at = λ s h. h }

pub Keeps-get_process : Keeps get_process
Keeps-get_process = record { at = λ s h. h }

pub Keeps-get_memory : Keeps get_memory
Keeps-get_memory = record { at = λ s h. h }

pub Keeps-put_memory : (m : Memory) → Keeps (put_memory m)
Keeps-put_memory m = record { at = λ s h. h }

pub Keeps-set_context : (c : Ptr) → Keeps (set_context c)
Keeps-set_context c = record { at = λ s h. h }

pub Keeps-set_errno : (e : Errno) → Keeps (set_errno e)
Keeps-set_errno e = record { at = λ s h. h }

pub ruleset keeps_rules = (
  Keeps-pure, Keeps-fault, Keeps-asleep, Keeps-or_fault, Keeps-if, Keeps-in_context, Keeps-bind,
  Keeps-change_list, Keeps-get_process, Keeps-get_memory, Keeps-put_memory, Keeps-set_context,
  Keeps-set_errno,
)

pub Keeps-load_conn : (p : Ptr) → Keeps (load_conn p)
unfolding load_conn
Keeps-load_conn p = search keeps_rules depth 12

pub Keeps-update_conn : (p : Ptr) (f : Connection → Connection) → Keeps (update_conn p f)
unfolding update_conn
Keeps-update_conn p f = search keeps_rules depth 12

pub Keeps-load_entry : (p : Ptr) → Keeps (load_entry p)
unfolding load_entry
Keeps-load_entry p = search keeps_rules depth 12

pub Keeps-update_entry : (p : Ptr) (f : BufferEntry → BufferEntry) → Keeps (update_entry p f)
unfolding update_entry
Keeps-update_entry p f = search keeps_rules depth 12

pub Keeps-load_iface : (p : Ptr) → Keeps (load_iface p)
unfolding load_iface
Keeps-load_iface p = search keeps_rules depth 12

pub Keeps-update_iface : (p : Ptr) (f : Interface → Interface) → Keeps (update_iface p f)
unfolding update_iface
Keeps-update_iface p f = search keeps_rules depth 12

pub Keeps-load_fd : (i : ℕ) → Keeps (load_fd i)
unfolding load_fd
Keeps-load_fd i = search keeps_rules depth 12

pub Keeps-free_conn : (p : Ptr) → Keeps (free_conn p)
unfolding free_conn
Keeps-free_conn p = search keeps_rules depth 12

pub Keeps-free_entry : (p : Ptr) → Keeps (free_entry p)
unfolding free_entry
Keeps-free_entry p = search keeps_rules depth 12

pub Keeps-memcpy : (from : List ℕ) (len : ℕ) → Keeps (memcpy from len)
unfolding memcpy
Keeps-memcpy from len = record { at = λ s h. ground arith }

pub Keeps-int_of_size : (len : ℕ) → Keeps (int_of_size len)
unfolding int_of_size
Keeps-int_of_size len = record { at = λ s h. ground arith }

pub Keeps-malloc_conn : (ext : External) (size : ℕ) → Keeps (malloc_conn ext size)
unfolding malloc_conn
Keeps-malloc_conn ext size = record { at = λ s h. ground arith }

pub Keeps-malloc_entry : (ext : External) (size : ℕ) → Keeps (malloc_entry ext size)
unfolding malloc_entry
Keeps-malloc_entry ext size = record { at = λ s h. ground arith }

-- A write to an entry that keeps its number and does not make it active.
pub Keeps-update_fd :
    (i : ℕ) (f : Fd → Fd)
    → ((d : Fd) → ((f d).num ≡ d.num) × ((f d).active ≡ true → d.active ≡ true))
    → Keeps (update_fd i f)
unfolding update_fd
Keeps-update_fd i f mild = record {
  at = λ s h. elim (Option-cases (get_elem? s.process.fds i)) [
    | inl e ↦ rw e tt
    | inr (d, e) ↦ rw e (IsTable-set h.0 i d (f d) e (mild d).0 (mild d).1, h.1)
  ];
}

pub Keeps-delete_fd : (i : ℕ) → Keeps (delete_fd i)
unfolding delete_fd
Keeps-delete_fd i = Keeps-update_fd i _ (λ d. (refl, λ e. cc))

pub Keeps-handle_close_while_io : (i : ℕ) → Keeps (handle_close_while_io i)
unfolding handle_close_while_io
Keeps-handle_close_while_io i = Keeps-update_fd i _ (λ d. (refl, λ e. e))

pub Keeps-get_fd_by_num : (num : ℕ) → Keeps (get_fd_by_num num)
unfolding get_fd_by_num
Keeps-get_fd_by_num num = search keeps_rules depth 12

pub ruleset state_rules = (
  keeps_rules, Keeps-load_conn, Keeps-update_conn, Keeps-load_entry, Keeps-update_entry,
  Keeps-load_iface, Keeps-update_iface, Keeps-load_fd, Keeps-free_conn, Keeps-free_entry,
  Keeps-memcpy, Keeps-int_of_size, Keeps-malloc_conn, Keeps-malloc_entry, Keeps-delete_fd,
  Keeps-handle_close_while_io, Keeps-get_fd_by_num,
)

pub Keeps-fail : (e : Errno) → Keeps (fail e)
Keeps-fail e = search keeps_rules depth 12

pub Keeps-assert_fd_state :
    (num : ℕ) (test : Fd → Bool) (body : ℕ → Cmd ℤ)
    → ((i : ℕ) → Keeps (body i))
    → Keeps (assert_fd_state num test body)
unfolding assert_fd_state
Keeps-assert_fd_state num test body kb =
    Keeps-bind _ _ (Keeps-get_fd_by_num num)
      (elim [ none ↦ search state_rules depth 12 | some i ↦ search state_rules depth 12 ])

pub Keeps-assert_fd :
    (num : ℕ) (body : ℕ → Cmd ℤ) → ((i : ℕ) → Keeps (body i)) → Keeps (assert_fd num body)
unfolding assert_fd
Keeps-assert_fd num body kb =
    Keeps-bind _ _ (Keeps-get_fd_by_num num)
      (elim [ none ↦ search state_rules depth 12 | some i ↦ kb i ])

-- The state with entry `i` replaced.
abbrev pub with_entry : State → ℕ → Fd → State
with_entry s i d = record s { process = record s.process { fds = set s.process.fds i d } }
