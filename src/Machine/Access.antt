-- ===== src/Machine/Access.antt =====
-- What the reads and writes of `Machine.Cmd` do where they do not fault.
use shmsock.Base.{ℕ, ◌≤◌, ◌≡◌, ◌≢◌, List, Option, some, arith, length, take}
use mathlib.Core.Path.{fun_ext}
use shmsock.Llist.{Ptr, null}
use shmsock.Machine.{BufferEntry, Connection, Block, State}
use shmsock.Machine.Cmd.{
  ok, update, deref, load_conn, update_conn, load_entry, update_entry, memcpy,
}

pub deref_lem :
    {A : Type 0} (f : Ptr → Option A) (p : Ptr) {b : A}
    → p ≢ null
    → f p ≡ some b
    → deref f p ≡ some b
deref_lem f p h e = ground arith

pub deref-update :
    {A : Type 0} (f : Ptr → Option A) (p : Ptr) {v : Option A}
    → p ≢ null
    → deref (update f p v) p ≡ v
deref-update f p h = ground arith

pub update-update :
    {A : Type 0} (f : Ptr → Option A) (p : Ptr) (v w : Option A)
    → update (update f p v) p w ≡ update f p w
update-update f p v w = fun_ext λ q. ground arith

pub update_self : {A : Type 0} (f : Ptr → Option A) (p : Ptr) (v : Option A) → update f p v p ≡ v
update_self f p v = ground arith

module _ (p : Ptr) (s : State) (ne : p ≢ null) where
  pub load_conn_lem :
      (b : Block Connection) → s.memory.conns p ≡ some b → load_conn p s ≡ ok b.value s
  unfolding load_conn
  load_conn_lem b e = rw (deref_lem s.memory.conns p ne e)

  pub update_conn_lem :
      (f : Connection → Connection) (b : Block Connection)
      → s.memory.conns p ≡ some b
      → update_conn p f s
        ≡ ok tt (record s {
          memory = record s.memory {
            conns = update s.memory.conns p (some (record b { value = f b.value }));
          };
        })
  unfolding update_conn
  update_conn_lem f b e = rw (deref_lem s.memory.conns p ne e)

  pub load_entry_lem :
      (b : Block BufferEntry) → s.memory.entries p ≡ some b → load_entry p s ≡ ok b.value s
  unfolding load_entry
  load_entry_lem b e = rw (deref_lem s.memory.entries p ne e)

  pub update_entry_lem :
      (f : BufferEntry → BufferEntry) (b : Block BufferEntry)
      → s.memory.entries p ≡ some b
      → update_entry p f s
        ≡ ok tt (record s {
          memory = record s.memory {
            entries = update s.memory.entries p (some (record b { value = f b.value }));
          };
        })
  unfolding update_entry
  update_entry_lem f b e = rw (deref_lem s.memory.entries p ne e)

pub memcpy_lem :
    (from : List ℕ) (len : ℕ) (s : State)
    → len ≤ length from
    → memcpy from len s ≡ ok (take len from) s
unfolding memcpy
memcpy_lem from len s h = ground arith
