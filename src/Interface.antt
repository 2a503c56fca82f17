-- ===== src/Interface.antt =====
-- util.c, the part on interfaces: the table of the shared regions and their registration.
pub mod Registered
use shmsock.Base.{
  ℕ, suc, ◌+◌, Bool, true, false, List, [], ◌∷◌, Option, none, some, if◌then◌else◌, ◌==◌, set,
}
use shmsock.Llist.{Ptr, null, llist_new}
use shmsock.Machine.{Side, Interface, Block, External, mctx}
use shmsock.Machine.Sides.{own_address, remote_address}
use shmsock.Machine.Cmd.{
  Cmd, pure, ◌>>=◌, ◌>>◌, get_process, put_process, get_memory, put_memory, load_iface, in_context,
}

-- The first slot of `interfaces` that holds `NULL`.
unfoldable pub first_free : List Ptr → Option ℕ
first_free [] = none
first_free (p ∷ ps) =
    if p == null then some 0 else elim (first_free ps) [ none ↦ none | some i ↦ some (suc i) ]

unfoldable pub get_free_interface : Cmd (Option ℕ)
get_free_interface = do p ← get_process; pure (first_free p.interfaces)

-- The first interface of the table that passes a test, or `NULL`.
unfoldable pub find_interface : (Interface → Bool) → List Ptr → Cmd Ptr
find_interface test [] = pure null
find_interface test (p ∷ ps) =
    let rest = find_interface test ps in
    if p == null then rest else (do i ← load_iface p; if test i then pure p else rest)

unfoldable pub get_interface_by_sockaddr : ℕ → Cmd Ptr
unfolding find_interface
get_interface_by_sockaddr address = do
  p ← get_process
  find_interface (λ i. remote_address p.side i == address) p.interfaces

unfoldable pub get_own_interface_by_sockaddr : ℕ → Cmd Ptr
unfolding find_interface
get_own_interface_by_sockaddr address = do
  p ← get_process
  find_interface (λ i. own_address p.side i == address) p.interfaces

-- IFACE_MAGIC
abbrev pub iface_magic : ℕ
iface_magic = 0x12344321

-- Everything that was allocated in a region goes with a memset of the region.
abbrev pub outside : {A : Type 0} → Ptr → (Ptr → Option (Block A)) → Ptr → Option (Block A)
outside arena f p = elim (f p) [ none ↦ none | some b ↦ if b.arena == arena then none else some b ]

module _ (ext : External) where
  -- What the server writes into a region: all zero first, then its fields, then the malloc context
  -- over what is behind them and the empty list of connections. A field that is zero is written
  -- by the memset. The addresses are named for the side that calls.
  unfoldable pub fill_region : Side → Ptr → ℕ → ℕ → ℕ → Cmd (Unit {0})
  fill_region side region size remote own = do
    m ← get_memory
    list ← in_context (llist_new ext.ll (mctx region))
    let i : Interface = record {
      magic = iface_magic;
      connection_list = list;
      server_address = elim side [ Side.server ↦ own | Side.client ↦ remote ];
      client_address = elim side [ Side.server ↦ remote | Side.client ↦ own ];
      shmem_size = size;
      shmem_start = region;
      shmem_end = region + size;
    }
    put_memory (record m {
      ifaces = λ q. if region == q then some i else m.ifaces q;
      conns = outside (mctx region) m.conns;
      entries = outside (mctx region) m.entries;
    })

  -- What follows once a slot is found. Only a server fills the region.
  unfoldable pub use_slot : ℕ → Ptr → ℕ → Bool → ℕ → ℕ → Cmd Bool
  unfolding fill_region
  use_slot i region size as_server remote own = if region == null then pure false else (do
    p ← get_process
    put_process (record p { interfaces = set p.interfaces i region })
    if as_server then (do fill_region p.side region size remote own; pure true) else pure true)

  -- `registerInterface2`: the region is the argument `addr`, and the result is false for 0.
  unfoldable pub register_interface : Ptr → ℕ → Bool → ℕ → ℕ → Cmd Bool
  unfolding use_slot get_free_interface
  register_interface region size as_server remote own = do
    slot ← get_free_interface
    elim slot [ none ↦ pure false | some i ↦ use_slot i region size as_server remote own ]
