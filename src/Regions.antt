-- ===== src/Regions.antt =====
-- util.c, the part that sets the interfaces up: `setupIface` of an enclave, and `setupIface` of a
-- preloaded library with `registerInterface` and `createSharedRegion`.
pub mod Strings
pub mod Enclave
pub mod Mounted
use Prim.Native.Char.{code}
use Prim.Native.String.{String, ◌++◌, len}
use text.Mathlib.Text.{◌==◌ as same}
use shmsock.Base.{
  ℕ, zero, suc, ◌+◌, ◌*◌, ◌/◌, ◌%◌, ◌-◌, Bool, true, false, List, [], ◌∷◌, Option, none, some,
  if◌then◌else◌, ◌==◌, ◌&&◌, not, length, leb, ltb,
}
use shmsock.Llist.{Ptr, null}
use shmsock.Machine.{Side, server, client, Process, State, External}
use shmsock.Machine.Cmd.{Run, ok, fault, Cmd, pure, ◌>>=◌, ◌>>◌, get_process, or_fault}
use shmsock.Regions.Strings.{straddstr, straddnum, scan_int}
use shmsock.Interface.{get_free_interface, register_interface, use_slot}

-- What a call that may end the program does: `exited` is exit(1).
pub data Setup : Type 0 where
  finished exited : Setup

-- struct region, of the file that the build generates for an enclave
pub record Region : Type 0 where
  pub load_va : Ptr
  pub region_size : ℕ
  pub is_server : Bool
  pub server_address : ℕ
  pub client_address : ℕ

-- The addresses of a region as its own process sees them.
abbrev pub region_remote : Region → ℕ
region_remote r = if r.is_server then r.client_address else r.server_address

abbrev pub region_own : Region → ℕ
region_own r = if r.is_server then r.server_address else r.client_address

module _ (ext : External) where
  unfoldable pub register_regions : List Region → Cmd Setup
  register_regions [] = pure finished
  register_regions (r ∷ rs) = do
    done ←
        register_interface ext r.load_va r.region_size r.is_server (region_remote r) (region_own r)
    if done then register_regions rs else pure exited

  -- `already` is the static variable; the result has what it is afterwards. What
  -- `setupSharedMemory`, which is outside of the library, does is a parameter.
  unfoldable pub setup_iface_enclave : (State → State) → List Region → Bool → Cmd (Setup × Bool)
  setup_iface_enclave setup_shared_memory all_regions already =
      if already
      then pure (finished, already)
      else (λ s. (do r ← register_regions all_regions; pure (r, true)) (setup_shared_memory s))

-- The system calls for shared memory; none for an error. Where `shmat` attaches a segment depends on
-- the process that calls it, which its side tells.
pub record SharedMemory : Type 0 where
  pub ftok : String → Option ℕ
  pub shmget : ℕ → ℕ → Option ℕ
  pub shmat : Side → ℕ → Ptr → Option Ptr

-- What stands in a file with an address, by the name of the file; none where there is no file.
abbrev pub Files : Type 0
Files = String → Option ℕ

-- A file that is not there cannot be read: `fscanf` gets NULL.
unfoldable pub get_address_from_file : Files → String → Cmd Ptr
get_address_from_file files fname = or_fault (files fname)

abbrev pub set_address_to_file : Files → String → Ptr → Files
set_address_to_file files fname addr f = if same fname f then some addr else files f

-- The result is NULL where one of the calls fails.
unfoldable pub create_shared_region : SharedMemory → Side → String → ℕ → Ptr → Ptr
create_shared_region shm side name size addr = elim (shm.ftok name) [
  | none ↦ null
  | some key ↦ elim (shm.shmget key size) [
    | none ↦ null
    | some shmid ↦ elim (shm.shmat side shmid addr) [ none ↦ null | some start ↦ start ]
  ]
]

-- Where the region lies: MODE_RANDOM_REGION leaves it to the system and writes it down, otherwise
-- it must lie where the file says.
unfoldable pub place_region :
    SharedMemory → Side → Bool → String → String → ℕ → Files → Cmd (Ptr × Files)
place_region shm side random_region addr_file name size files =
    if random_region
    then (let region = create_shared_region shm side name size null in
        pure (region, set_address_to_file files addr_file region))
    else (do
      addr ← get_address_from_file files addr_file
      pure (create_shared_region shm side name size addr, files))

module _ (ext : External) (shm : SharedMemory) where
  -- `fixed_region` is MODE_FIXED_REGION, which only matters for a server.
  unfoldable pub register_named : Bool → String → ℕ → ℕ → ℕ → Files → Cmd (Bool × Files)
  register_named fixed_region name size remote own files = do
    slot ← get_free_interface
    p ← get_process
    let as_server : Bool = elim p.side [ Side.server ↦ true | Side.client ↦ false ]
    elim slot [
      | none ↦ pure (false, files)
      | some i ↦ (do
        addr_file ← straddstr name ".addr"
        placed ← place_region shm p.side (as_server && not fixed_region) addr_file name size files
        done ← use_slot ext i placed.0 size as_server remote own
        pure (done, placed.1))
    ]

-- `getenv`
abbrev pub Environment : Type 0
Environment = String → Option String

module _ (ext : External) (shm : SharedMemory) (env : Environment) (fixed_region : Bool) where
  -- The directory that the environment names, or the current one.
  unfoldable pub iface_dir : Cmd String
  iface_dir = elim (env "SHMSOCK_DIR") [ none ↦ pure "./" | some dir ↦ straddstr dir "/" ]

  unfoldable pub setup_one : ℕ → String → String → String → Files → Cmd (Bool × Files)
  setup_one i own_text remote_text dir files = do
    own ← scan_int own_text
    remote ← scan_int remote_text
    iface ← straddnum "iface." i
    name ← straddstr dir iface
    register_named ext shm fixed_region name 0x10000 remote own files

  -- The loop over `count` interfaces from number `i`.
  unfoldable pub setup_loop : ℕ → ℕ → Files → Cmd (Setup × Files)
  setup_loop zero i files = pure (finished, files)
  setup_loop (suc count) i files = do
    own_name ← straddnum "SHMSOCK_OWN_ADDRESS_" i
    remote_name ← straddnum "SHMSOCK_REMOTE_ADDRESS_" i
    dir ← iface_dir
    elim (env own_name) [
      | none ↦ pure (exited, files)
      | some own_text ↦ elim (env remote_name) [
        | none ↦ pure (exited, files)
        | some remote_text ↦ (do
          r ← setup_one i own_text remote_text dir files
          if r.0 then setup_loop count (suc i) r.1 else pure (exited, r.1))
      ]
    ]

  -- `already` is the static variable; the result has what it is afterwards.
  unfoldable pub setup_iface : Bool → Files → Cmd (Setup × Bool × Files)
  setup_iface already files =
      if already then pure (finished, already, files) else elim (env "SHMSOCK_IFACE_COUNT") [
        | none ↦ pure (exited, true, files)
        | some count_text ↦ elim (env "SHMSOCK_IFACE_START") [
          | none ↦ pure (exited, true, files)
          | some start_text ↦ (do
            count ← scan_int count_text
            start ← scan_int start_text
            r ← setup_loop count start files
            pure (r.0, true, r.1))
        ]
      ]
