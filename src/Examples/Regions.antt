-- ===== src/Examples/Regions.antt =====
-- The set-up of interfaces in the concrete setting.
use shmsock.Base.{
  ℕ, ◌-◌, ◌%◌, ◌≤◌, ◌<◌, ◌≡◌, refl, inl, true, false, List, [], ◌∷◌, none, some, arith,
  if◌then◌else◌, ◌==◌, map, replicate,
}
use shmsock.Llist.{Ptr, null}
use shmsock.Machine.{Side, server, client, Process, State, c_open}
use shmsock.Machine.Cmd.{ok}
use shmsock.Interface.{first_free, get_interface_by_sockaddr}
use shmsock.Interface.Registered.{after}
use shmsock.Regions.{
  Region, finished, exited, setup_iface_enclave, SharedMemory, Files, register_named,
  set_address_to_file, create_shared_region,
}
use shmsock.Regions.Enclave.{laid_out, setup_regions}
use shmsock.Regions.Mounted.{SharedMemoryLaws, register_both}
use shmsock.Examples.{ext, ext_laws, memory, process, no_fd}
use shmsock.Examples.Descriptors.{empty_conn}

abbrev unset : State
unset = record {
  memory = memory [] (empty_conn c_open);
  process = record (process server (replicate 50 no_fd) 700) { interfaces = replicate 10 null };
}

abbrev region_5 : Region
region_5 = record {
  load_va = 5000;
  region_size = 4096;
  is_server = true;
  server_address = 7;
  client_address = 8;
}

abbrev load_vas : List Region → List Ptr
load_vas = map (λ (r : Region). r.load_va)

setup_regions_example :
    (t : State) × ((1 ≤ 10
        → (setup_iface_enclave ext (λ s. s) (region_5 ∷ []) false unset ≡ ok (finished, true) t)
          × (t.process.interfaces ≡ 5000 ∷ replicate 9 null)
          × (t.memory.ifaces ≡ laid_out server (region_5 ∷ []) unset.memory.ifaces))
      × (10 < 1
          → (setup_iface_enclave ext (λ s. s) (region_5 ∷ []) false unset ≡ ok (exited, true) t)
            × (t.process.interfaces ≡ 5000 ∷ [])
            × (t.memory.ifaces ≡ laid_out server (region_5 ∷ []) unset.memory.ifaces))
      × (setup_iface_enclave ext (λ s. s) (region_5 ∷ []) true t ≡ ok (finished, true) t))
setup_regions_example =
    setup_regions ext ext_laws (λ s. s) (region_5 ∷ []) unset refl ((λ e. omega arith), tt)

abbrev chosen_at : Side → Ptr
chosen_at server = 8192
chosen_at client = 16384

-- A system that chooses the address 8192 in the server and 16384 in the client, and rounds down to
-- multiples of 4096.
abbrev shm : SharedMemory
shm = record {
  ftok = λ name. some 5;
  shmget = λ key size. some 6;
  shmat = λ side id addr. some (if addr == null then chosen_at side else addr - addr % 4096);
}

chosen_lem : (side : Side) (id : ℕ) (p : Ptr) → shm.shmat side id null ≡ some p → p % 4096 ≡ 0
chosen_lem server id p e = ground (arith, e)
chosen_lem client id p e = ground (arith, e)

shm-SharedMemoryLaws : SharedMemoryLaws shm 4096
shm-SharedMemoryLaws = record {
  chosen = λ side id p e. chosen_lem side id p e;
  given = λ side id addr p ne e. ground (arith, ne, e);
}

abbrev no_files : Files
no_files name = none

abbrev client_process : Process
client_process = record (process client (replicate 50 no_fd) 700) { interfaces = null ∷ [] }

register_both_example :
    let written = set_address_to_file no_files "./iface.0.addr" 8192 in
    let t = after ext ext_laws unset 8192 65536 2 1 0 in
    let c : List Ptr → State = λ table. record {
      memory = t.memory;
      process = record client_process { interfaces = table };
    } in
    (register_named ext shm false "./iface.0" 65536 2 1 no_files unset ≡ ok (true, written) t)
    × (register_named ext shm false "./iface.0" 65536 1 2 written (c (null ∷ []))
        ≡ ok (true, written) (c (8192 ∷ [])))
    × (get_interface_by_sockaddr 1 (c (8192 ∷ [])) ≡ ok 8192 (c (8192 ∷ [])))
unfolding first_free create_shared_region
register_both_example =
    register_both ext ext_laws shm 4096 shm-SharedMemoryLaws "./iface.0" 65536 1 2 no_files
      (omega arith) unset refl 0 refl client_process 0 (λ e. omega arith) (λ e. omega arith) refl
      refl (inl refl, tt)
