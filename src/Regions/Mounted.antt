-- ===== src/Regions/Mounted.antt =====
-- `registerInterface` of the two processes: the client finds the region where the server put it.
use Prim.Native.String.{String, ◌++◌, len}
use text.Mathlib.TextPositions.{eq_refl}
use shmsock.Base.{
  ℕ, ◌+◌, ◌-◌, ◌%◌, ◌<◌, ◌≡◌, refl, sym, subst, ◌∙◌, ◌≢◌, ◌⊎◌, inl, inr, Bool, true, false, List,
  some, arith, ◌==◌, set, ltb, All, All-map, All-set, Bool-cases, Option-cases, eq_of_==, ==_refl,
}
use shmsock.Llist.{Ptr, null}
use shmsock.Machine.{Side, server, client, Interface, Process, State, External, ExternalLaws}
use shmsock.Machine.Sides.{remote_address}
use shmsock.Machine.Cmd.{ok}
use shmsock.Interface.{
  find_interface, first_free, get_free_interface, get_interface_by_sockaddr, use_slot, fill_region,
  register_interface,
}
use shmsock.Interface.Registered.{
  after, use_run, registered, find_interface_lem, Passed, contains-set, first_free_lem,
}
use shmsock.Regions.{
  SharedMemory, Files, create_shared_region, place_region, register_named, set_address_to_file,
  get_address_from_file,
}
use shmsock.Regions.Strings.{straddstr}

-- What `shmat` promises in each process: the system chooses an address that is a multiple of SHMLBA, and SHM_RND
-- rounds one that is given down to such a multiple.
pub record SharedMemoryLaws (shm : SharedMemory) (shmlba : ℕ) : Type 0 where
  pub chosen : (side : Side) (id : ℕ) (p : Ptr) → shm.shmat side id null ≡ some p → p % shmlba ≡ 0
  pub given :
      (side : Side) (id : ℕ) (addr p : Ptr)
      → addr ≢ null
      → shm.shmat side id addr ≡ some p
      → p ≡ addr - addr % shmlba

module _ (shm : SharedMemory) (shmlba : ℕ) (laws : SharedMemoryLaws shm shmlba) (name : String)
    (size : ℕ) where
  attached :
      (key id : ℕ)
      → shm.ftok name ≡ some key
      → shm.shmget key size ≡ some id
      → (side : Side) (x : Ptr) → create_shared_region shm side name size x ≢ null
      → shm.shmat side id x ≡ some (create_shared_region shm side name size x)
  unfolding create_shared_region
  attached key id f g side x there = elim (Option-cases (shm.shmat side id x)) [
    | inl h ↦ absurd (there (simp (create_shared_region, f, g, h)))
    | inr (p, h) ↦ h ∙ simp (create_shared_region, f, g, h)
  ]

  -- Where the segment is there, for every process.
  created :
      (side : Side) (addr : Ptr)
      → create_shared_region shm side name size addr ≢ null
      → (id : ℕ) × ((k : Side) (x : Ptr)
          → create_shared_region shm k name size x ≢ null
          → shm.shmat k id x ≡ some (create_shared_region shm k name size x))
  unfolding create_shared_region
  created side addr ne = elim (Option-cases (shm.ftok name)) [
    | inl f ↦ absurd (ne (simp (create_shared_region, f)))
    | inr (key, f) ↦ elim (Option-cases (shm.shmget key size)) [
      | inl g ↦ absurd (ne (simp (create_shared_region, f, g)))
      | inr (id, g) ↦ (id, attached key id f g)
    ]
  ]

  -- Where the server has the segment, the client gets it if it asks for it there.
  same_place :
      let r = create_shared_region shm server name size null in
      r ≢ null
      → create_shared_region shm client name size r ≢ null
      → create_shared_region shm client name size r ≡ r
  same_place ne ne' =
      let r = create_shared_region shm server name size null in
      let (id, there) = created server null ne in
      let rounded = laws.given client id r _ ne (there client r ne') in
      omega (arith, rounded, laws.chosen server id r (there server null ne))

module _ (ext : External) (laws : ExternalLaws ext) (shm : SharedMemory) (shmlba : ℕ)
    (shm_laws : SharedMemoryLaws shm shmlba) (name : String) (size a b : ℕ) (files : Files)
    (short : len name + 5 < 0x100) (s : State) (is_server : s.process.side ≡ server) (i : ℕ)
    (free : first_free s.process.interfaces ≡ some i) where
  abbrev region : Ptr
  region = create_shared_region shm server name size null

  abbrev written : Files
  written = set_address_to_file files (name ++ ".addr") region

  -- What a client sees once the server is done, with a table of interfaces.
  abbrev joined : Process → List Ptr → State
  joined other table = record {
    memory = (after ext laws s region size b a i).memory;
    process = record other { interfaces = table };
  }

  server_run :
      region ≢ null
      → register_named ext shm false name size b a files s
        ≡ ok (true, written) (after ext laws s region size b a i)
  unfolding register_named get_free_interface straddstr place_region use_slot fill_region
      register_interface
  server_run ne =
      let fits : ltb (len name + 5) 0x100 ≡ true = ground (arith, short) in
      simp (free, is_server, fits, use_run ext laws s region size b a i ne)

  client_run :
      (other : Process) (j : ℕ)
      → region ≢ null
      → create_shared_region shm client name size region ≢ null
      → other.side ≡ client
      → first_free other.interfaces ≡ some j
      → register_named ext shm false name size a b written (joined other other.interfaces)
        ≡ ok (true, written) (joined other (set other.interfaces j region))
  unfolding register_named get_free_interface straddstr place_region use_slot get_address_from_file
  client_run other j ne mounted side slot =
      let fits : ltb (len name + 5) 0x100 ≡ true = ground (arith, short) in
      let e1 : (region == null) ≡ false = ground (arith, ne) in
      simp (
        slot,
        side,
        fits,
        eq_refl (name ++ ".addr"),
        same_place shm shmlba shm_laws name size ne mounted,
        e1,
      )

  -- The server, with a free slot and where the system gives it a region, registers it for its
  -- address `a` and the client's address `b`, and writes down where it lies. A client with a free
  -- slot and no other interface to `a`, that then registers under the same name and gets its region
  -- attached, has it in the same place, wherever the system would have put it in the client, and
  -- finds it there for the address `a`.
  pub register_both :
      (other : Process) (j : ℕ)
      → region ≢ null
      → create_shared_region shm client name size region ≢ null
      → other.side ≡ client
      → first_free other.interfaces ≡ some j
      → All
          (λ p.
            (p ≡ null)
            ⊎ ((f : Interface) × (s.memory.ifaces p ≡ some f) × (remote_address client f ≢ a)))
          other.interfaces
      → let s' = after ext laws s region size b a i in
        let c = joined other in
        let table = set other.interfaces j region in
        (register_named ext shm false name size b a files s ≡ ok (true, written) s')
        × (register_named ext shm false name size a b written (c other.interfaces)
            ≡ ok (true, written) (c table))
        × (get_interface_by_sockaddr a (c table) ≡ ok region (c table))
  unfolding get_interface_by_sockaddr
  register_both other j ne mounted side slot others =
      let s' = after ext laws s region size b a i in
      let table = set other.interfaces j region in
      let t = joined other table in
      let f = registered s.process.side region size b a in
      let test : Interface → Bool = λ g. remote_address client g == a in
      let at_f : t.memory.ifaces region ≡ some f = rw (==_refl region) refl in
      let hit : test f ≡ true = rw (is_server, ==_refl a) refl in
      let inside =
        contains-set region other.interfaces j (first_free_lem other.interfaces j slot) in
      let passed =
        All-set (Passed t.memory test region) region (inr (inl refl)) other.interfaces j
          (All-map _ _ pass other.interfaces others) in
      (
        server_run ne,
        client_run other j ne mounted side slot,
        subst (λ k. find_interface (λ g. remote_address k g == a) table t ≡ ok region t) (sym side)
            (find_interface_lem t test region f ne at_f hit table passed inside),
      )
    where
      pass :
          (p : Ptr)
          → (p ≡ null)
            ⊎ ((g : Interface) × (s.memory.ifaces p ≡ some g) × (remote_address client g ≢ a))
          → Passed
              (after ext laws s region size b a i).memory
              (λ g. remote_address client g == a)
              region
              p
      pass p (inl e) = inl e
      pass p (inr (g, at, differ)) = elim (Bool-cases (region == p)) [
        | inl e ↦ inr (inl (sym (eq_of_== region p e)))
        | inr e ↦ inr (inr (g, rw e at, ground (arith, differ)))
      ]
