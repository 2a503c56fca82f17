-- ===== src/Interface/Registered.antt =====
-- `registerInterface` of the server, and the search for what it has registered.
use shmsock.Base.{
  ℕ, zero, suc, ◌+◌, ◌<◌, ◌≡◌, refl, sym, ◌≢◌, ◌⊎◌, inl, inr, Bool, true, false, List, [], ◌∷◌,
  some, arith, if◌then◌else◌, ◌==◌, length, set, All, All-map, All-set, Bool-cases, eq_of_==,
  ==_refl,
}
use shmsock.Llist.{Ptr, null}
use shmsock.Llist.Owned.{llist_new_lem}
use shmsock.Llist.Remove.{contains}
use shmsock.Machine.{Side, server, client, Interface, Memory, State, mctx, External, ExternalLaws}
use shmsock.Machine.Sides.{own_address, remote_address}
use shmsock.Machine.Cmd.{ok, load_iface}
use shmsock.Connection.Create.{empty_list}
use shmsock.Connection.Search.{IsInterface}
use shmsock.Interface.{
  first_free, get_free_interface, find_interface, get_interface_by_sockaddr, register_interface,
  use_slot, fill_region, iface_magic, outside,
}

pub first_free_lem : (ps : List Ptr) (i : ℕ) → first_free ps ≡ some i → i < length ps
unfolding first_free
first_free_lem [] i e = cc
first_free_lem (p ∷ ps) zero e = omega arith
first_free_lem (p ∷ ps) (suc i) e =
    let ih : i < length ps = first_free_lem ps i (ground arith) in omega (arith, ih)

pub contains-set :
    (x : Ptr) (ps : List Ptr) (i : ℕ) → i < length ps → contains x (set ps i x) ≡ true
contains-set x [] i h = absurd (omega (arith, h))
contains-set x (p ∷ ps) zero h = rw (==_refl x)
contains-set x (p ∷ ps) (suc i) h = ground (arith, contains-set x ps i (omega (arith, h)))

-- No slot, the region, or an interface that fails the test.
abbrev pub Passed : Memory → (Interface → Bool) → Ptr → Ptr → Type 0
Passed m test region p =
    (p ≡ null) ⊎ (p ≡ region) ⊎ ((i : Interface) × (m.ifaces p ≡ some i) × (test i ≡ false))

pub find_interface_lem :
    (s : State) (test : Interface → Bool) (region : Ptr) (f : Interface)
    → region ≢ null
    → s.memory.ifaces region ≡ some f
    → test f ≡ true
    → (ps : List Ptr) → All (Passed s.memory test region) ps
    → contains region ps ≡ true
    → find_interface test ps s ≡ ok region s
unfolding find_interface load_iface
find_interface_lem s test region f ne at t [] k c = cc
find_interface_lem s test region f ne at t (p ∷ ps) (inl e, k) c =
    let e1 : (p == null) ≡ true = ground arith in
    simp e1 (find_interface_lem s test region f ne at t ps k (ground arith))
find_interface_lem s test region f ne at t (p ∷ ps) (inr (inl e), k) c =
    let e1 : (region == null) ≡ false = ground (arith, ne) in simp (e, e1, at, t)
find_interface_lem s test region f ne at t (p ∷ ps) (inr (inr (i, at_p, misses)), k) c =
    elim (Bool-cases (p == region)) [
      | inl e ↦ absurd (ground (arith, eq_of_== p region e, at, at_p, misses, t))
      | inr e ↦
          let rest : find_interface test ps s ≡ ok region s =
            find_interface_lem s test region f ne at t ps k (ground arith) in
          elim (Bool-cases (p == null)) [
            | inl z ↦ simp z rest
            | inr z ↦ simp (z, at_p, misses) rest
          ]
    ]

-- The interface that the server writes into a region.
abbrev pub registered : Side → Ptr → ℕ → ℕ → ℕ → Interface
registered side region size remote own = record {
  magic = iface_magic;
  connection_list = empty_list (mctx region);
  server_address = elim side [ Side.server ↦ own | Side.client ↦ remote ];
  client_address = elim side [ Side.server ↦ remote | Side.client ↦ own ];
  shmem_size = size;
  shmem_start = region;
  shmem_end = region + size;
}

pub addresses :
    (side : Side) (region size remote own : ℕ)
    → (remote_address side (registered side region size remote own) ≡ remote)
      × (own_address side (registered side region size remote own) ≡ own)
addresses server region size remote own = (refl, refl)
addresses client region size remote own = (refl, refl)

module _ (ext : External) (laws : ExternalLaws ext) (s : State) (region size remote own i : ℕ) where
  abbrev pub after : State
  after = record {
    memory = record s.memory {
      ifaces = λ q.
          if region == q
          then some (registered s.process.side region size remote own)
          else s.memory.ifaces q;
      conns = outside (mctx region) s.memory.conns;
      entries = outside (mctx region) s.memory.entries;
    };
    process = record s.process { interfaces = set s.process.interfaces i region };
  }

  pub use_run : region ≢ null → use_slot ext i region size true remote own s ≡ ok true after
  unfolding use_slot fill_region
  use_run ne =
      let e1 : (region == null) ≡ false = ground (arith, ne) in
      simp (e1, llist_new_lem ext.ll laws.ll_laws (mctx region) s.process.context)

  pub register_run :
      region ≢ null
      → first_free s.process.interfaces ≡ some i
      → register_interface ext region size true remote own s ≡ ok true after
  unfolding register_interface get_free_interface
  register_run ne free = simp (free, use_run ne)

  -- The server registers a region with a free slot left and no other interface to the address:
  -- the region holds a well-formed interface with no connection and the two addresses, and the
  -- search for the remote address, by which `connect` finds its interface, returns the region. The
  -- interfaces at other places are as before.
  pub register-find :
      region ≢ null
      → first_free s.process.interfaces ≡ some i
      → All
          (λ p.
            (p ≡ null)
            ⊎ ((f : Interface) × (s.memory.ifaces p ≡ some f)
                × (remote_address s.process.side f ≢ remote)))
          s.process.interfaces
      → (s' : State) × (f : Interface) × (register_interface ext region size true remote own s
          ≡ ok true s')
        × IsInterface s'.memory region f
        × (f.connection_list.list.items ≡ [])
        × ((own_address s.process.side f ≡ own) × (remote_address s.process.side f ≡ remote))
        × (get_interface_by_sockaddr remote s' ≡ ok region s')
        × ((q : Ptr) → q ≢ region → s'.memory.ifaces q ≡ s.memory.ifaces q)
  unfolding get_interface_by_sockaddr
  register-find ne free others =
      let side = s.process.side in
      let f = registered side region size remote own in
      let at_f : after.memory.ifaces region ≡ some f = rw (==_refl region) in
      let test : Interface → Bool = λ j. remote_address side j == remote in
      let hit : test f ≡ true = rw ((addresses side region size remote own).0, ==_refl remote) in
      let inside =
        contains-set region s.process.interfaces i (first_free_lem s.process.interfaces i free) in
      let passed =
        All-set (Passed after.memory test region) region (inr (inl refl)) s.process.interfaces i
          (All-map _ _ pass s.process.interfaces others) in
      (
        after,
        f,
        register_run ne free,
        record { ne_null = ne; holds = at_f; owned = refl; listed = tt },
        refl,
        ((addresses side region size remote own).1, (addresses side region size remote own).0),
        find_interface_lem after test region f ne at_f hit (set s.process.interfaces i region)
            passed inside,
        λ q other. ground (arith, other, eq_of_== region q),
      )
    where
      pass :
          (p : Ptr)
          → (p ≡ null)
            ⊎ ((g : Interface) × (s.memory.ifaces p ≡ some g)
                × (remote_address s.process.side g ≢ remote))
          → Passed after.memory (λ j. remote_address s.process.side j == remote) region p
      pass p (inl e) = inl e
      pass p (inr (g, at, ne)) = elim (Bool-cases (region == p)) [
        | inl e ↦ inr (inl (sym (eq_of_== region p e)))
        | inr e ↦ inr (inr (g, rw e at, ground (arith, ne)))
      ]
