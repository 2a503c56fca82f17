-- ===== src/Regions/Enclave.antt =====
-- `setupIface` of an enclave: the table of interfaces after it.
use shmsock.Base.{
  ℕ, zero, suc, ◌-◌, ◌≤◌, ◌<◌, ◌≡◌, refl, sym, ap, ap₂, ◌∙◌, Option, some, if◌then◌else◌, ◌≢◌, Bool,
  true, false, List, [], ◌∷◌, ◌++◌, append-nil, append_assoc, none, arith, ◌==◌, length, map,
  replicate, set, take, All, All-append,
}
use shmsock.Llist.{Ptr, null}
use shmsock.Machine.{Side, Interface, State, External, ExternalLaws}
use shmsock.Machine.Cmd.{ok}
use shmsock.Interface.{first_free, get_free_interface, register_interface, use_slot}
use shmsock.Interface.Registered.{after, register_run, registered}
use shmsock.Poll.Slots.{set-middle}
use shmsock.Regions.{
  Region, finished, exited, region_remote, region_own, register_regions, setup_iface_enclave,
}

abbrev NotNull : Ptr → Type 0
NotNull p = p ≢ null

first_free_full : (ps : List Ptr) → All NotNull ps → first_free ps ≡ none
unfolding first_free
first_free_full [] h = refl
first_free_full (p ∷ ps) (ne, h) =
    let e1 : (p == null) ≡ false = ground (arith, ne) in simp (e1, first_free_full ps h)

first_free_middle :
    (used : List Ptr) (rest : List Ptr)
    → All NotNull used
    → first_free (used ++ null ∷ rest) ≡ some (length used)
unfolding first_free
first_free_middle [] rest h = refl
first_free_middle (p ∷ used) rest (ne, h) =
    let e1 : (p == null) ≡ false = ground (arith, ne) in simp (e1, first_free_middle used rest h)

-- What the memory holds at each address, once the regions of which the process is the server are
-- filled in, one after the other: its own address is that of the server.
abbrev filled : Side → Region → (Ptr → Option Interface) → Ptr → Option Interface
filled side r m q =
    if r.load_va == q
    then some (registered side r.load_va r.region_size r.client_address r.server_address)
    else m q

abbrev pub laid_out : Side → List Region → (Ptr → Option Interface) → Ptr → Option Interface
laid_out side [] m = m
laid_out side (r ∷ rs) m = laid_out side rs (if r.is_server then filled side r m else m)

filled_lem :
    (side : Side) (r : Region) (m : Ptr → Option Interface)
    → (if r.is_server
        then (λ q.
            if r.load_va == q
            then some (registered side r.load_va r.region_size (region_remote r) (region_own r))
            else m q)
        else m)
      ≡ (if r.is_server then filled side r m else m)
filled_lem side r m = as_served r.is_server
  where
    at : ℕ → ℕ → Ptr → Option Interface
    at remote own q =
        if r.load_va == q then some (registered side r.load_va r.region_size remote own) else m q

    as_served :
        (b : Bool)
        → (if b
            then at
                (if b then r.client_address else r.server_address)
                (if b then r.server_address else r.client_address)
            else m)
          ≡ (if b then at r.client_address r.server_address else m)
    as_served true = refl
    as_served false = refl

module _ (ext : External) (laws : ExternalLaws ext) where
  -- With a free slot, a region that is there is registered, as a server or as a client.
  register_either :
      (s : State) (region size remote own i : ℕ) (as_server : Bool)
      → region ≢ null
      → first_free s.process.interfaces ≡ some i
      → (t : State) × (register_interface ext region size as_server remote own s ≡ ok true t)
        × (t.process.interfaces ≡ set s.process.interfaces i region)
        × (t.process.side ≡ s.process.side)
        × (t.memory.ifaces ≡ (
            if as_server
            then (λ q.
                if region == q
                then some (registered s.process.side region size remote own)
                else s.memory.ifaces q)
            else s.memory.ifaces))
  unfolding register_interface get_free_interface use_slot
  register_either s region size remote own i true ne free = (
    after ext laws s region size remote own i,
    register_run ext laws s region size remote own i ne free,
    refl,
    refl,
    refl,
  )
  register_either s region size remote own i false ne free =
      let e1 : (region == null) ≡ false = ground (arith, ne) in
      (
        record s { process = record s.process { interfaces = set s.process.interfaces i region } },
        simp (free, e1),
        refl,
        refl,
        refl,
      )

  register_full :
      (s : State) (region size remote own : ℕ) (as_server : Bool)
      → first_free s.process.interfaces ≡ none
      → register_interface ext region size as_server remote own s ≡ ok false s
  unfolding register_interface get_free_interface
  register_full s region size remote own as_server full = rw full refl

  register_regions_lem :
      (rs : List Region) (used : List Ptr) (free : ℕ) (s : State)
      → s.process.interfaces ≡ used ++ replicate free null
      → All NotNull used
      → All (λ r. NotNull r.load_va) rs
      → (t : State) × (length rs ≤ free
          → (register_regions ext rs s ≡ ok finished t)
            × (t.process.interfaces
                ≡ used ++ (map (λ r. r.load_va) rs ++ replicate (free - length rs) null))
            × (t.memory.ifaces ≡ laid_out s.process.side rs s.memory.ifaces))
        × (free < length rs
            → (register_regions ext rs s ≡ ok exited t)
              × (t.process.interfaces ≡ used ++ map (λ r. r.load_va) (take free rs))
              × (t.memory.ifaces ≡ laid_out s.process.side (take free rs) s.memory.ifaces))
  unfolding register_regions
  register_regions_lem [] used free s table us rs_ne = (
    s,
    (λ room. (
      refl,
      table ∙ ap (λ n. used ++ replicate n null) (let e : free ≡ free - 0 = omega arith in e),
      refl,
    )),
    (λ few. absurd (omega (arith, few))),
  )
  register_regions_lem (r ∷ rs) used zero s table us rs_ne = (
    s,
    (λ room. absurd (omega (arith, room))),
    (λ few. (
      simp (
          register_full s r.load_va r.region_size (region_remote r) (region_own r) r.is_server
            (ap first_free (table ∙ append-nil used) ∙ first_free_full used us)),
      table,
      refl,
    )),
  )
  register_regions_lem (r ∷ rs) used (suc free) s table us (ne, rs_ne) =
      let slot : first_free s.process.interfaces ≡ some (length used) =
        ap first_free table ∙ first_free_middle used (replicate free null) us in
      let (t, run, table', side, ifaces) =
        register_either s r.load_va r.region_size (region_remote r) (region_own r) (length used)
          r.is_server ne slot in
      let (u, fits, too_many) =
        register_regions_lem rs (used ++ r.load_va ∷ []) free t
          (table'
            ∙ ap (λ ps. set ps (length used) r.load_va) table
            ∙ set-middle used null r.load_va (replicate free null)
            ∙ sym (append_assoc used (r.load_va ∷ []) (replicate free null)))
          (All-append NotNull used (r.load_va ∷ []) us (ne, tt)) rs_ne in
      let now = ifaces ∙ filled_lem s.process.side r s.memory.ifaces in
      (
        u,
        (λ room.
            let (runs, final, memory) = fits (omega (arith, room)) in
            (
              simp run runs,
              final
                  ∙ append_assoc used (r.load_va ∷ []) _
                  ∙ ap (λ n. used ++ (r.load_va ∷ (map (λ x. x.load_va) rs ++ replicate n null)))
                      (let e : free - length rs ≡ suc free - suc (length rs) = omega arith in e),
              memory ∙ ap₂ (λ k m. laid_out k rs m) side now,
            )),
        (λ few.
            let (runs, final, memory) = too_many (omega (arith, few)) in
            (
              simp run runs,
              final ∙ append_assoc used (r.load_va ∷ []) _,
              memory ∙ ap₂ (λ k m. laid_out k (take free rs) m) side now,
            )),
      )

  -- `setupIface` of an enclave, where the table of interfaces is empty and the regions are there: with
  -- at most 10 regions it returns, and the table holds the regions in their order and nothing
  -- else; with more it exits, once the table holds the first 10. Of the regions in the table those
  -- that the process serves are filled in as interfaces with the server's and the client's address
  -- of the region, and no other interface in memory changes. It does nothing when it is called
  -- again.
  pub setup_regions :
      (setup_shared_memory : State → State) (rs : List Region) (s : State)
      → (setup_shared_memory s).process.interfaces ≡ replicate 10 null
      → All (λ r. NotNull r.load_va) rs
      → (t : State) × ((length rs ≤ 10
            → (setup_iface_enclave ext setup_shared_memory rs false s ≡ ok (finished, true) t)
              × (t.process.interfaces ≡ map (λ r. r.load_va) rs ++ replicate (10 - length rs) null)
              × (let u = setup_shared_memory s in
                  t.memory.ifaces ≡ laid_out u.process.side rs u.memory.ifaces))
          × (10 < length rs
              → (setup_iface_enclave ext setup_shared_memory rs false s ≡ ok (exited, true) t)
                × (t.process.interfaces ≡ map (λ r. r.load_va) (take 10 rs))
                × (let u = setup_shared_memory s in
                    t.memory.ifaces ≡ laid_out u.process.side (take 10 rs) u.memory.ifaces))
          × (setup_iface_enclave ext setup_shared_memory rs true t ≡ ok (finished, true) t))
  unfolding setup_iface_enclave
  setup_regions setup_shared_memory rs s empty ne =
      let (t, fits, too_many) = register_regions_lem rs [] 10 (setup_shared_memory s) empty tt ne in
      (
        t,
        (
          (λ room. let (run, table, memory) = fits room in (simp run, table, memory)),
          (λ few. let (run, table, memory) = too_many few in (simp run, table, memory)),
          refl,
        ),
      )
