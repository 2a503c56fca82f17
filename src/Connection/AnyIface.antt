-- ===== src/Connection/AnyIface.antt =====
-- The search of a connection on every interface: for epoll, and for `accept`.
pub mod Loops
pub use shmsock.Connection.AnyIface.Loops.{Slot, any_pending, offered_by, open_block, accepted}
use shmsock.Base.{
  ℕ, ◌≡◌, refl, ap, sym, subst, ◌∙◌, ◌≢◌, ◌⊎◌, inl, inr, Bool, true, false, List, [], ◌∷◌, Option,
  none, some, arith, if◌then◌else◌, ◌==◌, ◌||◌, eq_of_==, All, All-map, Bool-cases,
}
use shmsock.Llist.{Ptr, null}
use shmsock.Machine.{Side, Interface, Connection, Block, Memory, State, External, ExternalLaws}
use shmsock.Machine.Sides.{own_address}
use shmsock.Machine.Cmd.{Run, ok, fault, load_iface}
use shmsock.Connection.{
  search_new_connection_on_iface, accept_new_connection_on_iface,
  search_new_connection_on_any_iface, accept_new_connection_on_any_iface, on_any_iface,
}
use shmsock.Connection.Search.{
  first_pending, IsInterface, first_pending-block, search_new_connection_on_iface_lem,
}
use shmsock.Connection.Accept.{opened, accept-none, accept-some}
use shmsock.Connection.AnyIface.Loops.{search_lem, accept_lem}

-- What is found leads to a connection that is offered on the port.
pub any_pending-block :
    (m : Memory) (side : Side) (port : ℕ) (test : Interface → Bool) (ps : List Ptr)
    → All (Slot m) ps
    → any_pending m side port test ps ≢ null
    → (b : Block Connection) × (m.conns (any_pending m side port test ps) ≡ some b)
any_pending-block m side port test [] k ne = absurd (ne refl)
any_pending-block m side port test (p ∷ ps) (inl e, k) ne =
    let e1 : (p == null) ≡ true = ground arith in
    rw e1 (any_pending-block m side port test ps k (rw e1 at ne))
any_pending-block m side port test (p ∷ ps) (inr (i, h), k) ne =
    let e1 : (p == null) ≡ false = ground (arith, h.ne_null) in
    let ih = any_pending-block m side port test ps k in
    let r = first_pending m side port i.connection_list.list.items in
    elim (Bool-cases (test i)) [
      | inr t ↦
          let skip : any_pending m side port test (p ∷ ps) ≡ any_pending m side port test ps =
            simp (e1, h.holds, t) in
          subst Found (sym skip) (ih (λ e. ne (skip ∙ e)))
      | inl t ↦ elim (Bool-cases (r == null)) [
        | inl n ↦
            let skip : any_pending m side port test (p ∷ ps) ≡ any_pending m side port test ps =
              simp (e1, h.holds, t, n) in
            subst Found (sym skip) (ih (λ e. ne (skip ∙ e)))
        | inr n ↦
            let hit : any_pending m side port test (p ∷ ps) ≡ r = simp (e1, h.holds, t, n) in
            subst Found (sym hit)
              (first_pending-block m side port i.connection_list.list.items (λ e. ground arith))
      ]
    ]
  where
    Found : Ptr → Type 0
    Found r = (b : Block Connection) × (m.conns r ≡ some b)

any_pending-never :
    (m : Memory) (side : Side) (port : ℕ) (f : Interface → Bool) (ps : List Ptr)
    → All (λ p. (p ≡ null) ⊎ ((i : Interface) × (m.ifaces p ≡ some i) × (f i ≡ false))) ps
    → any_pending m side port f ps ≡ null
any_pending-never m side port f [] k = refl
any_pending-never m side port f (p ∷ ps) (inl e, k) =
    let e1 : (p == null) ≡ true = ground arith in rw e1 (any_pending-never m side port f ps k)
any_pending-never m side port f (p ∷ ps) (inr (i, at, no_match), k) =
    elim (Bool-cases (p == null)) [
      | inl e ↦ rw e (any_pending-never m side port f ps k)
      | inr e ↦ simp (e, at, no_match) (any_pending-never m side port f ps k)
    ]

module _ (ext : External) (laws : ExternalLaws ext) (s : State) (addr port : ℕ)
    (k : All (Slot s.memory) s.process.interfaces) where
  -- For an address other than 0, a connection is what `epoll_wait` looks for exactly if `accept`
  -- takes it: `searchNewConnectionOnAnyIface` returns the first pending one on the interfaces with
  -- the address, and changes nothing; `acceptNewConnectionOnAnyIface` returns the same one and
  -- opens it, or NULL and changes nothing.
  pub search-accept :
      addr ≢ 0
      → let r =
          any_pending s.memory s.process.side port
            (λ i. own_address s.process.side i == addr)
            s.process.interfaces in
        (search_new_connection_on_any_iface ext addr port s ≡ ok r s)
        × (accept_new_connection_on_any_iface ext addr port s ≡ accepted s r)
  unfolding search_new_connection_on_any_iface accept_new_connection_on_any_iface
  search-accept ne =
      let e1 : (addr == 0) ≡ false = ground (arith, ne) in
      (
        search_lem ext laws s port (λ i. own_address s.process.side i == addr) s.process.interfaces
            k,
        simp e1 (
            accept_lem ext laws s port (λ i. own_address s.process.side i == addr)
              s.process.interfaces k),
      )

  pub accept_any_lem :
      accept_new_connection_on_any_iface ext addr port s
      ≡ accepted s (
          any_pending s.memory s.process.side port
            (λ i. addr == 0 || own_address s.process.side i == addr)
            s.process.interfaces)
  unfolding accept_new_connection_on_any_iface
  accept_any_lem =
      accept_lem ext laws s port (λ i. addr == 0 || own_address s.process.side i == addr)
        s.process.interfaces k

  -- For the address 0 they part: `accept` takes the first pending connection on any interface, but
  -- where no interface has the address 0 for its own, `searchNewConnectionOnAnyIface` finds
  -- nothing, whatever is offered.
  pub wildcard_unseen :
      addr ≡ 0
      → All
          (λ p.
            (p ≡ null)
            ⊎ ((i : Interface) × (s.memory.ifaces p ≡ some i) × (own_address s.process.side i ≢ 0)))
          s.process.interfaces
      → let r = any_pending s.memory s.process.side port (λ i. true) s.process.interfaces in
        (search_new_connection_on_any_iface ext addr port s ≡ ok null s)
        × (accept_new_connection_on_any_iface ext addr port s ≡ accepted s r)
  unfolding search_new_connection_on_any_iface accept_new_connection_on_any_iface
  wildcard_unseen e nz =
      let e1 : (addr == 0) ≡ true = ground arith in
      (
        search_lem ext laws s port (λ i. own_address s.process.side i == addr) s.process.interfaces
              k
            ∙ ap (λ r. ok r s)
                (any_pending-never s.memory s.process.side port _ s.process.interfaces
                  (All-map _ _ no_match s.process.interfaces nz)),
        simp e1 (accept_lem ext laws s port (λ i. true) s.process.interfaces k),
      )
    where
      no_match :
          (p : Ptr)
          → (p ≡ null)
            ⊎ ((i : Interface) × (s.memory.ifaces p ≡ some i) × (own_address s.process.side i ≢ 0))
          → (p ≡ null)
            ⊎ ((i : Interface) × (s.memory.ifaces p ≡ some i)
                × ((own_address s.process.side i == addr) ≡ false))
      no_match p (inl e') = inl e'
      no_match p (inr (i, at, ne)) = inr (i, at, ground (arith, ne, e))
