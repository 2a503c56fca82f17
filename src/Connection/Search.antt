-- ===== src/Connection/Search.antt =====
-- Finding what the other side has offered: `searchNewConnectionOnIface`.
use shmsock.Base.{
  ℕ, zero, suc, ◌+◌, ◌<◌, ◌≡◌, refl, ap, sym, subst, ◌∙◌, ◌≢◌, inl, inr, Bool, true, false, List,
  [], ◌∷◌, ◌++◌, Option, none, some, arith, if◌then◌else◌, ◌==◌, ◌&&◌, ==_refl, length, All,
  Bool-cases, append_assoc, length-append,
}
use shmsock.Llist.{Ptr, null, item_at, llist_len}
use shmsock.Llist.Owned.{IsOwned, get_n-items}
use shmsock.Llist.Remove.{contains, item_at-after}
use shmsock.Machine.{
  Side, c_create, conn_num, Interface, Connection, Block, Memory, State, External, ExternalLaws,
}
use shmsock.Machine.Sides.{own_port}
use shmsock.Machine.Cmd.{ok, load_conn, load_iface}
use shmsock.Connection.{search_loop, search_new_connection_on_iface}

-- The connection is offered on a port of this side.
abbrev pub pending : Side → ℕ → Connection → Bool
pending side port c = conn_num c.conn_state == conn_num c_create && own_port side c == port

abbrev pub pending_block : Side → ℕ → Option (Block Connection) → Bool
pending_block side port none = false
pending_block side port (some b) = pending side port b.value

abbrev pub pending_at : Memory → Side → ℕ → Ptr → Bool
pending_at m side port p = pending_block side port (m.conns p)

-- The first of the list that is offered on the port, or NULL.
unfoldable pub first_pending : Memory → Side → ℕ → List Ptr → Ptr
first_pending m side port [] = null
first_pending m side port (p ∷ ps) =
    if pending_at m side port p then p else first_pending m side port ps

-- An interface in memory whose list is in its context and holds connections.
abbrev pub Listed : Memory → Ptr → Type 0
Listed m p = (b : Block Connection) × (m.conns p ≡ some b) × (p ≢ null)

pub record IsInterface (m : Memory) (q : Ptr) (i : Interface) : Type 0 where
  pub ne_null : q ≢ null
  pub holds : m.ifaces q ≡ some i
  pub owned : IsOwned i.connection_list
  pub listed : All (Listed m) i.connection_list.list.items

module _ (ext : External) (laws : ExternalLaws ext) (s : State) (q : Ptr) (i : Interface)
    (h : IsInterface s.memory q i) (port : ℕ) where
  search_loop_lem :
      (suf pre : List Ptr) (fuel : ℕ)
      → i.connection_list.list.items ≡ pre ++ suf
      → All (Listed s.memory) suf
      → length suf < fuel
      → search_loop ext fuel q port (length pre) (item_at suf 0) s
        ≡ ok (first_pending s.memory s.process.side port suf) s
  unfolding search_loop first_pending load_iface load_conn
  search_loop_lem suf pre zero e k f = absurd (omega arith)
  search_loop_lem [] pre (suc fuel) e k f = refl
  search_loop_lem (x ∷ suf) pre (suc fuel) e k f =
      let (b, at_x, ne) = k.0 in
      let e1 : (x == null) ≡ false = ground (arith, ne) in
      let e2 : (q == null) ≡ false = ground (arith, h.ne_null) in
      let at_next : item_at i.connection_list.list.items (length pre + 1) ≡ item_at suf 0 =
        ap (λ l. item_at l (length pre + 1)) e ∙ item_at-after pre x suf in
      let shift : length (pre ++ x ∷ []) ≡ length pre + 1 = length-append pre (x ∷ []) in
      let ih : search_loop ext fuel q port (length pre + 1) (item_at suf 0) s
          ≡ ok (first_pending s.memory s.process.side port suf) s =
        rw shift at (
          search_loop_lem suf (pre ++ x ∷ []) fuel (e ∙ sym (append_assoc pre (x ∷ []) suf)) k.1
            (omega arith)) in
      elim (Bool-cases (pending s.process.side port b.value)) [
        | inl t ↦ simp (e1, at_x, t)
        | inr t ↦
            simp
              (
                e1,
                e2,
                at_x,
                t,
                h.holds,
                get_n-items ext.ll laws.ll_laws i.connection_list h.owned s.process.context
                    (length pre + 1),
                at_next,
              )
              ih
      ]

  -- `searchNewConnectionOnIface` looks through the whole list, without running out of rounds and
  -- without changing anything, and returns the first connection that is offered on the port.
  pub search_new_connection_on_iface_lem :
      search_new_connection_on_iface ext q port s
      ≡ ok (first_pending s.memory s.process.side port i.connection_list.list.items) s
  unfolding search_new_connection_on_iface load_iface llist_len
  search_new_connection_on_iface_lem =
      let e2 : (q == null) ≡ false = ground (arith, h.ne_null) in
      simp
        (
          e2,
          h.holds,
          get_n-items ext.ll laws.ll_laws i.connection_list h.owned s.process.context 0,
          laws.ll_laws.len_items i.connection_list.list,
        )
        (search_loop_lem i.connection_list.list.items [] (suc (length i.connection_list.list.items))
          refl h.listed (omega arith))

module _ (m : Memory) (side : Side) (port : ℕ) where
  pub first_pending-hit :
      (p : Ptr) (ps : List Ptr)
      → pending_at m side port p ≡ true
      → first_pending m side port (p ∷ ps) ≡ p
  unfolding first_pending
  first_pending-hit p ps t = rw t

  pub first_pending-skip :
      (p : Ptr) (ps : List Ptr)
      → pending_at m side port p ≡ false
      → first_pending m side port (p ∷ ps) ≡ first_pending m side port ps
  unfolding first_pending
  first_pending-skip p ps t = rw t

  -- What `first_pending` finds is in the list and offered on the port.
  pub first_pending-found :
      (ps : List Ptr)
      → first_pending m side port ps ≢ null
      → (contains (first_pending m side port ps) ps ≡ true)
        × (pending_at m side port (first_pending m side port ps) ≡ true)
  first_pending-found [] ne = absurd (ne (unfold first_pending in refl))
  first_pending-found (p ∷ ps) ne = elim (Bool-cases (pending_at m side port p)) [
    | inl t ↦
        subst (λ r. (contains r (p ∷ ps) ≡ true) × (pending_at m side port r ≡ true))
          (sym (first_pending-hit p ps t)) (ground (arith, ==_refl p), t)
    | inr t ↦
        let ih = first_pending-found ps (λ e. ne (first_pending-skip p ps t ∙ e)) in
        subst (λ r. (contains r (p ∷ ps) ≡ true) × (pending_at m side port r ≡ true))
          (sym (first_pending-skip p ps t)) (ground (arith, ih.0), ih.1)
  ]

  -- It is NULL only where nothing in the list is offered on the port.
  pub first_pending-null :
      (ps : List Ptr)
      → All (Listed m) ps
      → first_pending m side port ps ≡ null
      → All (λ p. pending_at m side port p ≡ false) ps
  first_pending-null [] k e = tt
  first_pending-null (p ∷ ps) k e = elim (Bool-cases (pending_at m side port p)) [
    | inl t ↦ absurd (k.0.2 (sym (first_pending-hit p ps t) ∙ e))
    | inr t ↦ (t, first_pending-null ps k.1 (sym (first_pending-skip p ps t) ∙ e))
  ]

  -- So it leads to a connection.
  pub first_pending-block :
      (ps : List Ptr)
      → first_pending m side port ps ≢ null
      → (b : Block Connection) × (m.conns (first_pending m side port ps) ≡ some b)
  first_pending-block ps ne =
      block_of_pending (m.conns (first_pending m side port ps)) (first_pending-found ps ne).1
    where
      block_of_pending :
          (o : Option (Block Connection))
          → pending_block side port o ≡ true
          → (b : Block Connection) × (o ≡ some b)
      block_of_pending none e = cc
      block_of_pending (some b) e = (b, refl)
