-- ===== src/Connection/AnyIface/Loops.antt =====
-- What the loops over the interfaces find, for searching and for accepting.
use shmsock.Base.{
  ℕ, ◌≡◌, refl, ap, sym, ◌∙◌, ◌≢◌, ◌⊎◌, inl, inr, Bool, true, false, List, [], ◌∷◌, Option, none,
  some, arith, if◌then◌else◌, ◌==◌, eq_of_==, All, Bool-cases,
}
use shmsock.Llist.{Ptr, null}
use shmsock.Machine.{Side, Interface, Connection, Block, Memory, State, External, ExternalLaws}
use shmsock.Machine.Cmd.{Run, ok, fault, load_iface}
use shmsock.Connection.{
  search_new_connection_on_iface, accept_new_connection_on_iface, on_any_iface,
}
use shmsock.Connection.Search.{
  first_pending, IsInterface, first_pending-block, search_new_connection_on_iface_lem,
}
use shmsock.Connection.Accept.{opened, accept-none, accept-some}

-- A slot of `interfaces`: empty, or an interface.
abbrev pub Slot : Memory → Ptr → Type 0
Slot m p = (p ≡ null) ⊎ ((i : Interface) × IsInterface m p i)

-- What one interface offers, if it passes the test.
abbrev pub offered_by : Memory → Side → ℕ → (Interface → Bool) → Option Interface → Ptr
offered_by m side port test none = null
offered_by m side port test (some i) =
    if test i then first_pending m side port i.connection_list.list.items else null

-- The first connection offered on the port on an interface that passes the test, or NULL.
abbrev pub any_pending : Memory → Side → ℕ → (Interface → Bool) → List Ptr → Ptr
any_pending m side port test [] = null
any_pending m side port test (p ∷ ps) =
    if p == null
    then any_pending m side port test ps
    else (let r = offered_by m side port test (m.ifaces p) in
        if r == null then any_pending m side port test ps else r)

-- What accepting does with what it finds: it opens the connection.
abbrev pub open_block : State → Ptr → Option (Block Connection) → Run Ptr
open_block s r none = fault
open_block s r (some b) = ok r (record s { memory = opened s.memory r b })

abbrev pub accepted : State → Ptr → Run Ptr
accepted s r = if r == null then ok null s else open_block s r (s.memory.conns r)

module _ (ext : External) (laws : ExternalLaws ext) (s : State) (port : ℕ)
    (test : Interface → Bool) where
  pub search_lem :
      (ps : List Ptr)
      → All (Slot s.memory) ps
      → on_any_iface ext test (λ p. search_new_connection_on_iface ext p port) ps s
        ≡ ok (any_pending s.memory s.process.side port test ps) s
  unfolding on_any_iface load_iface
  search_lem [] k = refl
  search_lem (p ∷ ps) (inl e, k) =
      let e1 : (p == null) ≡ true = ground arith in simp e1 (search_lem ps k)
  search_lem (p ∷ ps) (inr (i, h), k) =
      let ih = search_lem ps k in
      let e1 : (p == null) ≡ false = ground (arith, h.ne_null) in
      elim (Bool-cases (test i)) [
        | inr t ↦ simp (e1, h.holds, t) ih
        | inl t ↦
            elim (Bool-cases
              (first_pending s.memory s.process.side port i.connection_list.list.items == null)) [
                | inl n ↦
                    simp
                      (e1, h.holds, t, search_new_connection_on_iface_lem ext laws s p i h port, n)
                      ih
                | inr n ↦
                    simp
                      (e1, h.holds, t, search_new_connection_on_iface_lem ext laws s p i h port, n)
              ]
      ]

  abbrev accept_on : List Ptr → Run Ptr
  accept_on ps = on_any_iface ext test (λ p. accept_new_connection_on_iface ext p port) ps s

  abbrev found : List Ptr → Ptr
  found = any_pending s.memory s.process.side port test

  -- A slot that offers nothing is passed over, and one that offers something ends the search.
  accept_skip :
      (p : Ptr) (ps : List Ptr)
      → accept_on (p ∷ ps) ≡ accept_on ps
      → found (p ∷ ps) ≡ found ps
      → accept_on ps ≡ accepted s (found ps)
      → accept_on (p ∷ ps) ≡ accepted s (found (p ∷ ps))
  accept_skip p ps run same ih = run ∙ ih ∙ ap (accepted s) (sym same)

  accept_hit :
      (p : Ptr) (ps : List Ptr) (i : Interface) (h : IsInterface s.memory p i)
      (b : Block Connection)
      → test i ≡ true
      → let r = first_pending s.memory s.process.side port i.connection_list.list.items in
        r ≢ null → s.memory.conns r ≡ some b → accept_on (p ∷ ps) ≡ accepted s (found (p ∷ ps))
  unfolding on_any_iface load_iface
  accept_hit p ps i h b t ne at =
      let r = first_pending s.memory s.process.side port i.connection_list.list.items in
      let e1 : (p == null) ≡ false = ground (arith, h.ne_null) in
      let e2 : (r == null) ≡ false = ground (arith, ne) in
      let same : found (p ∷ ps) ≡ r = simp (e1, h.holds, t, e2) in
      let run : accept_on (p ∷ ps) ≡ ok r (record s { memory = opened s.memory r b }) =
        simp (e1, h.holds, t, accept-some ext laws s p i h port b ne at, e2) in
      let outcome : accepted s r ≡ ok r (record s { memory = opened s.memory r b }) =
        simp (e2, at) in
      run ∙ sym outcome ∙ ap (accepted s) (sym same)

  pub accept_lem : (ps : List Ptr) → All (Slot s.memory) ps → accept_on ps ≡ accepted s (found ps)
  unfolding on_any_iface load_iface
  accept_lem [] k = refl
  accept_lem (p ∷ ps) (inl e, k) =
      let e1 : (p == null) ≡ true = ground arith in
      accept_skip p ps (simp e1) (simp e1) (accept_lem ps k)
  accept_lem (p ∷ ps) (inr (i, h), k) =
      let ih = accept_lem ps k in
      let r = first_pending s.memory s.process.side port i.connection_list.list.items in
      let e1 : (p == null) ≡ false = ground (arith, h.ne_null) in
      elim (Bool-cases (test i)) [
        | inr t ↦ accept_skip p ps (simp (e1, h.holds, t)) (simp (e1, h.holds, t)) ih
        | inl t ↦ elim (Bool-cases (r == null)) [
          | inl n ↦
              accept_skip p ps
                (simp (e1, h.holds, t, accept-none ext laws s p i h port (eq_of_== r null n)))
                (simp (e1, h.holds, t, n)) ih
          | inr n ↦
              let ne : r ≢ null = λ e. ground arith in
              let (b, at) =
                first_pending-block s.memory s.process.side port i.connection_list.list.items ne in
              accept_hit p ps i h b t ne at
        ]
      ]
