-- ===== src/Connection/Accept.antt =====
-- `initiateNewConnection` and `acceptNewConnectionOnIface`: one side offers a connection, the other
-- opens it.
use shmsock.Base.{ℕ, ◌≡◌, sym, subst, ◌∙◌, ◌≢◌, true, false, ◌∷◌, some, arith, ◌==◌, ==_refl}
use shmsock.Llist.{Ptr, null}
use shmsock.Llist.Owned.{with_items, insert_first-items}
use shmsock.Machine.{
  Side, server, client, peer, c_create, c_open, Interface, Connection, Block, Memory, Process,
  State, External, ExternalLaws, mctx,
}
use shmsock.Machine.Sides.{remote_port}
use shmsock.Machine.Access.{update_self}
use shmsock.Machine.Cmd.{ok, update, update_conn, load_conn, load_iface, update_iface}
use shmsock.Connection.{
  accept_new_connection_on_iface, initiate_new_connection, check_if_accepted_connection,
}
use shmsock.Connection.Stream.{Connected}
use shmsock.Connection.Search.{
  pending, first_pending, first_pending-hit, IsInterface, search_new_connection_on_iface_lem,
}

-- The memory with the connection at `p` open.
abbrev pub opened : Memory → Ptr → Block Connection → Memory
opened m p b = record m {
  conns = update m.conns p (some (record b { value = record b.value { conn_state = c_open } }));
}

-- The memory in which `p` stands first in the list of its interface.
abbrev pub offer : Memory → Ptr → Connection → Interface → Memory
offer m p c i =
    let l = i.connection_list in
    record m {
      ifaces =
          update m.ifaces c.associated_iface
            (some (record i { connection_list = with_items l (p ∷ l.list.items) }));
    }

module _ (ext : External) (laws : ExternalLaws ext) where
  module _ (s : State) (q : Ptr) (i : Interface) (h : IsInterface s.memory q i) (port : ℕ) where
    abbrev pub offered : Ptr
    offered = first_pending s.memory s.process.side port i.connection_list.list.items

    pub accept-none : offered ≡ null → accept_new_connection_on_iface ext q port s ≡ ok null s
    unfolding accept_new_connection_on_iface
    accept-none e = simp (search_new_connection_on_iface_lem ext laws s q i h port, e)

    pub accept-some :
        (b : Block Connection)
        → offered ≢ null
        → s.memory.conns offered ≡ some b
        → accept_new_connection_on_iface ext q port s
          ≡ ok offered (record s { memory = opened s.memory offered b })
    unfolding accept_new_connection_on_iface update_conn
    accept-some b ne at =
        let e1 : (offered == null) ≡ false = ground (arith, ne) in
        simp (search_new_connection_on_iface_lem ext laws s q i h port, e1, at)

  module _ (s : State) (p : Ptr) (c : Connection) (i : Interface) (h : Connected s.memory p c)
      (hi : IsInterface s.memory c.associated_iface i) where
    pub initiate_run :
        initiate_new_connection ext p s ≡ ok true (record s { memory = offer s.memory p c i })
    unfolding initiate_new_connection load_conn load_iface update_iface
    initiate_run =
        let e1 : (p == null) ≡ false = ground (arith, h.ne_null) in
        let e2 : (c.associated_iface == null) ≡ false = ground (arith, hi.ne_null) in
        simp (
          e1,
          e2,
          h.holds,
          hi.holds,
          insert_first-items ext.ll laws.ll_laws i.connection_list hi.owned s.process.context p,
        )

    pub IsInterface-offer : IsInterface (offer s.memory p c i) c.associated_iface (record i {
      connection_list = with_items i.connection_list (p ∷ i.connection_list.list.items);
    })
    IsInterface-offer = record {
      ne_null = hi.ne_null;
      holds = update_self s.memory.ifaces c.associated_iface _;
      owned = hi.owned;
      listed = ((_, h.holds, h.ne_null), hi.listed);
    }

    pending-peer :
        (k : Side) → c.conn_state ≡ c_create → pending (peer k) (remote_port k c) c ≡ true
    pending-peer server e = rw e (==_refl c.client_port)
    pending-peer client e = rw e (==_refl c.server_port)

    -- A connection that one side has made and offers is what the other side accepts next on the
    -- interface and port that it was made for: `initiateNewConnection` succeeds, then
    -- `acceptNewConnectionOnIface` of the peer returns this very connection, and from then on
    -- `checkIfAcceptedConnection` tells the first side so, while it says no before. Accepting changes
    -- nothing but the state of the connection.
    pub offer-accept :
        (other : Process)
        → c.conn_state ≡ c_create
        → other.side ≡ peer s.process.side
        → let port = remote_port s.process.side c in
          let m = offer s.memory p c i in
          let m' = opened m p (record { arena = mctx c.associated_iface; value = c }) in
          (initiate_new_connection ext p s ≡ ok true (record s { memory = m }))
          × (check_if_accepted_connection ext p (record s { memory = m })
              ≡ ok false (record s { memory = m }))
          × (accept_new_connection_on_iface ext c.associated_iface port
                (record { memory = m; process = other })
              ≡ ok p (record { memory = m'; process = other }))
          × (check_if_accepted_connection ext p (record s { memory = m' })
              ≡ ok true (record s { memory = m' }))
    unfolding check_if_accepted_connection load_conn
    offer-accept other created side =
        let m = offer s.memory p c i in
        let port = remote_port s.process.side c in
        let block : Block Connection = record { arena = mctx c.associated_iface; value = c } in
        let e1 : (p == null) ≡ false = ground (arith, h.ne_null) in
        let found : first_pending m other.side port (p ∷ i.connection_list.list.items) ≡ p =
          first_pending-hit m other.side port p i.connection_list.list.items
            (rw (side, h.holds) (pending-peer s.process.side created)) in
        (
          initiate_run,
          simp (e1, h.holds, created),
          subst
              (λ r.
                accept_new_connection_on_iface ext c.associated_iface port
                  (record { memory = m; process = other })
                ≡ ok r (record { memory = opened m r block; process = other }))
              found
              (accept-some (record { memory = m; process = other }) c.associated_iface _
                IsInterface-offer port block (λ e. h.ne_null (sym found ∙ e))
                (subst (λ r. m.conns r ≡ some block) (sym found) h.holds)),
          simp (e1, ==_refl),
        )
