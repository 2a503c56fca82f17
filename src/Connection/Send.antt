-- ===== src/Connection/Send.antt =====
-- `sendConnection`: the data go to the end of the stream towards the other side.
use shmsock.Base.{
  ℕ, ◌+◌, ◌≤◌, ◌≡◌, refl, ap, ◌≢◌, true, false, List, [], ◌∷◌, ◌++◌, none, some, arith, ◌==◌,
  length, leb, take, All, All-append, length-take, ==_refl, eq_of_==, bit_or, append-nil, take-all,
}
use shmsock.Llist.{Ptr, null, Llist}
use shmsock.Llist.Remove.{contains}
use shmsock.Llist.Owned.{with_items, insert_last-items}
use shmsock.Machine.{
  Side, server, client, BufferEntry, Connection, Block, Memory, State, mctx, External, ExternalLaws,
}
use shmsock.Machine.Sides.{
  recv_buffer, send_buffer, set_send_buffer, remote_events, set_remote_events,
}
use shmsock.Machine.Access.{update_self, update-update}
use shmsock.Machine.Cmd.{ok, update, update_conn, load_conn, update_entry, memcpy, malloc_entry}
use shmsock.Connection.Stream.{
  Connected, IsBuffer, stream, Entries, Connected-of_sides, incoming, outgoing, recv-Apart, Packet,
  Apart, stream-Agree, IsBuffer-Agree, update-Agree, not-contains_of_none, Distinct-snoc,
  stream-append, contains-append, send-IsBuffer, recv-IsBuffer,
}
use shmsock.Connection.{
  send_connection, set_remote_event, malloc_in_conn, epollin, sizeof_buffer_entry,
}

-- The connection after a packet `b` has been put into the send buffer.
unfoldable pub conn_sent : Side → Ptr → Connection → Connection
conn_sent side b c =
    let l = send_buffer side c in
    let d = set_send_buffer side (with_items l (l.list.items ++ b ∷ [])) c in
    set_remote_events side (bit_or (remote_events side d) epollin) d

conn_sent_lem :
    (side : Side) (b : Ptr) (c : Connection)
    → (recv_buffer side (conn_sent side b c) ≡ recv_buffer side c)
      × (send_buffer side (conn_sent side b c)
          ≡ with_items (send_buffer side c) ((send_buffer side c).list.items ++ b ∷ []))
      × ((conn_sent side b c).conn_state ≡ c.conn_state)
      × ((conn_sent side b c).associated_iface ≡ c.associated_iface)
unfolding conn_sent
conn_sent_lem server b c = (refl, refl, refl, refl)
conn_sent_lem client b c = (refl, refl, refl, refl)

module _ (ext : External) (laws : ExternalLaws ext) where
  module _ (s : State) (p : Ptr) (c : Connection) (h : Connected s.memory p c) (buf : List ℕ)
      (len : ℕ) where
    -- The packet that malloc gives.
    abbrev packet : Ptr
    packet = ext.malloc (mctx c.associated_iface) s.memory (sizeof_buffer_entry + len)

    abbrev sent_entry : Block BufferEntry
    sent_entry = record {
      arena = mctx c.associated_iface;
      value = record { datasize = len; offset = 0; bytes = take len buf };
    }

    abbrev memory_sent : Memory
    memory_sent = record s.memory {
      conns = update s.memory.conns p (
          some (record {
            arena = mctx c.associated_iface;
            value = conn_sent s.process.side packet c;
          }));
      entries = update s.memory.entries packet (some sent_entry);
    }

    send_connection_run :
        packet ≢ null
        → len ≤ length buf
        → send_connection ext p buf len s
          ≡ ok len (record { memory = memory_sent; process = record s.process { context = null } })
    unfolding send_connection malloc_in_conn malloc_entry set_remote_event conn_sent load_conn
        update_conn update_entry memcpy
    send_connection_run nn fits =
        let e1 : (packet == null) ≡ false = ground arith in
        let e2 : leb len (length buf) ≡ true = ground arith in
        let e3 : (p == null) ≡ false = ground (arith, h.ne_null) in
        let own = send-IsBuffer h s.process.side in
        simp (
          e1,
          e2,
          e3,
          ==_refl,
          h.holds,
          update-update,
          insert_last-items ext.ll laws.ll_laws (send_buffer s.process.side c) own.owned null
              packet,
        )

    -- What the packet adds to a stream, and that it is in no buffer yet.
    abbrev entries_sent : Entries
    entries_sent = memory_sent.entries

    packet-fresh :
        packet ≢ null
        → (xs : List Ptr) → All (Packet s.memory.entries (mctx c.associated_iface)) xs
        → contains packet xs ≡ false
    packet-fresh nn xs k =
        not-contains_of_none s.memory.entries (mctx c.associated_iface) packet xs
          (laws.fresh_entry _ _ _ nn) k

    stream-sent :
        packet ≢ null
        → (xs : List Ptr) → All (Packet s.memory.entries (mctx c.associated_iface)) xs
        → stream entries_sent xs ≡ stream s.memory.entries xs
    stream-sent nn xs k =
        stream-Agree s.memory.entries entries_sent xs
          (update-Agree s.memory.entries packet (some sent_entry) xs (packet-fresh nn xs k))

    IsBuffer-sent :
        packet ≢ null
        → (l : Llist) → IsBuffer s.memory.entries (mctx c.associated_iface) l
        → IsBuffer entries_sent (mctx c.associated_iface) l
    IsBuffer-sent nn l b =
        IsBuffer-Agree s.memory.entries entries_sent (mctx c.associated_iface) l
          (update-Agree s.memory.entries packet (some sent_entry) l.list.items
            (packet-fresh nn l.list.items b.packets))
          b

    -- The buffer with the packet at its end is a buffer.
    IsBuffer-extended :
        packet ≢ null
        → len ≤ length buf
        → (l : Llist) → IsBuffer s.memory.entries (mctx c.associated_iface) l
        → IsBuffer entries_sent
            (mctx c.associated_iface)
            (with_items l (l.list.items ++ packet ∷ []))
    IsBuffer-extended nn fits l b =
        let old = IsBuffer-sent nn l b in
        record {
          owned = old.owned;
          in_arena = old.in_arena;
          packets =
              All-append (Packet entries_sent (mctx c.associated_iface)) l.list.items (packet ∷ [])
                old.packets
                (
                  (
                    sent_entry,
                    update_self s.memory.entries packet (some sent_entry),
                    nn,
                    refl,
                    omega (arith, length-take len buf),
                  ),
                  tt,
                );
          distinct =
              Distinct-snoc packet l.list.items old.distinct
                (packet-fresh nn l.list.items b.packets);
        }

    out-sent :
        packet ≢ null
        → len ≤ length buf
        → outgoing s.process.side memory_sent (conn_sent s.process.side packet c)
          ≡ outgoing s.process.side s.memory c ++ take len buf
    out-sent nn fits =
        let xs = (send_buffer s.process.side c).list.items in
        let own = send-IsBuffer h s.process.side in
        rw
          (
            (conn_sent_lem s.process.side packet c).1,
            stream-append entries_sent xs (packet ∷ []),
            stream-sent nn xs own.packets,
            update_self s.memory.entries packet (some sent_entry),
            take-all len (take len buf) (omega (arith, length-take len buf)),
          )
          (ap (λ t. stream s.memory.entries xs ++ t) (append-nil (take len buf)))

    Apart-sent :
        packet ≢ null
        → Apart
            (recv_buffer s.process.side c).list.items
            ((send_buffer s.process.side c).list.items ++ packet ∷ [])
    Apart-sent nn q i =
        let recv = recv-IsBuffer h s.process.side in
        ground (
          arith,
          contains-append q (send_buffer s.process.side c).list.items (packet ∷ []),
          recv-Apart h s.process.side q i,
          packet-fresh nn (recv_buffer s.process.side c).list.items recv.packets,
          eq_of_== packet q,
        )

    Connected-sent :
        packet ≢ null
        → len ≤ length buf
        → Connected memory_sent p (conn_sent s.process.side packet c)
    Connected-sent nn fits =
        let side = s.process.side in
        let facts = conn_sent_lem side packet c in
        Connected-of_sides side memory_sent p (conn_sent side packet c) h.ne_null
          (rw facts.3 (update_self s.memory.conns p _))
          (rw (facts.0, facts.3) (IsBuffer-sent nn (recv_buffer side c) (recv-IsBuffer h side)))
          (rw (facts.1, facts.3)
            (IsBuffer-extended nn fits (send_buffer side c) (send-IsBuffer h side)))
          (rw (facts.0, facts.1) (Apart-sent nn))

    -- With memory left, `sendConnection` returns the number of bytes that it was given. They stand
    -- behind all that the other side has not read yet; what comes the other way, the state of the
    -- connection and its interface are as before, and so are the interfaces, the other connections
    -- and the packets in memory. The malloc context is NULL.
    pub send_connection_lem :
        packet ≢ null
        → len ≤ length buf
        → (s' : State) × (c' : Connection) × (send_connection ext p buf len s ≡ ok len s')
          × Connected s'.memory p c'
          × (outgoing s.process.side s'.memory c'
              ≡ outgoing s.process.side s.memory c ++ take len buf)
          × (incoming s.process.side s'.memory c' ≡ incoming s.process.side s.memory c)
          × (c'.conn_state ≡ c.conn_state)
          × (c'.associated_iface ≡ c.associated_iface)
          × (s'.memory.ifaces ≡ s.memory.ifaces)
          × ((q : Ptr) → q ≢ p → s'.memory.conns q ≡ s.memory.conns q)
          × ((q : Ptr) → s.memory.entries q ≢ none → s'.memory.entries q ≡ s.memory.entries q)
          × (s'.process ≡ record s.process { context = null })
    send_connection_lem nn fits =
        let facts = conn_sent_lem s.process.side packet c in
        (
          record { memory = memory_sent; process = record s.process { context = null } },
          conn_sent s.process.side packet c,
          send_connection_run nn fits,
          Connected-sent nn fits,
          out-sent nn fits,
          rw facts.0 (
              stream-sent nn (recv_buffer s.process.side c).list.items
                (recv-IsBuffer h s.process.side).packets),
          facts.2,
          facts.3,
          refl,
          (λ q ne. ground (arith, ne, eq_of_== p q)),
          (λ q used. ground (
            arith,
            used,
            laws.fresh_entry (mctx c.associated_iface) s.memory (sizeof_buffer_entry + len) nn,
            eq_of_== packet q,
          )),
          refl,
        )
