-- ===== src/Connection/Recv.antt =====
-- `recvConnection`: the oldest bytes from the other side, as many as fit of the first packet.
use shmsock.Base.{
  ℕ, suc, ◌+◌, ◌-◌, ◌≤◌, ◌<◌, ◌≡◌, refl, ◌≢◌, true, false, List, [], ◌∷◌, none, some, arith, ◌==◌,
  length, leb, ltb, take, drop, length-drop, ==_refl, erase_idx,
}
use shmsock.Llist.{Ptr, null, Llist, has_data_list}
use shmsock.Llist.Owned.{with_items, remove_first-items, get_first-items, has_data-items}
use shmsock.Machine.{
  Side, server, client, BufferEntry, Connection, Block, Memory, State, mctx, External, ExternalLaws,
}
use shmsock.Machine.Sides.{recv_buffer, send_buffer, set_recv_buffer}
use shmsock.Machine.Cmd.{
  ok, update, update_conn, load_conn, load_entry, update_entry, memcpy, free_entry,
}
use shmsock.Connection.Stream.{Connected, unread, recv-IsBuffer}
use shmsock.Connection.{recv_connection, recv_whole, recv_part, malloc_in_conn}

set_recv_buffer-iface :
    (side : Side) (l : Llist) (c : Connection)
    → (set_recv_buffer side l c).associated_iface ≡ c.associated_iface
set_recv_buffer-iface server l c = refl
set_recv_buffer-iface client l c = refl

-- The connection without the first packet of its receive buffer.
pub conn_received : Side → Connection → Connection
conn_received side c =
    let l = recv_buffer side c in set_recv_buffer side (with_items l (erase_idx l.list.items 0)) c

pub conn_received_lem :
    (side : Side) (c : Connection)
    → (recv_buffer side (conn_received side c)
        ≡ with_items (recv_buffer side c) (erase_idx (recv_buffer side c).list.items 0))
      × (send_buffer side (conn_received side c) ≡ send_buffer side c)
      × ((conn_received side c).conn_state ≡ c.conn_state)
      × ((conn_received side c).associated_iface ≡ c.associated_iface)
unfolding conn_received
conn_received_lem server c = (refl, refl, refl, refl)
conn_received_lem client c = (refl, refl, refl, refl)

module _ (ext : External) (laws : ExternalLaws ext) where
  module _ (s : State) (p : Ptr) (c : Connection) (h : Connected s.memory p c) (len : ℕ) where
    abbrev pub side : Side
    side = s.process.side

    abbrev pub arena : Ptr
    arena = mctx c.associated_iface

    -- Nothing is there to read: nothing is done.
    pub recv-empty :
        (recv_buffer side c).list.items ≡ [] → recv_connection ext p len s ≡ ok (0, []) s
    unfolding recv_connection load_conn
    recv-empty e =
        let e3 : (p == null) ≡ false = ground (arith, h.ne_null) in
        simp (e3, h.holds, has_data-items ext.ll laws.ll_laws (recv_buffer side c), e)

    module _ (b : Ptr) (bs : List Ptr) (items : (recv_buffer side c).list.items ≡ b ∷ bs)
        (blk : Block BufferEntry) (at_b : s.memory.entries b ≡ some blk) (ne : b ≢ null)
        (home : blk.arena ≡ arena)
        (window : blk.value.offset + blk.value.datasize ≤ length blk.value.bytes) where
      has : has_data_list ext.ll (recv_buffer side c) ≡ true
      has =
          rw (has_data-items ext.ll laws.ll_laws (recv_buffer side c), items)
            (let e : ltb 0 (suc (length bs)) ≡ true = ground arith in e)

      abbrev pub memory_whole : Memory
      memory_whole = record s.memory {
        conns =
            update s.memory.conns p (some (record { arena = arena; value = conn_received side c }));
        entries = update s.memory.entries b none;
      }

      pub recv-whole :
          blk.value.datasize ≤ len
          → recv_connection ext p len s
            ≡ ok
                (blk.value.datasize, unread blk.value)
                (record { memory = memory_whole; process = record s.process { context = null } })
      unfolding recv_connection recv_whole load_conn load_entry update_conn memcpy malloc_in_conn
          free_entry conn_received
      recv-whole fits =
          let e3 : (p == null) ≡ false = ground (arith, h.ne_null) in
          let e4 : (b == null) ≡ false = ground (arith, ne) in
          let e5 : leb blk.value.datasize len ≡ true = ground arith in
          let e6 : leb blk.value.datasize (length (drop blk.value.offset blk.value.bytes)) ≡ true =
            ground (arith, length-drop blk.value.offset blk.value.bytes) in
          let own = recv-IsBuffer h side in
          simp (
            e3,
            e4,
            e5,
            e6,
            h.holds,
            at_b,
            home,
            has,
            items,
            get_first-items ext.ll laws.ll_laws (recv_buffer side c) own.owned s.process.context,
            remove_first-items ext.ll laws.ll_laws (recv_buffer side c) own.owned s.process.context,
            ==_refl,
            set_recv_buffer-iface,
          )

      abbrev pub part_entry : Block BufferEntry
      part_entry = record {
        arena = blk.arena;
        value = record blk.value {
          offset = blk.value.offset + len;
          datasize = blk.value.datasize - len;
        };
      }

      abbrev pub memory_part : Memory
      memory_part = record s.memory { entries = update s.memory.entries b (some part_entry) }

      pub recv-part :
          len < blk.value.datasize
          → recv_connection ext p len s
            ≡ ok
                (len, take len (drop blk.value.offset blk.value.bytes))
                (record { memory = memory_part; process = s.process })
      unfolding recv_connection recv_part load_conn load_entry update_entry memcpy
      recv-part fits =
          let e3 : (p == null) ≡ false = ground (arith, h.ne_null) in
          let e4 : (b == null) ≡ false = ground (arith, ne) in
          let e5 : leb blk.value.datasize len ≡ false = ground arith in
          let e6 : leb len (length (drop blk.value.offset blk.value.bytes)) ≡ true =
            ground (arith, length-drop blk.value.offset blk.value.bytes) in
          let own = recv-IsBuffer h side in
          simp (
            e3,
            e4,
            e5,
            e6,
            h.holds,
            at_b,
            has,
            items,
            get_first-items ext.ll laws.ll_laws (recv_buffer side c) own.owned s.process.context,
          )
