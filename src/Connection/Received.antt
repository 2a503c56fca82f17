-- ===== src/Connection/Received.antt =====
-- What `recvConnection` returns, against the stream of bytes that the other side sent.
use shmsock.Base.{
  ℕ, ◌+◌, ◌-◌, ◌≤◌, ◌<◌, ◌≡◌, refl, ap, ap₂, sym, ◌∙◌, ◌≢◌, false, List, [], ◌∷◌, ◌++◌, Option,
  none, some, arith, length, take, drop, length-take, length-drop, drop-take, take-take, drop-drop,
  take-append-drop, ==_refl, eq_of_==, append_assoc,
}
use shmsock.Llist.{Ptr, null}
use shmsock.Llist.Remove.{contains}
use shmsock.Machine.{Side, BufferEntry, Connection, Block, Memory, State, mctx}
use shmsock.Machine.Sides.{recv_buffer, send_buffer}
use shmsock.Machine.Access.{update_self}
use shmsock.Machine.Cmd.{update}
use shmsock.Connection.Stream.{
  Connected, IsBuffer, stream, payload, unread, Entries, Connected-of_sides, incoming, outgoing,
  send-IsBuffer, recv-IsBuffer, recv-Apart, stream-Agree, IsBuffer-Agree, update-Agree,
  Packets-Agree,
}
use shmsock.Connection.Recv.{conn_received, conn_received_lem}

-- The size of what is left of the first packet of a list; 0 for no packet.
abbrev pub first_size : Entries → List Ptr → ℕ
first_size f [] = 0
first_size f (x ∷ xs) = length (payload (f x))

-- What a call that reads `n` bytes of a connection does to it, seen from `side`.
pub record Received (side : Side) (p : Ptr) (c : Connection) (m m' : Memory) (c' : Connection)
    (n : ℕ) (bytes : List ℕ) : Type 0 where
  pub connected : Connected m' p c'
  pub in_order : incoming side m c ≡ bytes ++ incoming side m' c'
  pub counted : length bytes ≡ n
  pub outgoing_same : outgoing side m' c' ≡ outgoing side m c
  pub state_same : c'.conn_state ≡ c.conn_state
  pub iface_same : c'.associated_iface ≡ c.associated_iface
  pub ifaces_same : m'.ifaces ≡ m.ifaces
  pub conns_same : (q : Ptr) → q ≢ p → m'.conns q ≡ m.conns q

unread_split :
    (e : BufferEntry) (n : ℕ)
    → n ≤ e.datasize
    → unread e
      ≡ take n (drop e.offset e.bytes)
        ++ unread (record e { offset = e.offset + n; datasize = e.datasize - n })
unread_split e n h =
    sym (take-append-drop n (unread e))
    ∙ ap₂ ◌++◌ (take-take n e.datasize (drop e.offset e.bytes) h) (
        drop-take n e.datasize (drop e.offset e.bytes)
        ∙ ap (take (e.datasize - n)) (drop-drop n e.offset e.bytes))

pub length-unread :
    (e : BufferEntry) → e.offset + e.datasize ≤ length e.bytes → length (unread e) ≡ e.datasize
length-unread e h =
    omega (arith, length-take e.datasize (drop e.offset e.bytes), length-drop e.offset e.bytes)

module _ (s : State) (p : Ptr) (c : Connection) (h : Connected s.memory p c) (len : ℕ) (b : Ptr)
    (bs : List Ptr) (items : (recv_buffer s.process.side c).list.items ≡ b ∷ bs)
    (blk : Block BufferEntry) (at_b : s.memory.entries b ≡ some blk) where
  rest-apart : contains b bs ≡ false
  rest-apart = let own = recv-IsBuffer h s.process.side in (rw items at own.distinct).0

  sent-apart : contains b (send_buffer s.process.side c).list.items ≡ false
  sent-apart = recv-Apart h s.process.side b (rw items (ground (arith, ==_refl b)))

  -- A write at the first packet leaves all others alone.
  stream-update :
      (v : Option (Block BufferEntry))
      → (stream (update s.memory.entries b v) bs ≡ stream s.memory.entries bs)
        × (stream (update s.memory.entries b v) (send_buffer s.process.side c).list.items
            ≡ outgoing s.process.side s.memory c)
  stream-update v = (
    stream-Agree s.memory.entries _ bs (update-Agree s.memory.entries b v bs rest-apart),
    stream-Agree s.memory.entries _ _ (update-Agree s.memory.entries b v _ sent-apart),
  )

  IsBuffer-send-update :
      (v : Option (Block BufferEntry))
      → IsBuffer
          (update s.memory.entries b v)
          (mctx c.associated_iface)
          (send_buffer s.process.side c)
  IsBuffer-send-update v =
      IsBuffer-Agree s.memory.entries _ _ _ (update-Agree s.memory.entries b v _ sent-apart)
        (send-IsBuffer h s.process.side)

  abbrev after_whole : Memory
  after_whole = record s.memory {
    conns =
        update s.memory.conns p (
          some
            (record { arena = mctx c.associated_iface; value = conn_received s.process.side c }));
    entries = update s.memory.entries b none;
  }

  Connected-whole : Connected after_whole p (conn_received s.process.side c)
  Connected-whole =
      let side = s.process.side in
      let facts = conn_received_lem side c in
      let own = recv-IsBuffer h side in
      Connected-of_sides side after_whole p (conn_received side c) h.ne_null
        (rw facts.3 (update_self s.memory.conns p _))
        (rw (facts.0, facts.3, items)
          (record {
            owned = own.owned;
            in_arena = own.in_arena;
            packets =
                Packets-Agree s.memory.entries _ _ bs
                  (update-Agree s.memory.entries b none bs rest-apart) (rw items at own.packets).1;
            distinct = (rw items at own.distinct).1;
          }))
        (rw (facts.1, facts.3) (IsBuffer-send-update none))
        (rw (facts.0, facts.1, items) (λ q i. recv-Apart h side q (rw items (ground (arith, i)))))

  pub Received-whole :
      b ≢ null
      → blk.value.offset + blk.value.datasize ≤ length blk.value.bytes
      → Received s.process.side p c s.memory after_whole
          (conn_received s.process.side c)
          blk.value.datasize
          (unread blk.value)
  Received-whole ne window =
      let side = s.process.side in
      let facts = conn_received_lem side c in
      record {
        connected = Connected-whole;
        in_order =
            rw (items, at_b, facts.0)
              (ap (◌++◌ (unread blk.value)) (sym (rw items (stream-update none).0)));
        counted = length-unread blk.value window;
        outgoing_same = rw facts.1 (stream-update none).1;
        state_same = facts.2;
        iface_same = facts.3;
        ifaces_same = refl;
        conns_same = λ q ne. ground (arith, ne, eq_of_== p q);
      }

  abbrev cut_entry : Block BufferEntry
  cut_entry = record {
    arena = blk.arena;
    value = record blk.value {
      offset = blk.value.offset + len;
      datasize = blk.value.datasize - len;
    };
  }

  abbrev after_part : Memory
  after_part = record s.memory { entries = update s.memory.entries b (some cut_entry) }

  module _ (ne : b ≢ null) (home : blk.arena ≡ mctx c.associated_iface)
      (window : blk.value.offset + blk.value.datasize ≤ length blk.value.bytes)
      (fits : len < blk.value.datasize) where
    Connected-part : Connected after_part p c
    Connected-part =
        let side = s.process.side in
        let own = recv-IsBuffer h side in
        let rest =
          Packets-Agree s.memory.entries _ _ bs
            (update-Agree s.memory.entries b (some cut_entry) bs rest-apart)
            (rw items at own.packets).1 in
        Connected-of_sides side after_part p c h.ne_null h.holds
          (record {
            owned = own.owned;
            in_arena = own.in_arena;
            packets = rw items (
              (cut_entry, update_self s.memory.entries b (some cut_entry), ne, home, omega arith),
              rest,
            );
            distinct = own.distinct;
          })
          (IsBuffer-send-update (some cut_entry)) (recv-Apart h side)

    pub Received-part :
        Received s.process.side p c s.memory after_part c len
          (take len (drop blk.value.offset blk.value.bytes))
    Received-part = record {
      connected = Connected-part;
      in_order =
          rw
            (
              items,
              ==_refl b,
              (stream-update (some cut_entry)).0,
              at_b,
              unread_split blk.value len (omega arith),
            )
            (append_assoc (take len (drop blk.value.offset blk.value.bytes))
              (unread cut_entry.value) (stream s.memory.entries bs));
      counted = omega (
        arith,
        length-take len (drop blk.value.offset blk.value.bytes),
        length-drop blk.value.offset blk.value.bytes,
      );
      outgoing_same = (stream-update (some cut_entry)).1;
      state_same = refl;
      iface_same = refl;
      ifaces_same = refl;
      conns_same = λ q ne. refl;
    }
