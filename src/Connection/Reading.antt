-- ===== src/Connection/Reading.antt =====
-- `recvConnection`, in each of its cases.
use shmsock.Base.{
  ℕ, ◌≡◌, refl, sym, ◌∙◌, inl, inr, List, [], ◌∷◌, arith, length, leb, take, drop, All, min,
  Bool-cases, ◌⊎◌, subst, leb→le, leb→lt,
}
use shmsock.Llist.{Ptr, null}
use shmsock.Machine.{Connection, State, mctx, External, ExternalLaws}
use shmsock.Machine.Sides.{recv_buffer}
use shmsock.Machine.Cmd.{ok}
use shmsock.Connection.Stream.{Connected, unread, recv-IsBuffer, Packet}
use shmsock.Connection.{recv_connection}
use shmsock.Connection.Recv.{
  conn_received, recv-empty, recv-whole, recv-part, memory_whole, memory_part,
}
use shmsock.Connection.Received.{Received, first_size, length-unread, Received-whole, Received-part}

module _ (ext : External) (laws : ExternalLaws ext) where
  module _ (s : State) (p : Ptr) (c : Connection) (h : Connected s.memory p c) (len : ℕ) where
    abbrev Outcome : Type 0
    Outcome =
        (s' : State) × (c' : Connection) × (bytes : List ℕ) × (recv_connection ext p len s
          ≡ ok (length bytes, bytes) s')
        × Received s.process.side p c s.memory s'.memory c' (length bytes) bytes
        × (length bytes
            ≡ min len (first_size s.memory.entries (recv_buffer s.process.side c).list.items))
        × ((s'.process ≡ s.process) ⊎ (s'.process ≡ record s.process { context = null }))

    Outcome-empty : (recv_buffer s.process.side c).list.items ≡ [] → Outcome
    Outcome-empty e = (
      s,
      c,
      [],
      recv-empty ext laws s p c h len e,
      record {
        connected = h;
        in_order = refl;
        counted = refl;
        outgoing_same = refl;
        state_same = refl;
        iface_same = refl;
        ifaces_same = refl;
        conns_same = λ q ne. refl;
      },
      rw e (omega arith),
      inl refl,
    )

    outcome_of :
        (s' : State) (c' : Connection) (n : ℕ) (bytes : List ℕ)
        → recv_connection ext p len s ≡ ok (n, bytes) s'
        → Received s.process.side p c s.memory s'.memory c' n bytes
        → n ≡ min len (first_size s.memory.entries (recv_buffer s.process.side c).list.items)
        → (s'.process ≡ s.process) ⊎ (s'.process ≡ record s.process { context = null })
        → Outcome
    outcome_of s' c' n bytes run r size pr = (
      s',
      c',
      bytes,
      subst (λ k. recv_connection ext p len s ≡ ok (k, bytes) s') (sym r.counted) run,
      subst (λ k. Received s.process.side p c s.memory s'.memory c' k bytes) (sym r.counted) r,
      r.counted ∙ size,
      pr,
    )

    Outcome-packet :
        (b : Ptr) (bs : List Ptr)
        → (recv_buffer s.process.side c).list.items ≡ b ∷ bs
        → Packet s.memory.entries (mctx c.associated_iface) b
        → Outcome
    Outcome-packet b bs items (blk, at_b, ne, home, window) =
        let size = length-unread blk.value window in
        elim (Bool-cases (leb blk.value.datasize len)) [
          | inl e ↦
              outcome_of
                (record {
                  memory = memory_whole ext laws s p c h len b bs items blk at_b ne home window;
                  process = record s.process { context = null };
                })
                (conn_received s.process.side c) blk.value.datasize (unread blk.value)
                (recv-whole ext laws s p c h len b bs items blk at_b ne home window (leb→le _ _ e))
                (Received-whole s p c h len b bs items blk at_b ne window)
                (rw (items, at_b) (omega (arith, size, leb→le blk.value.datasize len e))) (inr refl)
          | inr e ↦
              let fits = leb→lt blk.value.datasize len e in
              outcome_of
                (record {
                  memory = memory_part ext laws s p c h len b bs items blk at_b ne home window;
                  process = s.process;
                })
                c len (take len (drop blk.value.offset blk.value.bytes))
                (recv-part ext laws s p c h len b bs items blk at_b ne home window fits)
                (Received-part s p c h len b bs items blk at_b ne home window fits)
                (rw (items, at_b) (omega (arith, size))) (inl refl)
        ]

    -- `recvConnection` never faults on a connection. The bytes that it copies are the oldest of
    -- those on the way, in order, and what is left follows them: nothing is lost, repeated or
    -- reordered. It returns their number, which is the smaller of `len` and what is left of the
    -- first packet, and 0 where there is no packet. The other direction, the state, the interface
    -- and the other connections are as before.
    pub recv_connection_lem : Outcome
    recv_connection_lem =
        go (recv_buffer s.process.side c).list.items refl (recv-IsBuffer h s.process.side).packets
      where
        go :
            (xs : List Ptr)
            → (recv_buffer s.process.side c).list.items ≡ xs
            → All (Packet s.memory.entries (mctx c.associated_iface)) xs
            → Outcome
        go [] e k = Outcome-empty e
        go (b ∷ bs) e k = Outcome-packet b bs e k.0
