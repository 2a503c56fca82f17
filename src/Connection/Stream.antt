-- ===== src/Connection/Stream.antt =====
-- The packets of one buffer as a stream of bytes, and the shape of a connection in memory that
-- `sendConnection` and `recvConnection` rely on.
use shmsock.Base.{
  ℕ, ◌+◌, ◌≤◌, ◌≡◌, refl, sym, ◌∙◌, ◌≢◌, inl, inr, true, false, List, [], ◌∷◌, ◌++◌, Option, none,
  some, arith, if◌then◌else◌, ◌==◌, length, take, drop, All, Bool-cases, append_assoc, eq_of_==,
}
use shmsock.Llist.{Ptr, null, Llist}
use shmsock.Llist.Remove.{contains}
use shmsock.Llist.Owned.{IsOwned}
use shmsock.Machine.{Side, server, client, BufferEntry, Connection, Block, Memory, mctx}
use shmsock.Machine.Sides.{recv_buffer, send_buffer}
use shmsock.Machine.Cmd.{update}

abbrev pub Entries : Type 0
Entries = Ptr → Option (Block BufferEntry)

-- The bytes of a packet that have not been read yet.
abbrev pub unread : BufferEntry → List ℕ
unread e = take e.datasize (drop e.offset e.bytes)

abbrev pub payload : Option (Block BufferEntry) → List ℕ
payload none = []
payload (some b) = unread b.value

-- All bytes in flight, oldest first.
abbrev pub stream : Entries → List Ptr → List ℕ
stream f [] = []
stream f (p ∷ ps) = payload (f p) ++ stream f ps

-- A packet that was allocated in a context, and whose window lies within its array.
abbrev pub Packet : Entries → Ptr → Ptr → Type 0
Packet f arena p =
    (b : Block BufferEntry) × (f p ≡ some b)
    × (p ≢ null)
    × (b.arena ≡ arena)
    × (b.value.offset + b.value.datasize ≤ length b.value.bytes)

abbrev pub Distinct : List Ptr → Type 0
Distinct [] = Unit
Distinct (x ∷ xs) = (contains x xs ≡ false) × Distinct xs

abbrev pub Apart : List Ptr → List Ptr → Type 0
Apart xs ys = (p : Ptr) → contains p xs ≡ true → contains p ys ≡ false

pub contains-append :
    (p : Ptr) (xs ys : List Ptr)
    → contains p (xs ++ ys) ≡ (if contains p xs then true else contains p ys)
contains-append p [] ys = refl
contains-append p (x ∷ xs) ys = ground (arith, contains-append p xs ys)

pub Distinct-snoc :
    (q : Ptr) (xs : List Ptr) → Distinct xs → contains q xs ≡ false → Distinct (xs ++ q ∷ [])
Distinct-snoc q [] h k = (refl, tt)
Distinct-snoc q (x ∷ xs) h k =
    (ground (arith, contains-append x xs (q ∷ []), h.0), Distinct-snoc q xs h.1 (ground arith))

pub stream-append :
    (f : Entries) (xs ys : List Ptr) → stream f (xs ++ ys) ≡ stream f xs ++ stream f ys
stream-append f [] ys = refl
stream-append f (x ∷ xs) ys =
    rw (stream-append f xs ys) (sym (append_assoc (payload (f x)) (stream f xs) (stream f ys)))

-- A buffer of a connection: a list in the context of the interface, of packets from there.
pub record IsBuffer (f : Entries) (arena : Ptr) (l : Llist) : Type 0 where
  pub owned : IsOwned l
  pub in_arena : l.malloc_ctx ≡ arena
  pub packets : All (Packet f arena) l.list.items
  pub distinct : Distinct l.list.items

-- `p` leads to a connection `c` of an interface, with its two buffers and no packet in both.
pub record Connected (m : Memory) (p : Ptr) (c : Connection) : Type 0 where
  pub ne_null : p ≢ null
  pub holds : m.conns p ≡ some (record { arena = mctx c.associated_iface; value = c })
  pub to_server : IsBuffer m.entries (mctx c.associated_iface) c.to_server
  pub to_client : IsBuffer m.entries (mctx c.associated_iface) c.to_client
  pub apart : Apart c.to_server.list.items c.to_client.list.items

-- Where two maps agree on a list.
abbrev pub Agree : Entries → Entries → List Ptr → Type 0
Agree f g xs = (p : Ptr) → contains p xs ≡ true → g p ≡ f p

module _ (f g : Entries) where
  pub Agree-tail : (x : Ptr) (xs : List Ptr) → Agree f g (x ∷ xs) → Agree f g xs
  Agree-tail x xs h p i = h p (ground arith)

  pub stream-Agree : (xs : List Ptr) → Agree f g xs → stream g xs ≡ stream f xs
  stream-Agree [] h = refl
  stream-Agree (x ∷ xs) h = rw (h x (ground arith), stream-Agree xs (Agree-tail x xs h))

  pub Packets-Agree :
      (arena : Ptr) (xs : List Ptr)
      → Agree f g xs
      → All (Packet f arena) xs
      → All (Packet g arena) xs
  Packets-Agree arena [] h k = tt
  Packets-Agree arena (x ∷ xs) h k = (
    (k.0.0, h x (ground arith) ∙ k.0.1, k.0.2, k.0.3, k.0.4),
    Packets-Agree arena xs (Agree-tail x xs h) k.1,
  )

  pub IsBuffer-Agree :
      (arena : Ptr) (l : Llist) → Agree f g l.list.items → IsBuffer f arena l → IsBuffer g arena l
  IsBuffer-Agree arena l h b = record {
    owned = b.owned;
    in_arena = b.in_arena;
    packets = Packets-Agree arena l.list.items h b.packets;
    distinct = b.distinct;
  }

-- A write at a place that is not in the list.
pub update-Agree :
    (f : Entries) (q : Ptr) (v : Option (Block BufferEntry)) (xs : List Ptr)
    → contains q xs ≡ false
    → Agree f (update f q v) xs
update-Agree f q v xs h p i = elim (Bool-cases (q == p)) [
  | inl e ↦ cc (eq_of_== q p e)
  | inr e ↦ rw e
]

-- A fresh block is in no buffer.
pub not-contains_of_none :
    (f : Entries) (arena q : Ptr) (xs : List Ptr)
    → f q ≡ none
    → All (Packet f arena) xs
    → contains q xs ≡ false
not-contains_of_none f arena q [] h k = refl
not-contains_of_none f arena q (x ∷ xs) h k =
    ground (arith, not-contains_of_none f arena q xs h k.1, k.0.1)

-- The sides see the same two buffers.
module _ {m : Memory} {p : Ptr} {c : Connection} (h : Connected m p c) where
  pub recv-IsBuffer :
      (side : Side) → IsBuffer m.entries (mctx c.associated_iface) (recv_buffer side c)
  recv-IsBuffer server = h.to_server
  recv-IsBuffer client = h.to_client

  pub send-IsBuffer :
      (side : Side) → IsBuffer m.entries (mctx c.associated_iface) (send_buffer side c)
  send-IsBuffer server = h.to_client
  send-IsBuffer client = h.to_server

  pub recv-Apart :
      (side : Side) → Apart (recv_buffer side c).list.items (send_buffer side c).list.items
  recv-Apart server = h.apart
  recv-Apart client = λ q i. ground (arith, h.apart q)

Apart-sym : (xs ys : List Ptr) → Apart xs ys → Apart ys xs
Apart-sym xs ys h q i = ground (arith, h q)

-- A connection is well formed if one side finds it so.
pub Connected-of_sides :
    (side : Side) (m : Memory) (p : Ptr) (c : Connection)
    → p ≢ null
    → m.conns p ≡ some (record { arena = mctx c.associated_iface; value = c })
    → IsBuffer m.entries (mctx c.associated_iface) (recv_buffer side c)
    → IsBuffer m.entries (mctx c.associated_iface) (send_buffer side c)
    → Apart (recv_buffer side c).list.items (send_buffer side c).list.items
    → Connected m p c
Connected-of_sides server m p c ne e r s a = record {
  ne_null = ne;
  holds = e;
  to_server = r;
  to_client = s;
  apart = a;
}
Connected-of_sides client m p c ne e r s a = record {
  ne_null = ne;
  holds = e;
  to_server = s;
  to_client = r;
  apart = Apart-sym c.to_client.list.items c.to_server.list.items a;
}

-- The bytes that one side can still read, and those that it has sent and the other can read.
abbrev pub incoming : Side → Memory → Connection → List ℕ
incoming side m c = stream m.entries (recv_buffer side c).list.items

abbrev pub outgoing : Side → Memory → Connection → List ℕ
outgoing side m c = stream m.entries (send_buffer side c).list.items
