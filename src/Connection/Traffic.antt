-- ===== src/Connection/Traffic.antt =====
-- What two processes read is what they have sent, in any order of their calls.
use shmsock.Base.{
  ℕ, ◌+◌, ◌≡◌, refl, ap, sym, ◌∙◌, ◌≢◌, inl, inr, List, [], ◌∷◌, ◌++◌, none, some, arith,
  if◌then◌else◌, length, append_assoc, append-nil, take-all,
}
use shmsock.Llist.{Ptr, null}
use shmsock.Machine.{
  Side, server, client, peer, Connection, Process, State, mctx, External, ExternalLaws,
}
use shmsock.Machine.Cmd.{ok, Cmd}
use shmsock.Connection.Stream.{Connected, incoming, outgoing}
use shmsock.Connection.Send.{send_connection_lem}
use shmsock.Connection.Reading.{recv_connection_lem}
use shmsock.Connection.{sizeof_buffer_entry}
use shmsock.Connection.World.{
  World, view, leave, in_world, Action, put, get, given, perform, traffic, same, read_by, sent_by,
  Sided, Sided-side, leave-Sided,
}

module _ (ext : External) (p : Ptr) where
  abbrev next_world : Side → Action → World → World
  next_world side a w = elim (in_world side (perform ext p a) w) [
    | none ↦ w
    | some (bytes, w') ↦ w'
  ]

  -- Whenever a packet is sent, malloc still finds a place for it.
  abbrev pub Room : Ptr → List (Side × Action) → World → Type 0
  Room iface [] w = Unit
  Room iface ((side, put bytes) ∷ rest) w =
      (ext.malloc (mctx iface) w.memory (sizeof_buffer_entry + length bytes) ≢ null)
      × Room iface rest (next_world side (put bytes) w)
  Room iface ((side, get n) ∷ rest) w = Room iface rest (next_world side (get n) w)

  -- One call: what is on the way to each side.
  record Stepped (side : Side) (a : Action) (w : World) (c : Connection) (bytes : List ℕ)
      (w' : World) (c' : Connection) : Type 0 where
    runs : in_world side (perform ext p a) w ≡ some (bytes, w')
    connected : Connected w'.memory p c'
    iface_same : c'.associated_iface ≡ c.associated_iface
    sided : Sided w'
    balance :
        (k : Side)
        → incoming k w.memory c ++ (if same (peer k) side then given a else [])
          ≡ (if same k side then bytes else []) ++ incoming k w'.memory c'

  in_world_lem :
      {A : Type 0} (side : Side) (call : Cmd A) (w : World) (a : A) (s : State)
      → call (view side w) ≡ ok a s
      → in_world side call w ≡ some (a, leave side s w)
  unfolding in_world
  in_world_lem side call w a s e = rw (e, in_world)

  -- The two directions, as the side that calls sees them, are the two that the sides read.
  Stepped-of :
      (side : Side) (a : Action) (w : World) (c : Connection) (bytes : List ℕ) (s : State)
      (c' : Connection)
      → perform ext p a (view side w) ≡ ok bytes s
      → Connected s.memory p c'
      → c'.associated_iface ≡ c.associated_iface
      → Sided w
      → s.process.side ≡ side
      → outgoing side s.memory c' ≡ outgoing side w.memory c ++ given a
      → incoming side w.memory c ≡ bytes ++ incoming side s.memory c'
      → Stepped side a w c bytes (leave side s w) c'
  Stepped-of server a w c bytes s c' run h i sd e out inc = record {
    runs = in_world_lem server (perform ext p a) w bytes s run;
    connected = h;
    iface_same = i;
    sided = leave-Sided server s sd e;
    balance = elim [ server ↦ append-nil (incoming server w.memory c) ∙ inc | client ↦ sym out ];
  }
  Stepped-of client a w c bytes s c' run h i sd e out inc = record {
    runs = in_world_lem client (perform ext p a) w bytes s run;
    connected = h;
    iface_same = i;
    sided = leave-Sided client s sd e;
    balance = elim [ server ↦ sym out | client ↦ append-nil (incoming client w.memory c) ∙ inc ];
  }

  module _ (laws : ExternalLaws ext) where
    put-Stepped :
        (side : Side) (bytes : List ℕ) (w : World) (c : Connection)
        → Connected w.memory p c
        → Sided w
        → ext.malloc (mctx c.associated_iface) w.memory (sizeof_buffer_entry + length bytes) ≢ null
        → (w' : World) × (c' : Connection) × (out : List ℕ) × Stepped side (put bytes) w c out w' c'
    unfolding perform
    put-Stepped side bytes w c h sd nn =
        let e = Sided-side side sd in
        let (s, c', run, h', out, inc, st, i, fi, fc, fe, pr) =
          send_connection_lem ext laws (view side w) p c h bytes (length bytes) nn (omega arith) in
        (
          leave side s w,
          c',
          [],
          Stepped-of side (put bytes) w c [] s c' (rw (run, perform)) h' i sd
              (ap (λ (q : Process). q.side) pr ∙ e)
              (rw e at out
                ∙ ap (λ t. outgoing side w.memory c ++ t)
                    (take-all (length bytes) bytes (omega arith)))
              (sym (rw e at inc)),
        )

    get-Stepped :
        (side : Side) (n : ℕ) (w : World) (c : Connection)
        → Connected w.memory p c
        → Sided w
        → (w' : World) × (c' : Connection) × (out : List ℕ) × Stepped side (get n) w c out w' c'
    unfolding perform
    get-Stepped side n w c h sd =
        let e = Sided-side side sd in
        let (s, c', bytes, run, r, size, pr) = recv_connection_lem ext laws (view side w) p c h n in
        (
          leave side s w,
          c',
          bytes,
          Stepped-of side (get n) w c bytes s c' (rw (run, perform)) r.connected r.iface_same sd
              (elim pr [
                | inl q ↦ ap (λ (z : Process). z.side) q ∙ e
                | inr q ↦ ap (λ (z : Process). z.side) q ∙ e
              ])
              (rw e at r.outgoing_same ∙ sym (append-nil (outgoing side w.memory c)))
              (rw e at r.in_order),
        )

    next_world_lem :
        (side : Side) (a : Action) (w w' : World) (out : List ℕ)
        → in_world side (perform ext p a) w ≡ some (out, w')
        → next_world side a w ≡ w'
    next_world_lem side a w w' out e = rw (e, next_world)

    -- The balances of one call and of the calls that follow it add up.
    balance_trans :
        (a g b m t r e : List ℕ) → a ++ g ≡ b ++ m → m ++ t ≡ r ++ e → a ++ (g ++ t) ≡ (b ++ r) ++ e
    balance_trans a g b m t r e h k =
        sym (append_assoc a g t)
        ∙ ap (λ l. l ++ t) h
        ∙ append_assoc b m t
        ∙ ap (λ l. b ++ l) k
        ∙ sym (append_assoc b r e)

    Balanced : List (Side × Action) → World → Connection → Type 0
    Balanced acts w c =
        (w' : World) × (c' : Connection) × (log : List (Side × List ℕ)) × (traffic ext p acts w
          ≡ some (w', log))
        × Connected w'.memory p c'
        × ((k : Side)
            → incoming k w.memory c ++ sent_by (peer k) acts
              ≡ read_by k log ++ incoming k w'.memory c')

    Balanced-cons :
        (side : Side) (a : Action) (rest : List (Side × Action)) (w w' : World) (c c' : Connection)
        (out : List ℕ)
        → Stepped side a w c out w' c'
        → Balanced rest w' c'
        → Balanced ((side, a) ∷ rest) w c
    unfolding Balanced traffic
    Balanced-cons side a rest w w' c c' out st (w'', c'', log, run, h, bal) = (
      w'',
      c'',
      (side, out) ∷ log,
      rw (st.runs, traffic, run),
      h,
      λ k.
          balance_trans (incoming k w.memory c) (if same (peer k) side then given a else [])
            (if same k side then out else []) (incoming k w'.memory c') (sent_by (peer k) rest)
            (read_by k log) (incoming k w''.memory c'') (st.balance k) (bal k),
    )

    -- For any sequence of sends and reads by the two sides of a connection, as long as malloc finds
    -- room for each packet: no call faults, the connection stays well formed, and for each side,
    -- what was on the way to it followed by what its peer has sent is what it has read followed
    -- by what is still on the way. So each side reads what the other sent, in order, with nothing
    -- lost or repeated.
    pub traffic_lem :
        (acts : List (Side × Action)) (w : World) (c : Connection)
        → Connected w.memory p c
        → Sided w
        → Room c.associated_iface acts w
        → (w' : World) × (c' : Connection) × (log : List (Side × List ℕ)) × (traffic ext p acts w
            ≡ some (w', log))
          × Connected w'.memory p c'
          × ((k : Side)
              → incoming k w.memory c ++ sent_by (peer k) acts
                ≡ read_by k log ++ incoming k w'.memory c')
    unfolding Balanced traffic
    traffic_lem [] w c h sd room = (w, c, [], refl, h, λ k. append-nil (incoming k w.memory c))
    traffic_lem ((side, put bytes) ∷ rest) w c h sd room =
        let (w', c', out, st) = put-Stepped side bytes w c h sd room.0 in
        Balanced-cons side (put bytes) rest w w' c c' out st (
          traffic_lem rest w' c' st.connected st.sided
            (rw (st.iface_same, ← next_world_lem side (put bytes) w w' out st.runs) room.1))
    traffic_lem ((side, get n) ∷ rest) w c h sd room =
        let (w', c', out, st) = get-Stepped side n w c h sd in
        Balanced-cons side (get n) rest w w' c c' out st (
          traffic_lem rest w' c' st.connected st.sided
            (rw (st.iface_same, ← next_world_lem side (get n) w w' out st.runs) room))
