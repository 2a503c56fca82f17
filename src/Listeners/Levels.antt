-- ===== src/Listeners/Levels.antt =====
-- `setLevelTriggeredEvents`: the mask says what holds of the connection.
use shmsock.Base.{
  ℕ, ◌+◌, ◌≢◌, ◌≡◌, refl, inl, inr, Bool, false, some, arith, if◌then◌else◌, ◌==◌, length, ltb,
  ==_refl, Bool-cases,
}
use shmsock.Llist.{Ptr, null}
use shmsock.Llist.Owned.{has_data-items}
use shmsock.Machine.{
  Side, server, client, c_close, conn_num, Connection, Block, Memory, State, mctx, External,
  ExternalLaws,
}
use shmsock.Machine.Sides.{recv_buffer, own_lt_events, set_own_lt_events}
use shmsock.Machine.Access.{update-update}
use shmsock.Machine.Cmd.{ok, update, load_conn, update_conn}
use shmsock.Connection.Stream.{Connected}
use shmsock.Connection.{epollin, epollhup}
use shmsock.Listeners.{set_level_triggered_events, epollout}

module _ (n : ℕ) (c : Connection) where
  pub own_lt-set : (k : Side) → own_lt_events k (set_own_lt_events k n c) ≡ n
  own_lt-set server = refl
  own_lt-set client = refl

  pub set_lt-set :
      (k : Side) (m : ℕ) → set_own_lt_events k m (set_own_lt_events k n c) ≡ set_own_lt_events k m c
  set_lt-set server m = refl
  set_lt-set client m = refl

  pub recv-set : (k : Side) → recv_buffer k (set_own_lt_events k n c) ≡ recv_buffer k c
  recv-set server = refl
  recv-set client = refl

  pub state-set : (k : Side) → (set_own_lt_events k n c).conn_state ≡ c.conn_state
  state-set server = refl
  state-set client = refl

  iface-set : (k : Side) → (set_own_lt_events k n c).associated_iface ≡ c.associated_iface
  iface-set server = refl
  iface-set client = refl

ruleset level_rules = (==_refl, update-update, own_lt-set, set_lt-set, recv-set, state-set)

-- EPOLLIN where there is a packet to read, EPOLLOUT always, EPOLLHUP on a closed connection.
abbrev pub level_mask : Bool → Bool → ℕ
level_mask readable closed =
    (if readable then epollin else 0) + epollout + (if closed then epollhup else 0)

-- What the mask of a connection says.
abbrev pub level_of : Side → Connection → ℕ
level_of side c =
    level_mask (ltb 0 (length (recv_buffer side c).list.items))
      (conn_num c.conn_state == conn_num c_close)

-- The memory with this mask in the block at `p`.
abbrev pub with_level : Memory → Side → Ptr → Block Connection → ℕ → Memory
with_level m side p b n = record m {
  conns = update m.conns p (some (record b { value = set_own_lt_events side n b.value }));
}

module _ (ext : External) (laws : ExternalLaws ext) (s : State) (p : Ptr) where
  pub level_run :
      (b : Block Connection)
      → p ≢ null
      → s.memory.conns p ≡ some b
      → let side = s.process.side in
        set_level_triggered_events ext p s
        ≡ ok tt (record s { memory = with_level s.memory side p b (level_of side b.value) })
  unfolding set_level_triggered_events load_conn update_conn
  level_run b ne at =
      let e1 : (p == null) ≡ false = ground (arith, ne) in
      let c = b.value in
      let k = s.process.side in
      elim (Bool-cases (ltb 0 (length (recv_buffer k c).list.items))) [
        | inl t ↦ elim (Bool-cases (conn_num c.conn_state == conn_num c_close)) [
          | inl z ↦ simp (e1, at, has_data-items ext.ll laws.ll_laws, level_rules, t, z)
          | inr z ↦ simp (e1, at, has_data-items ext.ll laws.ll_laws, level_rules, t, z)
        ]
        | inr t ↦ elim (Bool-cases (conn_num c.conn_state == conn_num c_close)) [
          | inl z ↦ simp (e1, at, has_data-items ext.ll laws.ll_laws, level_rules, t, z)
          | inr z ↦ simp (e1, at, has_data-items ext.ll laws.ll_laws, level_rules, t, z)
        ]
      ]

  -- The mask of level-triggered events of the calling side becomes exactly: EPOLLIN if its receive
  -- buffer holds a packet, EPOLLOUT, and EPOLLHUP if the connection is closed. What it was before
  -- does not matter, and nothing else changes.
  pub set_level_triggered_events_lem :
      (c : Connection)
      → Connected s.memory p c
      → set_level_triggered_events ext p s
        ≡ ok tt (record s {
          memory = record s.memory {
            conns = update s.memory.conns p (
                some (record {
                  arena = mctx c.associated_iface;
                  value =
                      set_own_lt_events s.process.side
                        (level_mask
                          (ltb 0 (length (recv_buffer s.process.side c).list.items))
                          (conn_num c.conn_state == conn_num c_close))
                        c;
                }));
          };
        })
  set_level_triggered_events_lem c h =
      level_run (record { arena = mctx c.associated_iface; value = c }) h.ne_null h.holds
