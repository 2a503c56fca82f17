-- ===== src/Socket/Transfer/Waking.antt =====
-- A `recv` that waits, and what ends its wait.
use shmsock.Base.{
  ℕ, ◌<◌, ◌≡◌, refl, ◌∙◌, ◌≢◌, false, List, [], ◌∷◌, ◌++◌, some, arith, ◌==◌, length, get_elem?,
  ◌^◌,
}
use shmsock.Machine.{pos, s_open, c_close, conn_num, Connection, Fd, State, External, ExternalLaws}
use shmsock.Machine.Sides.{recv_buffer}
use shmsock.Machine.Cmd.{ok, Schedule}
use shmsock.Fds.{find_fd}
use shmsock.Connection.Stream.{Connected}
use shmsock.Connection.Recv.{recv-empty}
use shmsock.Connection.Received.{first_size}
use shmsock.Connection.Reading.{recv_connection_lem}
use shmsock.Socket.Transfer.{recv, recv_wait}
use shmsock.Socket.Transfer.Drain.{
  go_on, no_wait, wait_round, recv_round_lem, fds_of_recv, recv_start,
}

module _ (i : ℕ) (d : Fd) where
  -- A connection with nothing to read that is not closed, and one whose first packet has bytes.
  abbrev pub Waits : State → Type 0
  Waits s =
      (c : Connection) × (get_elem? s.process.fds i ≡ some d)
      × Connected s.memory d.conn c
      × ((recv_buffer s.process.side c).list.items ≡ [])
      × (c.conn_state ≢ c_close)

  abbrev pub HasData : State → Type 0
  HasData s =
      (c : Connection) × (get_elem? s.process.fds i ≡ some d)
      × Connected s.memory d.conn c
      × (0 < first_size s.memory.entries (recv_buffer s.process.side c).list.items)

  -- Nothing to read in each round, up to the state that the others make of it by `env` in the last
  -- sleep.
  abbrev pub Awaits : (State → State) → Schedule → State → Type 0
  Awaits env [] s = Waits s × HasData (env s)
  Awaits env (e ∷ idle) s = Waits s × Awaits env idle (e s)

module _ (ext : External) (laws : ExternalLaws ext) (i : ℕ) (d : Fd) (len flags : ℕ)
    (small : len < 2 ^ 31) (some_room : 0 < len) (waits : no_wait d flags ≡ false) where
  wait_data :
      (schedule : Schedule) (s : State)
      → HasData i d s
      → (s' : State) × (bytes : List ℕ) × (recv_wait ext schedule i len flags s
          ≡ ok (pos (length bytes), bytes) s')
        × (0 < length bytes)
  wait_data schedule s (c, at, h, more) =
      let (s', c', bytes, run, r, size, pr) = recv_connection_lem ext laws s d.conn c h len in
      let e1 : (length bytes == 0) ≡ false = ground (arith, size, more) in
      (
        s',
        bytes,
        wait_round ext laws schedule i len flags s
            ∙ recv_round_lem ext laws s i d c at h len flags small (go_on ext i len flags schedule)
                s' c' bytes run r (fds_of_recv ext laws s s' pr)
            ∙ simp e1,
        omega (arith, size, more),
      )

  wait_sleep :
      (env : State → State) (rest : Schedule) (s : State)
      → Waits i d s
      → recv_wait ext (env ∷ rest) i len flags s ≡ recv_wait ext rest i len flags (env s)
  wait_sleep env rest s (c, at, h, items, open_c) =
      let e1 : (conn_num c.conn_state == conn_num c_close) ≡ false = ground (arith, open_c) in
      wait_round ext laws (env ∷ rest) i len flags s
      ∙ recv_round_lem ext laws s i d c at h len flags small _ s c []
          (recv-empty ext laws s d.conn c h len items)
          (record {
            connected = h;
            in_order = refl;
            counted = refl;
            outgoing_same = refl;
            state_same = refl;
            iface_same = refl;
            ifaces_same = refl;
            conns_same = λ q ne. refl;
          })
          refl
      ∙ simp (e1, waits)

  wait_wakes :
      (idle : Schedule) (env : State → State) (s : State)
      → Awaits i d env idle s
      → (s' : State) × (bytes : List ℕ) × (recv_wait ext (idle ++ env ∷ []) i len flags s
          ≡ ok (pos (length bytes), bytes) s')
        × (0 < length bytes)
  wait_wakes [] env s (w, more_now) =
      let (s', bytes, run, more) = wait_data [] (env s) more_now in
      (s', bytes, wait_sleep env [] s w ∙ run, more)
  wait_wakes (e ∷ idle) env s (w, next) =
      let (s', bytes, run, more) = wait_wakes idle env (e s) next in
      (s', bytes, wait_sleep e (idle ++ env ∷ []) s w ∙ run, more)

  first_waits :
      (idle : Schedule) (env : State → State) (s : State) → Awaits i d env idle s → Waits i d s
  first_waits [] env s a = a.0
  first_waits (e ∷ idle) env s a = a.0

  -- A `recv` of more than 0 and less than 2^31 bytes that may wait, on an open connection: if there
  -- is nothing to read and the connection is not closed, neither at the call nor after any of the
  -- next sleeps, and the first packet has bytes after the sleep that follows, it returns with at
  -- least one byte.
  pub recv_wakes :
      (sockfd : ℕ) (idle : Schedule) (env : State → State) (s : State)
      → find_fd sockfd s.process.fds ≡ some i
      → d.state ≡ s_open
      → Awaits i d env idle s
      → (s' : State) × (bytes : List ℕ) × (recv ext sockfd len flags (idle ++ env ∷ []) s
          ≡ ok (pos (length bytes), bytes) s')
        × (0 < length bytes)
  recv_wakes sockfd idle env s found live awaits =
      let (s', bytes, run, more) = wait_wakes idle env s awaits in
      let (c, at, h, items, open_c) = first_waits idle env s awaits in
      (
        s',
        bytes,
        recv_start ext laws s sockfd i d c
              (record { found = found; at = at; live = live; connected = h }) len flags
              (idle ++ env ∷ [])
            ∙ run,
        more,
      )
