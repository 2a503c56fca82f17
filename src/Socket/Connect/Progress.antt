-- ===== src/Socket/Connect/Progress.antt =====
-- `connectEx` on a descriptor that waits to be accepted.
use shmsock.Base.{
  ℕ, ◌≡◌, refl, ◌∙◌, ◌≢◌, inl, inr, false, [], ◌∷◌, ◌++◌, Option, some, arith, if◌then◌else◌, ◌==◌,
  not, get_elem?, Bool-cases, All,
}
use shmsock.Llist.{null}
use shmsock.Machine.{
  ℤ, pos, failure, s_connecting, s_open, c_open, c_close, conn_num, econnrefused, einprogress,
  Errno, Connection, Block, Fd, State, SockaddrIn, External,
}
use shmsock.Machine.Cmd.{Run, ok, asleep, Schedule, load_fd, load_conn, update_fd}
use shmsock.Fds.{find_fd, get_fd_by_num, assert_fd_state}
use shmsock.Fds.Keeps.{with_entry}
use shmsock.Connection.{check_if_accepted_connection, check_if_closed_connection}
use shmsock.Socket.Connect.{connect_ex, connect_round, connect_wait}

-- A descriptor whose connection has been offered.
pub record Connects (s : State) (i : ℕ) (d : Fd) (b : Block Connection) : Type 0 where
  pub at : get_elem? s.process.fds i ≡ some d
  pub live : d.state ≡ s_connecting
  pub ne_null : d.conn ≢ null
  pub holds : s.memory.conns d.conn ≡ some b

abbrev failed : State → Errno → Run ℤ
failed s e = ok failure (record s { process = record s.process { errno = e } })

-- What follows where there is no answer yet: the first sleep, or none that ends.
abbrev pub sleep_on : External → ℕ → Schedule → State → Run ℤ
sleep_on ext i [] s = asleep
sleep_on ext i (env ∷ rest) s = connect_wait ext rest i (env s)

module _ (ext : External) (i : ℕ) where
  pub wait_round :
      (schedule : Schedule) (s : State)
      → connect_wait ext schedule i s ≡ connect_round ext i (sleep_on ext i schedule) s
  unfolding connect_wait
  wait_round [] s = refl
  wait_round (env ∷ rest) s = refl

  abbrev pub answer : Schedule → State → Fd → Connection → Run ℤ
  answer schedule s d c =
      if conn_num c.conn_state == conn_num c_open
      then ok (pos 0) (with_entry s i (record d { state = s_open }))
      else if conn_num c.conn_state == conn_num c_close
      then failed s econnrefused
      else if not (d.flag_nonblock == 0)
      then failed s einprogress
      else sleep_on ext i schedule s

  pub round_answer :
      (schedule : Schedule) (s : State) (d : Fd) (b : Block Connection)
      → Connects s i d b
      → connect_round ext i (sleep_on ext i schedule) s ≡ answer schedule s d b.value
  unfolding connect_round load_fd load_conn update_fd check_if_accepted_connection
      check_if_closed_connection
  round_answer schedule s d b h =
      let e1 : (d.conn == null) ≡ false = ground (arith, h.ne_null) in
      elim (Bool-cases (conn_num b.value.conn_state == conn_num c_open)) [
        | inl o ↦ simp (h.at, e1, h.holds, o)
        | inr o ↦ elim (Bool-cases (conn_num b.value.conn_state == conn_num c_close)) [
          | inl k ↦ simp (h.at, e1, h.holds, o, k)
          | inr k ↦ elim (Bool-cases (not (d.flag_nonblock == 0))) [
            | inl n ↦ simp (h.at, e1, h.holds, o, k, n)
            | inr n ↦ simp (h.at, e1, h.holds, o, k, n)
          ]
        ]
      ]

  -- On a descriptor whose connection waits to be accepted, `connectEx` does not offer it again: it
  -- returns 0 and opens the descriptor if the other side has opened the connection, fails with
  -- ECONNREFUSED if it has been closed, and otherwise fails with EINPROGRESS if the descriptor does
  -- not block, and sleeps and looks again if it does.
  pub connect_ex_lem :
      (s : State) (sockfd : ℕ) (d : Fd) (b : Block Connection) (addr : Option SockaddrIn)
      (schedule : Schedule)
      → find_fd sockfd s.process.fds ≡ some i
      → Connects s i d b
      → connect_ex ext sockfd addr schedule s ≡ answer schedule s d b.value
  unfolding connect_ex assert_fd_state get_fd_by_num load_fd
  connect_ex_lem s sockfd d b addr schedule found h =
      simp (found, h.at, h.live) (wait_round schedule s ∙ round_answer schedule s d b h)

  -- An offered connection on a blocking descriptor, while the others leave it unanswered.
  abbrev pub Unanswered : Fd → State → Type 0
  Unanswered d s =
      (b : Block Connection) × Connects s i d b
      × ((b.value.conn_state ≢ c_open) × (b.value.conn_state ≢ c_close))

  sleep_once :
      (env : State → State) (rest : Schedule) (s : State) (d : Fd)
      → d.flag_nonblock ≡ 0
      → Unanswered d s
      → connect_wait ext (env ∷ rest) i s ≡ connect_wait ext rest i (env s)
  sleep_once env rest s d block (b, h, (no_open, no_close)) =
      let e1 : (conn_num b.value.conn_state == conn_num c_open) ≡ false = ground (arith, no_open) in
      let e2 : (conn_num b.value.conn_state == conn_num c_close) ≡ false =
        ground (arith, no_close) in
      wait_round (env ∷ rest) s ∙ round_answer (env ∷ rest) s d b h ∙ simp (e1, e2, block)

  wait_opened :
      (schedule : Schedule) (s : State) (d : Fd) (b : Block Connection)
      → Connects s i d b
      → b.value.conn_state ≡ c_open
      → connect_wait ext schedule i s ≡ ok (pos 0) (with_entry s i (record d { state = s_open }))
  wait_opened schedule s d b h is_open =
      wait_round schedule s ∙ round_answer schedule s d b h ∙ simp is_open

  wait_accepted :
      (idle : Schedule) (env : State → State) (s : State) (d : Fd)
      → d.flag_nonblock ≡ 0
      → All (λ e. (t : State) → Unanswered d t → Unanswered d (e t)) idle
      → ((t : State)
          → Unanswered d t
          → (b : Block Connection) × Connects (env t) i d b × (b.value.conn_state ≡ c_open))
      → Unanswered d s
      → (t : State) × (connect_wait ext (idle ++ env ∷ []) i s
          ≡ ok (pos 0) (with_entry t i (record d { state = s_open })))
  wait_accepted [] env s d block k opens u =
      let (b, h, is_open) = opens s u in
      (env s, sleep_once env [] s d block u ∙ wait_opened [] (env s) d b h is_open)
  wait_accepted (e ∷ idle) env s d block k opens u =
      let (t, run) = wait_accepted idle env (e s) d block k.1 opens (k.0 s u) in
      (t, sleep_once e (idle ++ env ∷ []) s d block u ∙ run)

  -- `connectEx` on a blocking descriptor whose connection waits to be accepted: while the others
  -- leave it unanswered during any number of sleeps, and it is open after the next, the call
  -- returns 0 and the descriptor is open.
  pub connect_wakes :
      (sockfd : ℕ) (addr : Option SockaddrIn) (idle : Schedule) (env : State → State) (s : State)
      (d : Fd)
      → find_fd sockfd s.process.fds ≡ some i
      → d.flag_nonblock ≡ 0
      → All (λ e. (t : State) → Unanswered d t → Unanswered d (e t)) idle
      → ((t : State)
          → Unanswered d t
          → (b : Block Connection) × Connects (env t) i d b × (b.value.conn_state ≡ c_open))
      → Unanswered d s
      → (t : State) × (connect_ex ext sockfd addr (idle ++ env ∷ []) s
          ≡ ok (pos 0) (with_entry t i (record d { state = s_open })))
  unfolding connect_ex assert_fd_state get_fd_by_num load_fd
  connect_wakes sockfd addr idle env s d found block k opens (b, h, unanswered) =
      let (t, run) = wait_accepted idle env s d block k opens (b, h, unanswered) in
      (t, simp (found, h.at, h.live) run)
