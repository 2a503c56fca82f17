-- ===== src/Socket/Transfer/Drain.antt =====
-- `recv` on an open descriptor: what it returns in each case.
use shmsock.Base.{
  ℕ, ◌<◌, ◌≡◌, refl, ap, sym, ◌∙◌, ◌≢◌, ◌⊎◌, inl, inr, Bool, true, false, List, [], ◌∷◌, ◌++◌, some,
  arith, if◌then◌else◌, ◌==◌, ◌||◌, not, bit_and, length, get_elem?, Bool-cases, ◌^◌, min,
}
use shmsock.Llist.{Ptr, null, has_data_list}
use shmsock.Machine.{
  ℤ, pos, failure, s_open, s_close, c_close, conn_num, eagain, Connection, Fd, Process, State,
  External, ExternalLaws,
}
use shmsock.Machine.Sides.{recv_buffer}
use shmsock.Machine.Cmd.{Run, ok, asleep, Cmd, Schedule, load_fd, load_conn, update_fd, int_of_size}
use shmsock.Fds.{find_fd, get_fd_by_num, handle_close_while_io}
use shmsock.Fds.Keeps.{with_entry}
use shmsock.Connection.{recv_connection}
use shmsock.Connection.Stream.{Connected, incoming, payload}
use shmsock.Connection.Received.{Received, first_size}
use shmsock.Connection.Reading.{recv_connection_lem}
use shmsock.Socket.Transfer.{recv, recv_round, recv_wait, recv_sized, msg_dontwait}

abbrev pub with_errno : State → State
with_errno s = record s { process = record s.process { errno = eagain } }

-- What follows where there is nothing to read: the first sleep, or none that ends.
abbrev pub go_on : External → ℕ → ℕ → ℕ → Schedule → State → Run (ℤ × List ℕ)
go_on ext i len flags [] s = asleep
go_on ext i len flags (env ∷ rest) s = recv_wait ext rest i len flags (env s)

abbrev pub no_wait : Fd → ℕ → Bool
no_wait d flags = not (d.flag_nonblock == 0) || not (bit_and flags msg_dontwait == 0)

pub int_of_size_lem : (len : ℕ) (s : State) → len < 2 ^ 31 → int_of_size len s ≡ ok len s
unfolding int_of_size
int_of_size_lem len s h = ground arith

-- Where `recv` starts: an open descriptor on a connection.
pub record Reads (s : State) (sockfd i : ℕ) (d : Fd) (c : Connection) : Type 0 where
  pub found : find_fd sockfd s.process.fds ≡ some i
  pub at : get_elem? s.process.fds i ≡ some d
  pub live : d.state ≡ s_open
  pub connected : Connected s.memory d.conn c

same_rest : (xs ys zs : List ℕ) → length xs ≡ 0 → zs ≡ xs ++ ys → ys ≡ zs
same_rest [] ys zs e h = sym h
same_rest (x ∷ xs) ys zs e h = absurd (omega (arith, e))

module _ (ext : External) (laws : ExternalLaws ext) where
  module _ (s : State) (i : ℕ) (d : Fd) (c : Connection) (at : get_elem? s.process.fds i ≡ some d)
      (h : Connected s.memory d.conn c) (len flags : ℕ) (small : len < 2 ^ 31) where
    recv_sized_lem : recv_sized ext d.conn len s ≡ recv_connection ext d.conn len s
    unfolding recv_sized recv_connection load_conn
    recv_sized_lem =
        let e1 : (d.conn == null) ≡ false = ground (arith, h.ne_null) in
        elim (Bool-cases (has_data_list ext.ll (recv_buffer s.process.side c))) [
          | inl t ↦ simp (e1, h.holds, t, int_of_size_lem len s small)
          | inr t ↦ simp (e1, h.holds, t)
        ]

    -- One round, by what `recvConnection` returns.
    pub recv_round_lem :
        (sleep : Cmd (ℤ × List ℕ)) (s' : State) (c' : Connection) (bytes : List ℕ)
        → recv_connection ext d.conn len s ≡ ok (length bytes, bytes) s'
        → Received s.process.side d.conn c s.memory s'.memory c' (length bytes) bytes
        → s'.process.fds ≡ s.process.fds
        → recv_round ext i len flags sleep s ≡ (
            if not (length bytes == 0)
            then ok (pos (length bytes), bytes) s'
            else if conn_num c.conn_state == conn_num c_close
            then ok (pos 0, []) (with_entry s' i (record d { state = s_close }))
            else if no_wait d flags
            then ok (failure, []) (with_errno s')
            else sleep s')
    unfolding recv_round load_fd load_conn handle_close_while_io update_fd
    recv_round_lem sleep s' c' bytes run r same =
        let e1 : (d.conn == null) ≡ false = ground (arith, h.ne_null) in
        elim (Bool-cases (not (length bytes == 0))) [
          | inl t ↦ simp (at, recv_sized_lem, run, t)
          | inr t ↦ elim (Bool-cases (conn_num c.conn_state == conn_num c_close)) [
            | inl k ↦
                simp (at, recv_sized_lem, run, t, e1, r.connected.holds, r.state_same, k, same)
            | inr k ↦ elim (Bool-cases (no_wait d flags)) [
              | inl n ↦ simp (at, recv_sized_lem, run, t, e1, r.connected.holds, r.state_same, k, n)
              | inr n ↦ simp (at, recv_sized_lem, run, t, e1, r.connected.holds, r.state_same, k, n)
            ]
          ]
        ]

  pub fds_of_recv :
      (s s' : State)
      → (s'.process ≡ s.process) ⊎ (s'.process ≡ record s.process { context = null })
      → s'.process.fds ≡ s.process.fds
  fds_of_recv s s' (inl e) = ap (λ (p : Process). p.fds) e
  fds_of_recv s s' (inr e) = ap (λ (p : Process). p.fds) e

  pub recv_start :
      (s : State) (sockfd i : ℕ) (d : Fd) (c : Connection)
      → Reads s sockfd i d c
      → (len flags : ℕ) (schedule : Schedule)
      → recv ext sockfd len flags schedule s ≡ recv_wait ext schedule i len flags s
  unfolding recv get_fd_by_num load_fd
  recv_start s sockfd i d c h len flags schedule = simp (h.found, h.at, h.live)

  pub wait_round :
      (schedule : Schedule) (i len flags : ℕ) (s : State)
      → recv_wait ext schedule i len flags s
        ≡ recv_round ext i len flags (go_on ext i len flags schedule) s
  unfolding recv_wait
  wait_round [] i len flags s = refl
  wait_round (env ∷ rest) i len flags s = refl

  -- `recv` on an open descriptor, for a length below 2^31. It takes the oldest bytes on the way, as
  -- many as `len` and what is left of the first packet allow. If it took any it returns them, and
  -- only otherwise (there is no packet, the first one is empty, or `len` is 0) does it look at the
  -- rest: on a connection that is closed it returns 0 (the end of the stream) and the descriptor is
  -- closed; else it fails with EAGAIN if the descriptor or the flags say not to wait; else it sleeps
  -- and tries again.
  pub recv_lem :
      (s : State) (sockfd i : ℕ) (d : Fd) (c : Connection) (len flags : ℕ) (schedule : Schedule)
      → Reads s sockfd i d c
      → len < 2 ^ 31
      → (s' : State) × (c' : Connection) × (bytes : List ℕ) × Received s.process.side d.conn c
          s.memory s'.memory c'
          (length bytes)
          bytes
        × (length bytes
            ≡ min len (first_size s.memory.entries (recv_buffer s.process.side c).list.items))
        × (s'.process.fds ≡ s.process.fds)
        × (recv ext sockfd len flags schedule s ≡ (
            if not (length bytes == 0)
            then ok (pos (length bytes), bytes) s'
            else if conn_num c.conn_state == conn_num c_close
            then ok (pos 0, []) (with_entry s' i (record d { state = s_close }))
            else if no_wait d flags
            then ok (failure, []) (with_errno s')
            else go_on ext i len flags schedule s'))
  recv_lem s sockfd i d c len flags schedule h small =
      let (s', c', bytes, run, r, size, pr) =
        recv_connection_lem ext laws s d.conn c h.connected len in
      let same = fds_of_recv s s' pr in
      (
        s',
        c',
        bytes,
        r,
        size,
        same,
        recv_start s sockfd i d c h len flags schedule
            ∙ wait_round schedule i len flags s
            ∙ recv_round_lem s i d c h.at h.connected len flags small
                (go_on ext i len flags schedule) s' c' bytes run r same,
      )

  -- A packet of length 0, which `send` of no bytes makes, stands in the way of what follows it: on a
  -- connection that is not closed, `recv` of less than 2^31 bytes that does not wait takes the empty
  -- packet and fails with EAGAIN, whatever is still to be read, and the bytes that are there to be
  -- read are the same before and after.
  pub empty_packet_lem :
      (s : State) (sockfd i : ℕ) (d : Fd) (c : Connection) (len flags : ℕ) (schedule : Schedule)
      (b : Ptr) (bs : List Ptr)
      → Reads s sockfd i d c
      → len < 2 ^ 31
      → (recv_buffer s.process.side c).list.items ≡ b ∷ bs
      → payload (s.memory.entries b) ≡ []
      → c.conn_state ≢ c_close
      → no_wait d flags ≡ true
      → (s' : State) × (c' : Connection) × (recv ext sockfd len flags schedule s
          ≡ ok (failure, []) (with_errno s'))
        × Connected s'.memory d.conn c'
        × (incoming s.process.side s'.memory c' ≡ incoming s.process.side s.memory c)
  empty_packet_lem s sockfd i d c len flags schedule b bs h small items empty open_c now =
      let (s', c', bytes, r, size, same, run) =
        recv_lem s sockfd i d c len flags schedule h small in
      let none_read : length bytes ≡ 0 = size ∙ rw (items, empty) (omega arith) in
      let e1 : (length bytes == 0) ≡ true = ground (arith, none_read) in
      let e2 : (conn_num c.conn_state == conn_num c_close) ≡ false = ground (arith, open_c) in
      (s', c', run ∙ simp (e1, e2, now), r.connected, same_rest bytes _ _ none_read r.in_order)
