-- ===== src/Socket/Keeps/Transfer.antt =====
-- `send`, `recv` and the calls on them keep both tables of descriptors.
use shmsock.Base.{ℕ, List, [], ◌∷◌, none, some, ltb, ◌+◌}
use shmsock.Llist.{Ptr}
use shmsock.Machine.{ℤ, pos, negsuc, failure, External, Kernel, ebadf, s_open}
use shmsock.Machine.Cmd.{Cmd, Schedule, pure, ◌>>◌, set_errno}
use shmsock.Fds.{in_state, fd_start}
use shmsock.Fds.Keeps.{
  Keeps, Keeps-bind, Keeps-if, Keeps-asleep, Keeps-pure, state_rules, Keeps-assert_fd_state,
  Keeps-get_fd_by_num, Keeps-fail, Keeps-load_fd,
}
use shmsock.Connection.Keeps.{Keeps-send_connection, Keeps-recv_connection}
use shmsock.Socket.Transfer.{
  send_sized, recv_sized, send, recv_round, recv_wait, recv, read, write, send_pieces, sendmsg,
}
use shmsock.Socket.Keeps.{Mild, Keeps-sleep, Keeps-system_call}

module _ (ext : External) where
  Keeps-send_sized : (p : Ptr) (buf : List ℕ) (len : ℕ) → Keeps (send_sized ext p buf len)
  unfolding send_sized
  Keeps-send_sized p buf len = search (state_rules, Keeps-send_connection) depth 20

  Keeps-recv_sized : (p : Ptr) (len : ℕ) → Keeps (recv_sized ext p len)
  unfolding recv_sized
  Keeps-recv_sized p len = search (state_rules, Keeps-recv_connection) depth 20

  pub Keeps-send :
      (sockfd : ℕ) (buf : List ℕ) (len flags : ℕ) → Keeps (send ext sockfd buf len flags)
  unfolding send
  Keeps-send sockfd buf len flags =
      Keeps-assert_fd_state sockfd _ _
        λ i. search (state_rules, Keeps-send_sized, Keeps-fail) depth 20

  Keeps-recv_round :
      (i len flags : ℕ) (sleep : Cmd (ℤ × List ℕ))
      → Keeps sleep
      → Keeps (recv_round ext i len flags sleep)
  unfolding recv_round
  Keeps-recv_round i len flags sleep k = search (state_rules, Keeps-recv_sized) depth 24

  Keeps-recv_wait :
      (schedule : Schedule) (i len flags : ℕ)
      → Mild schedule
      → Keeps (recv_wait ext schedule i len flags)
  unfolding recv_wait
  Keeps-recv_wait [] i len flags m = Keeps-recv_round i len flags _ Keeps-asleep
  Keeps-recv_wait (env ∷ rest) i len flags m =
      Keeps-recv_round i len flags _ (Keeps-sleep env _ m.0 (Keeps-recv_wait rest i len flags m.1))

  pub Keeps-recv :
      (sockfd len flags : ℕ) (schedule : Schedule)
      → Mild schedule
      → Keeps (recv ext sockfd len flags schedule)
  unfolding recv
  Keeps-recv sockfd len flags schedule m = Keeps-bind _ _ (Keeps-get_fd_by_num sockfd) (elim [
    | none ↦ search state_rules depth 20
    | some i ↦ Keeps-bind _ _ (Keeps-load_fd i) λ d.
        Keeps-if (in_state s_open d) _ (set_errno ebadf >> pure (failure, []))
          (Keeps-recv_wait schedule i len flags m) (search state_rules depth 20)
  ])

  Keeps-send_pieces :
      (sockfd flags : ℕ) (pieces : List (List ℕ × ℕ)) (sent : ℕ)
      → Keeps (send_pieces ext sockfd flags sent pieces)
  unfolding send_pieces
  Keeps-send_pieces sockfd flags [] sent = Keeps-pure (pos sent)
  Keeps-send_pieces sockfd flags ((base, len) ∷ rest) sent =
      Keeps-bind _ _ (Keeps-send sockfd base len flags) (elim [
        | negsuc n ↦ Keeps-pure failure
        | pos n ↦ Keeps-send_pieces sockfd flags rest (sent + n)
      ])

  pub Keeps-sendmsg :
      (sockfd : ℕ) (pieces : List (List ℕ × ℕ)) (flags : ℕ)
      → Keeps (sendmsg ext sockfd pieces flags)
  unfolding sendmsg
  Keeps-sendmsg sockfd pieces flags =
      Keeps-assert_fd_state sockfd _ _
        λ i. search (state_rules, Keeps-send_pieces, Keeps-fail) depth 20

  pub Keeps-read :
      (kernel : Kernel) (sockfd count : ℕ) (schedule : Schedule)
      → Mild schedule
      → Keeps (read ext kernel sockfd count schedule)
  unfolding read
  Keeps-read kernel sockfd count schedule m =
      Keeps-if (ltb sockfd fd_start) _ _ (record { at = λ s h. h })
        (Keeps-recv sockfd count 0 schedule m)

  pub Keeps-write :
      (kernel : Kernel) (sockfd : ℕ) (buf : List ℕ) (count : ℕ)
      → Keeps (write ext kernel sockfd buf count)
  unfolding write
  Keeps-write kernel sockfd buf count =
      Keeps-if (ltb sockfd fd_start) _ _ (Keeps-system_call _) (Keeps-send sockfd buf count 0)
