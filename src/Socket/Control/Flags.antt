-- ===== src/Socket/Control/Flags.antt =====
-- `fcntl`: the flags that are set are those that are read.
use shmsock.Base.{
  ℕ, ◌≡◌, ◌≤◌, refl, subst, ◌⊎◌, true, false, some, arith, if◌then◌else◌, ◌==◌, ◌||◌, bit_and,
  get_elem?, set, ltb, get_elem?-set_self, lt_of_get_elem?,
}
use shmsock.Machine.{pos, Fd, State, External, Kernel}
use shmsock.Machine.Cmd.{ok, load_fd, update_fd}
use shmsock.Fds.{find_fd, fd_start, get_fd_by_num, assert_fd}
use shmsock.Fds.Table.{IsTable-set, find_fd-some, find_fd-active}
use shmsock.Fds.Keeps.{Good, with_entry}
use shmsock.Socket.Control.{fcntl, o_nonblock}

-- F_SETFD and F_SETFL are 2 and 4, and F_GETFD and F_GETFL are 1 and 3.
abbrev pub SetsFlags : ℕ → Type 0
SetsFlags cmd = (cmd ≡ 4) ⊎ (cmd ≡ 2)

abbrev pub GetsFlags : ℕ → Type 0
GetsFlags cmd = (cmd ≡ 3) ⊎ (cmd ≡ 1)

module _ (ext : External) (kernel : Kernel) (s : State) (sockfd i : ℕ) (good : Good s)
    (own : fd_start ≤ sockfd) (found : find_fd sockfd s.process.fds ≡ some i) where
  -- Either way of setting the flags of a descriptor succeeds, keeps all but O_NONBLOCK of that one
  -- descriptor, and both ways of reading the flags then return the O_NONBLOCK of what was set.
  pub set-get_flags :
      (set_cmd get_cmd arg unused : ℕ)
      → SetsFlags set_cmd
      → GetsFlags get_cmd
      → (d : Fd) × (get_elem? s.process.fds i ≡ some d)
        × (let t = with_entry s i (record d { flag_nonblock = bit_and arg o_nonblock }) in
            (fcntl ext kernel sockfd set_cmd arg s ≡ ok (pos 0) t)
            × (fcntl ext kernel sockfd get_cmd unused t
                ≡ ok (pos (if bit_and arg o_nonblock == 0 then 0 else o_nonblock)) t))
  unfolding fcntl assert_fd get_fd_by_num load_fd update_fd
  set-get_flags set_cmd get_cmd arg unused is_set is_get =
      let (d, at, on, num) = find_fd-some sockfd s.process.fds i found in
      let d' : Fd = record d { flag_nonblock = bit_and arg o_nonblock } in
      let at' : get_elem? (set s.process.fds i d') i ≡ some d' =
        get_elem?-set_self s.process.fds i d' (lt_of_get_elem? s.process.fds i at) in
      let found' : find_fd sockfd (set s.process.fds i d') ≡ some i =
        subst (λ n. find_fd n (set s.process.fds i d') ≡ some i) num
          (find_fd-active (IsTable-set good i d d' at refl (λ e. e)) i d' at' on) in
      let e1 : ltb sockfd fd_start ≡ false = ground (arith, own) in
      let e2 : (set_cmd == 3 || set_cmd == 1) ≡ false = ground (arith, is_set) in
      let e3 : (set_cmd == 4 || set_cmd == 2) ≡ true = ground (arith, is_set) in
      let e4 : (get_cmd == 3 || get_cmd == 1) ≡ true = ground (arith, is_get) in
      (d, at, (simp (e1, found, at, e2, e3), simp (e1, found', at', e4)))
