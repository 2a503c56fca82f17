-- ===== src/Fds.antt =====
-- The table of socket descriptors of socket.c, and the checks that its functions begin with.
pub mod Table
pub mod Keeps
use shmsock.Base.{
  ℕ, zero, suc, ◌+◌, ◌≡◌, Bool, true, false, List, [], ◌∷◌, Option, none, some, if◌then◌else◌, ◌==◌,
  ◌&&◌, ◌||◌, not, set,
}
use shmsock.Machine.{
  ℤ, pos, failure, SocketState, s_close, state_num, Errno, ebadf, Fd, Process, State,
}
use shmsock.Machine.Cmd.{
  Run, ok, fault, asleep, Cmd, Schedule, pure, ◌>>=◌, ◌>>◌, get_process, put_process, set_errno,
  load_fd, update_fd,
}

-- MAX_FDS, FD_START, POLLFD_START, SYSTEM_MAX_FD
abbrev pub max_fds : ℕ
max_fds = 50

abbrev pub fd_start : ℕ
fd_start = 700

abbrev pub pollfd_start : ℕ
pollfd_start = 900

abbrev pub system_max_fd : ℕ
system_max_fd = 1024

-- The loop of `getFdByNum`: the index of the first active entry with the number.
unfoldable pub find_fd : ℕ → List Fd → Option ℕ
find_fd num [] = none
find_fd num (d ∷ ds) =
    if d.active && d.num == num
    then some 0
    else elim (find_fd num ds) [ none ↦ none | some i ↦ some (suc i) ]

unfoldable pub get_fd_by_num : ℕ → Cmd (Option ℕ)
get_fd_by_num num = do p ← get_process; pure (find_fd num p.fds)

-- The loop of `getEmptyFd`: the index of the first entry that is not active.
unfoldable pub find_empty : List Fd → Option ℕ
find_empty [] = none
find_empty (d ∷ ds) =
    if not d.active then some 0 else elim (find_empty ds) [ none ↦ none | some i ↦ some (suc i) ]

-- The entry is active from then on.
unfoldable pub take_entry : Option ℕ → Cmd (Option ℕ)
take_entry none = pure none
take_entry (some i) = do update_fd i (λ d. record d { active = true }); pure (some i)

unfoldable pub get_empty_fd : Cmd (Option ℕ)
unfolding take_entry
get_empty_fd = do p ← get_process; take_entry (find_empty p.fds)

unfoldable pub delete_fd : ℕ → Cmd (Unit {0})
delete_fd i = update_fd i (λ d. record d { active = false })

unfoldable pub handle_close_while_io : ℕ → Cmd (Unit {0})
handle_close_while_io i = update_fd i (λ d. record d { state = s_close })

-- errno = e; return(-1)
abbrev pub fail : Errno → Cmd ℤ
fail e = do set_errno e; pure failure

abbrev pub in_state : SocketState → Fd → Bool
in_state st d = state_num d.state == state_num st

-- `getFdByNum`, and assertFdState or assertFdState2 on what it returns: EBADF and -1 where there
-- is no descriptor or it is in none of the states.
unfoldable pub assert_fd_state : ℕ → (Fd → Bool) → (ℕ → Cmd ℤ) → Cmd ℤ
assert_fd_state num test body = do
  f ← get_fd_by_num num
  elim f [ none ↦ fail ebadf | some i ↦ (do d ← load_fd i; if test d then body i else fail ebadf) ]

-- `getFdByNum`, and assertFd as socket.c defines it: it returns 1.
unfoldable pub assert_fd : ℕ → (ℕ → Cmd ℤ) → Cmd ℤ
assert_fd num body = do
  f ← get_fd_by_num num
  elim f [ none ↦ (do set_errno ebadf; pure (pos 1)) | some i ↦ body i ]

-- currentMaxFd++
unfoldable pub next_fd_num : Cmd ℕ
next_fd_num = do
  p ← get_process
  put_process (record p { current_max_fd = p.current_max_fd + 1 })
  pure p.current_max_fd

-- One sleep: the others act, then `body` goes on. With no more to come the call sleeps on.
abbrev pub sleep_then : {A : Type 0} → (State → State) → Cmd A → Cmd A
sleep_then env body s = body (env s)
