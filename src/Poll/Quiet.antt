-- ===== src/Poll/Quiet.antt =====
-- A whole call of `poll` in which nothing becomes ready.
use shmsock.Base.{
  ℕ, zero, suc, ◌+◌, ◌*◌, ◌^◌, ◌≤◌, ◌<◌, ◌≡◌, refl, ap, ◌∙◌, subst, false, true, List, [], ◌∷◌,
  some, arith, length, map, All,
}
use shmsock.Machine.{pos, Epollfd, Process, State, External, ExternalLaws, Kernel}
use shmsock.Machine.Cmd.{ok, Schedule}
use shmsock.Pollfds.{find_pollfd, get_pollfd_by_num, max_fds_listen}
use shmsock.Waiting.{epoll_wait, epoll_pwait, pwait_wait, timed_out}
use shmsock.Waiting.Rounds.{Shows, Shows-same, KeepsQuiet, wait_sleep, wait_late, timed_out_small}
use shmsock.Poll.{PollFd, poll, reset, set_revents}
use shmsock.Poll.Slots.{found_slot}
use shmsock.Poll.Loops.{Watched, Distinct}
use shmsock.Poll.Results.{answering}
use shmsock.Poll.Answers.{
  PollIdle, descriptor_kept, answers, watching, found_events, found_size, watching-Shows, added,
  deleted, cleared, cleared-PollIdle,
}

-- What the others do leaves the variables of this process as they are.
abbrev pub Still : Schedule → Type 0
Still = All (λ env. (u : State) → (env u).process ≡ u.process)

module _ (ext : External) (laws : ExternalLaws ext) (kernel : Kernel) (k max t : ℕ)
    (small : t * 1000 < 2 ^ 31) where
  -- With `left` sleeps to go, as `wait_timeout`: the process is the same afterwards.
  wait_settles :
      (left elapsed : ℕ) (schedule : Schedule) (s : State)
      → elapsed + left ≡ 10 * t + 1
      → left ≤ length schedule
      → KeepsQuiet k max schedule
      → Still schedule
      → Shows k max [] s
      → (u : State) × (pwait_wait ext kernel schedule k max (pos t) elapsed s ≡ ok (pos 0, []) u)
        × (u.process ≡ s.process)
  wait_settles zero elapsed schedule s sum enough quiet still h =
      let late : timed_out (pos t) elapsed ≡ true =
        timed_out_small t elapsed small (omega (arith, sum)) ∙ ground (arith, sum) in
      let (u, run, same) = wait_late ext laws kernel k max (pos t) elapsed schedule s late h in
      (u, run, same.process_same)
  wait_settles (suc left) elapsed [] s sum enough quiet still h = absurd (omega (arith, enough))
  wait_settles (suc left) elapsed (env ∷ rest) s sum enough (q, quiet) (p, still) h =
      let early : timed_out (pos t) elapsed ≡ false =
        timed_out_small t elapsed small (omega (arith, sum)) ∙ ground (arith, sum) in
      let (v, run, same) = wait_sleep ext laws kernel k max (pos t) elapsed env rest s early h in
      let (u, run', same') =
        wait_settles left (suc elapsed) rest (env v) (omega (arith, sum)) (omega (arith, enough))
          quiet still (q v (Shows-same k max [] s v same h)) in
      (u, run ∙ run', same' ∙ p v ∙ same.process_same)

  epoll_wait_settles :
      (epfd : ℕ) (schedule : Schedule) (s : State)
      → find_pollfd epfd s.process.pollfds ≡ some k
      → 10 * t + 1 ≤ length schedule
      → KeepsQuiet k max schedule
      → Still schedule
      → Shows k max [] s
      → (u : State) × (epoll_wait ext kernel epfd max (pos t) schedule s ≡ ok (pos 0, []) u)
        × (u.process ≡ s.process)
  unfolding epoll_wait epoll_pwait get_pollfd_by_num
  epoll_wait_settles epfd schedule s found enough quiet still h =
      let (u, run, same) =
        wait_settles (10 * t + 1) 0 schedule s (omega arith) enough quiet still h in
      (u, simp (found, run), same)

none_of_length : {A : Type 0} (xs : List A) → length xs ≡ 0 → xs ≡ []
none_of_length [] e = refl
none_of_length (x ∷ xs) e = absurd (omega (arith, e))

module _ (ext : External) (laws : ExternalLaws ext) (kernel : Kernel) (epfd k : ℕ) (e : Epollfd)
    (s : State) (h : PollIdle epfd k e s) (ps : List PollFd)
    (ws : All (Watched s.process.fds s.memory.conns) ps) (apart : Distinct ps)
    (room : length ps ≤ max_fds_listen) where
  -- On descriptors as in `poll-answers`, but none with an event that is asked for, and while the
  -- others do nothing that makes one ready or changes this process: with a timeout of `t`
  -- milliseconds (less than 2^31 in microseconds) `poll` returns 0 after 10 t + 1 sleeps, `revents`
  -- of each descriptor is 0, the epoll descriptor is idle again and the table of descriptors is as
  -- before.
  pub poll_quiet :
      (t : ℕ) (schedule : Schedule)
      → t * 1000 < 2 ^ 31
      → 10 * t + 1 ≤ length schedule
      → KeepsQuiet k (length ps) schedule
      → Still schedule
      → answering (answers ext laws kernel epfd k e s h ps ws apart room) ≡ 0
      → (u : State) × (e' : Epollfd) × (poll ext kernel ps (pos t) schedule s
          ≡ ok (pos 0, map reset ps) u)
        × PollIdle epfd k e' u
        × (u.process.fds ≡ s.process.fds)
  unfolding poll set_revents
  poll_quiet t schedule small enough quiet still none_ready =
      let start = watching ext laws kernel epfd k e s h ps ws apart room in
      let nothing : found_events ext laws kernel epfd k e s h ps ws apart room ≡ [] =
        none_of_length _ (found_size ext laws kernel epfd k e s h ps ws apart room ∙ none_ready) in
      let shows : Shows k (length ps) [] start =
        subst (λ xs. Shows k (length ps) xs start) nothing
          (watching-Shows ext laws kernel epfd k e s h ps ws apart room) in
      let (u, run, same) =
        epoll_wait_settles ext laws kernel k (length ps) t small epfd schedule start
          (found_slot s k e epfd h.at_k h.found _) enough quiet still shows in
      (
        cleared ext laws kernel epfd k e s h ps ws apart room u same,
        _,
        simp (
          descriptor_kept s epfd h.kept,
          added ext laws kernel epfd k e s h ps ws apart room,
          run,
          deleted ext laws kernel epfd k e s h ps ws apart room u same,
        ),
        cleared-PollIdle ext laws kernel epfd k e s h ps ws apart room u same,
        ap (λ (q : Process). q.fds) same,
      )
