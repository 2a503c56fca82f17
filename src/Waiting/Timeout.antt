-- ===== src/Waiting/Timeout.antt =====
-- `epoll_wait` on level-triggered listeners: what it reports, and when its time is up.
use shmsock.Base.{
  ℕ, ◌+◌, ◌*◌, ◌^◌, ◌≤◌, ◌<◌, ◌≡◌, refl, subst, ◌∙◌, ◌⊎◌, inl, inr, false, List, [], ◌∷◌, ◌++◌,
  some, arith, length, length-take,
}
use shmsock.Machine.{ℤ, pos, failure, EpollEvent, State, External, ExternalLaws, Kernel}
use shmsock.Machine.Cmd.{ok, asleep, Schedule}
use shmsock.Pollfds.{find_pollfd, get_pollfd_by_num}
use shmsock.Waiting.{epoll_wait, epoll_pwait, timed_out}
use shmsock.Waiting.Reports.{SameButLevels, ready}
use shmsock.Waiting.Rounds.{
  Shows, KeepsQuiet, Awaits, wait_found, wait_late, wait_timeout, wait_wakes, timed_out_small,
  timed_out_overflow,
}

module _ (ext : External) (laws : ExternalLaws ext) (kernel : Kernel) (epfd k max : ℕ) (s : State)
    (found : find_pollfd epfd s.process.pollfds ≡ some k) where
  -- Where something is ready for the listeners of a known epoll descriptor that is not mixed and
  -- has level-triggered listeners only, `epoll_wait` does not sleep, whatever the timeout: it
  -- returns the number of events, and the events are those that are ready in the order of the
  -- listeners, for each listener the part that it listens to of what holds of its connection, cut
  -- off at `maxevents`. Nothing changes but the level-triggered masks of the calling side.
  pub epoll_wait_ready :
      (ev : EpollEvent) (evs : List EpollEvent) (timeout : ℤ) (schedule : Schedule)
      → Shows k max (ev ∷ evs) s
      → (t : State) × (epoll_wait ext kernel epfd max timeout schedule s
          ≡ ok (pos (length (ev ∷ evs)), ev ∷ evs) t)
        × (length (ev ∷ evs) ≤ max)
        × SameButLevels s t
  unfolding epoll_wait epoll_pwait get_pollfd_by_num
  epoll_wait_ready ev evs timeout schedule h =
      let (t, run, same) = wait_found ext laws kernel k max timeout 0 schedule s ev evs h in
      (
        t,
        simp (found, run),
        subst (λ xs. length xs ≤ max) h.shown
            (omega (arith, length-take max (ready s h.entry.lfds))),
        same,
      )

  -- On an epoll descriptor that is not mixed and has level-triggered listeners only, with a timeout
  -- of `t` milliseconds that is less than 2^31 in microseconds, and nothing that is or becomes
  -- ready, `epoll_wait` returns 0 after exactly 10 t + 1 sleeps of 100 microseconds each
  -- (one millisecond of the timeout and one more sleep): it returns where the others are seen for
  -- so many sleeps, and still sleeps where they are seen for fewer.
  pub timeout_exact :
      (t : ℕ) (schedule : Schedule)
      → t * 1000 < 2 ^ 31
      → KeepsQuiet k max schedule
      → Shows k max [] s
      → (10 * t + 1 ≤ length schedule
          → (u : State) × (epoll_wait ext kernel epfd max (pos t) schedule s ≡ ok (pos 0, []) u))
        × (length schedule < 10 * t + 1
            → epoll_wait ext kernel epfd max (pos t) schedule s ≡ asleep)
  unfolding epoll_wait epoll_pwait get_pollfd_by_num
  timeout_exact t schedule small quiet h =
      let (long, short) =
        wait_timeout ext laws kernel k max t small (10 * t + 1) 0 schedule s (omega arith) quiet
          h in
      (
        (λ enough. let (u, run) = long enough in (u, simp (found, run))),
        (λ few. simp (found, short few)),
      )

  -- A timeout from 2147484 milliseconds on (about 36 minutes) overflows when it is turned into
  -- microseconds: up to 4294967 milliseconds, `epoll_wait` with nothing ready, on an epoll
  -- descriptor that is not mixed and has level-triggered listeners only, returns 0 without sleeping
  -- once.
  pub timeout_overflow :
      (t : ℕ) (schedule : Schedule)
      → 2 ^ 31 ≤ t * 1000
      → t * 1000 < 2 ^ 32
      → Shows k max [] s
      → (u : State) × (epoll_wait ext kernel epfd max (pos t) schedule s ≡ ok (pos 0, []) u)
        × SameButLevels s u
  unfolding epoll_wait epoll_pwait get_pollfd_by_num
  timeout_overflow t schedule big low h =
      let (u, run, same) =
        wait_late ext laws kernel k max (pos t) 0 schedule s (timed_out_overflow t big low) h in
      (u, simp (found, run), same)

  -- Without a timeout, or with one of `t` milliseconds (less than 2^31 in microseconds): if nothing
  -- is ready for the listeners of an epoll descriptor that is not mixed and has level-triggered
  -- listeners only, neither at the call nor after any of the next sleeps (at most 10 t with a
  -- timeout), and something is after the sleep that follows, `epoll_wait` returns with it. Of what
  -- the others do it is only supposed where they start from states that the call can come to: those
  -- that differ from what the sleep before left in level-triggered masks of this side alone.
  pub epoll_wait_wakes :
      (timeout : ℤ) (idle : Schedule) (env : State → State) (ev : EpollEvent)
      (evs : List EpollEvent)
      → ((timeout ≡ failure)
          ⊎ ((t : ℕ) × (timeout ≡ pos t) × (t * 1000 < 2 ^ 31) × (length idle ≤ 10 * t)))
      → Awaits k max (ev ∷ evs) env idle s
      → (t : State) × (epoll_wait ext kernel epfd max timeout (idle ++ env ∷ []) s
          ≡ ok (pos (length (ev ∷ evs)), ev ∷ evs) t)
  unfolding epoll_wait epoll_pwait get_pollfd_by_num
  epoll_wait_wakes timeout idle env ev evs patient awaits =
      let (t, run) = wait_wakes ext laws kernel k max timeout idle 0 env s ev evs early awaits in
      (t, simp (found, run))
    where
      early : (n : ℕ) → n ≤ 0 + length idle → timed_out timeout n ≡ false
      early n low = elim patient [
        | inl e ↦ rw e refl
        | inr (t, e, small, few) ↦
            rw e (timed_out_small t n small (omega (arith, low, few)) ∙ ground (arith, low, few))
      ]
