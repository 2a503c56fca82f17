-- ===== src/Waiting/Rounds.antt =====
-- The loop of `epoll_pwait`: when it returns, and with what.
use shmsock.Base.{
  ℕ, zero, suc, ◌+◌, ◌*◌, ◌^◌, ◌≤◌, ◌<◌, ◌≡◌, refl, ap, ◌∙◌, inl, inr, true, false, List, [], ◌∷◌,
  ◌++◌, some, arith, if◌then◌else◌, length, get_elem?, ltb, take, All, All-map, Bool-cases, ◌-◌,
}
use shmsock.Machine.{
  ℤ, pos, negsuc, EpollEvent, Epollfd, Process, State, External, ExternalLaws, Kernel,
}
use shmsock.Machine.Cmd.{Run, ok, asleep, Cmd, Schedule}
use shmsock.Pollfds.{load_pollfd, max_fds_listen}
use shmsock.Waiting.{pwait_wait, pwait_round, real_events, timed_out, times}
use shmsock.Waiting.Scan.{scan_lem}
use shmsock.Waiting.Reports.{ready, Level, Level-same, ready-same, SameButLevels}

-- The epoll descriptor at `k` is not mixed and all its listeners are level-triggered; what is ready
-- for them, as much as an array of `max` events holds, is `evs`.
pub record Shows (k max : ℕ) (evs : List EpollEvent) (s : State) : Type 0 where
  pub entry : Epollfd
  pub at_k : get_elem? s.process.pollfds k ≡ some entry
  pub size : length entry.lfds ≡ max_fds_listen
  pub pure_own : entry.is_mixed ≡ false
  pub levels : All (Level s) entry.lfds
  pub shown : take max (ready s entry.lfds) ≡ evs

pub Shows-same :
    (k max : ℕ) (evs : List EpollEvent) (s t : State)
    → SameButLevels s t
    → Shows k max evs s
    → Shows k max evs t
Shows-same k max evs s t same h = record {
  entry = h.entry;
  at_k = ap (λ (q : Process). get_elem? q.pollfds k) same.process_same ∙ h.at_k;
  size = h.size;
  pure_own = h.pure_own;
  levels = All-map (Level s) (Level t) (Level-same s t same) h.entry.lfds h.levels;
  shown = ap (take max) (ready-same s t same h.entry.lfds) ∙ h.shown;
}

-- What the others do leaves it so that nothing is ready.
abbrev pub KeepsQuiet : ℕ → ℕ → Schedule → Type 0
KeepsQuiet k max = All (λ env. (u : State) → Shows k max [] u → Shows k max [] (env u))

-- In each round nothing is ready, up to the state that the others make of it by `env` in the last
-- sleep; a round may change level-triggered masks before its sleep.
abbrev pub Awaits : ℕ → ℕ → List EpollEvent → (State → State) → Schedule → State → Type 0
Awaits k max evs env [] s =
    Shows k max [] s × ((t : State) → SameButLevels s t → Shows k max evs (env t))
Awaits k max evs env (e ∷ idle) s =
    Shows k max [] s × ((t : State) → SameButLevels s t → Awaits k max evs env idle (e t))

at_k_same :
    (s t : State) (k : ℕ) {e : Epollfd}
    → SameButLevels s t
    → get_elem? s.process.pollfds k ≡ some e
    → get_elem? t.process.pollfds k ≡ some e
at_k_same s t k same at = ap (λ (q : Process). get_elem? q.pollfds k) same.process_same ∙ at

times_small : (n c : ℕ) → n * c < 2 ^ 31 → times (pos n) c ≡ pos (n * c)
times_small n c h = ground arith

times_big :
    (n c : ℕ) → 2 ^ 31 ≤ n * c → n * c < 2 ^ 32 → times (pos n) c ≡ negsuc (2 ^ 32 - n * c - 1)
times_big n c h h' = ground arith

pub timed_out_small :
    (t elapsed : ℕ)
    → t * 1000 < 2 ^ 31
    → elapsed ≤ 10 * t + 1
    → timed_out (pos t) elapsed ≡ ltb (t * 1000) (elapsed * 100)
timed_out_small t elapsed small low =
    rw (times_small t 1000 small, times_small elapsed 100 (omega (arith, small, low))) refl

pub timed_out_overflow :
    (t : ℕ) → 2 ^ 31 ≤ t * 1000 → t * 1000 < 2 ^ 32 → timed_out (pos t) 0 ≡ true
timed_out_overflow t big low = rw (times_big t 1000 big low) refl

module _ (ext : External) (laws : ExternalLaws ext) (kernel : Kernel) (k max : ℕ) (timeout : ℤ)
    (elapsed : ℕ) (sleep : Cmd (ℤ × List EpollEvent)) (s : State) where
  abbrev Runs : Run (ℤ × List EpollEvent) → Type 0
  Runs r = pwait_round ext kernel k max timeout elapsed sleep s ≡ r

  pwait_found :
      (ev : EpollEvent) (evs : List EpollEvent)
      → Shows k max (ev ∷ evs) s
      → (t : State) × Runs (ok (pos (length (ev ∷ evs)), ev ∷ evs) t) × SameButLevels s t
  unfolding pwait_round real_events load_pollfd
  pwait_found ev evs h =
      let (t, run, same) = scan_lem ext laws k max h.entry s h.at_k h.size h.levels in
      let again = at_k_same s t k same h.at_k in
      let e1 : ltb 0 (length (ev ∷ evs)) ≡ true = ground arith in
      (t, simp (run, h.shown, again, h.pure_own, e1), same)

  pwait_quiet :
      Shows k max [] s
      → (t : State) × Runs (if timed_out timeout elapsed then ok (pos 0, []) t else sleep t)
        × SameButLevels s t
  unfolding pwait_round real_events load_pollfd
  pwait_quiet h =
      let (t, run, same) = scan_lem ext laws k max h.entry s h.at_k h.size h.levels in
      let again = at_k_same s t k same h.at_k in
      (
        t,
        elim (Bool-cases (timed_out timeout elapsed)) [
          | inl late ↦ simp (run, h.shown, again, h.pure_own, late)
          | inr early ↦ simp (run, h.shown, again, h.pure_own, early)
        ],
        same,
      )

module _ (ext : External) (laws : ExternalLaws ext) (kernel : Kernel) (k max : ℕ) where
  -- A round in which nothing is ready and the time is not up: the call sleeps.
  pub wait_sleep :
      (timeout : ℤ) (elapsed : ℕ) (env : State → State) (rest : Schedule) (s : State)
      → timed_out timeout elapsed ≡ false
      → Shows k max [] s
      → (t : State) × (pwait_wait ext kernel (env ∷ rest) k max timeout elapsed s
          ≡ pwait_wait ext kernel rest k max timeout (suc elapsed) (env t))
        × SameButLevels s t
  unfolding pwait_wait
  wait_sleep timeout elapsed env rest s early h =
      let (t, run, same) = pwait_quiet ext laws kernel k max timeout elapsed _ s h in
      (t, run ∙ rw early refl, same)

  pub wait_found :
      (timeout : ℤ) (elapsed : ℕ) (schedule : Schedule) (s : State) (ev : EpollEvent)
      (evs : List EpollEvent)
      → Shows k max (ev ∷ evs) s
      → (t : State) × (pwait_wait ext kernel schedule k max timeout elapsed s
          ≡ ok (pos (length (ev ∷ evs)), ev ∷ evs) t)
        × SameButLevels s t
  unfolding pwait_wait
  wait_found timeout elapsed [] s ev evs h =
      pwait_found ext laws kernel k max timeout elapsed _ s ev evs h
  wait_found timeout elapsed (env ∷ rest) s ev evs h =
      pwait_found ext laws kernel k max timeout elapsed _ s ev evs h

  pub wait_late :
      (timeout : ℤ) (elapsed : ℕ) (schedule : Schedule) (s : State)
      → timed_out timeout elapsed ≡ true
      → Shows k max [] s
      → (t : State) × (pwait_wait ext kernel schedule k max timeout elapsed s ≡ ok (pos 0, []) t)
        × SameButLevels s t
  unfolding pwait_wait
  wait_late timeout elapsed [] s late h =
      let (t, run, same) = pwait_quiet ext laws kernel k max timeout elapsed _ s h in
      (t, run ∙ rw late refl, same)
  wait_late timeout elapsed (env ∷ rest) s late h =
      let (t, run, same) = pwait_quiet ext laws kernel k max timeout elapsed _ s h in
      (t, run ∙ rw late refl, same)

  wait_asleep :
      (timeout : ℤ) (elapsed : ℕ) (s : State)
      → timed_out timeout elapsed ≡ false
      → Shows k max [] s
      → pwait_wait ext kernel [] k max timeout elapsed s ≡ asleep
  unfolding pwait_wait
  wait_asleep timeout elapsed s early h =
      let (t, run, same) = pwait_quiet ext laws kernel k max timeout elapsed _ s h in
      run ∙ rw early refl

  module _ (t : ℕ) (small : t * 1000 < 2 ^ 31) where
    -- With `left` sleeps to go.
    pub wait_timeout :
        (left elapsed : ℕ) (schedule : Schedule) (s : State)
        → elapsed + left ≡ 10 * t + 1
        → KeepsQuiet k max schedule
        → Shows k max [] s
        → (left ≤ length schedule
            → (u : State) × (pwait_wait ext kernel schedule k max (pos t) elapsed s
                ≡ ok (pos 0, []) u))
          × (length schedule < left
              → pwait_wait ext kernel schedule k max (pos t) elapsed s ≡ asleep)
    wait_timeout zero elapsed schedule s sum quiet h =
        let late : timed_out (pos t) elapsed ≡ true =
          timed_out_small t elapsed small (omega (arith, sum)) ∙ ground (arith, sum) in
        let (u, run, same) = wait_late (pos t) elapsed schedule s late h in
        ((λ long. (u, run)), (λ short. absurd (omega (arith, short))))
    wait_timeout (suc left) elapsed [] s sum quiet h =
        let early : timed_out (pos t) elapsed ≡ false =
          timed_out_small t elapsed small (omega (arith, sum)) ∙ ground (arith, sum) in
        ((λ long. absurd (omega (arith, long))), (λ short. wait_asleep (pos t) elapsed s early h))
    wait_timeout (suc left) elapsed (env ∷ rest) s sum (q, quiet) h =
        let early : timed_out (pos t) elapsed ≡ false =
          timed_out_small t elapsed small (omega (arith, sum)) ∙ ground (arith, sum) in
        let (v, run, same) = wait_sleep (pos t) elapsed env rest s early h in
        let (long, short) =
          wait_timeout left (suc elapsed) rest (env v) (omega (arith, sum)) quiet
            (q v (Shows-same k max [] s v same h)) in
        (
          (λ enough. let (u, run') = long (omega (arith, enough)) in (u, run ∙ run')),
          (λ few. run ∙ short (omega (arith, few))),
        )

  pub wait_wakes :
      (timeout : ℤ) (idle : Schedule) (elapsed : ℕ) (env : State → State) (s : State)
      (ev : EpollEvent) (evs : List EpollEvent)
      → ((n : ℕ) → n ≤ elapsed + length idle → timed_out timeout n ≡ false)
      → Awaits k max (ev ∷ evs) env idle s
      → (t : State) × (pwait_wait ext kernel (idle ++ env ∷ []) k max timeout elapsed s
          ≡ ok (pos (length (ev ∷ evs)), ev ∷ evs) t)
  wait_wakes timeout [] elapsed env s ev evs early (h, wakes) =
      let (t, run, same) = wait_sleep timeout elapsed env [] s (early elapsed (omega arith)) h in
      let (u, run', same') = wait_found timeout (suc elapsed) [] (env t) ev evs (wakes t same) in
      (u, run ∙ run')
  wait_wakes timeout (e ∷ idle) elapsed env s ev evs early (h, next) =
      let (t, run, same) =
        wait_sleep timeout elapsed e (idle ++ env ∷ []) s (early elapsed (omega arith)) h in
      let (u, run') =
        wait_wakes timeout idle (suc elapsed) env (e t) ev evs
          (λ n low. early n (omega (arith, low))) (next t same) in
      (u, run ∙ run')
