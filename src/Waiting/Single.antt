-- ===== src/Waiting/Single.antt =====
-- An epoll descriptor with one active listener: a look at the listeners is a look at this one.
use shmsock.Base.{
  ℕ, zero, suc, ◌+◌, ◌≤◌, ◌<◌, ◌≡◌, refl, sym, ap, subst, ◌∙◌, ◌≢◌, inl, inr, true, false, List, [],
  ◌∷◌, some, arith, ◌==◌, length, get_elem?, get_elem?-some, ltb, eq_of_==, Bool-cases,
}
use shmsock.Machine.{pos, ℤ, EpollEvent, EventListenFd, Epollfd, State, External, Kernel}
use shmsock.Machine.Cmd.{ok, fault, Schedule}
use shmsock.Pollfds.{load_pollfd, find_pollfd, get_pollfd_by_num, max_fds_listen}
use shmsock.Waiting.{
  epoll_wait, epoll_pwait, pwait_wait, pwait_round, real_events, visit_listener, scan,
}

-- The epoll descriptor at `k` is not mixed, and `l`, at `j`, is its only active listener.
pub record Only (s : State) (k j : ℕ) (e : Epollfd) (l : EventListenFd) : Type 0 where
  pub at_k : get_elem? s.process.pollfds k ≡ some e
  pub size : length e.lfds ≡ max_fds_listen
  pub pure_own : e.is_mixed ≡ false
  pub at_j : get_elem? e.lfds j ≡ some l
  pub within : j < max_fds_listen
  pub on : l.active ≡ true
  pub others : (i : ℕ) (x : EventListenFd) → get_elem? e.lfds i ≡ some x → i ≢ j → x.active ≡ false

module _ (ext : External) (k : ℕ) (e : Epollfd) where
  visit_inactive :
      (s : State) (i : ℕ) (x : EventListenFd) (acc : List EpollEvent)
      → get_elem? s.process.pollfds k ≡ some e
      → get_elem? e.lfds i ≡ some x
      → x.active ≡ false
      → visit_listener ext k i acc s ≡ ok acc s
  unfolding visit_listener load_pollfd
  visit_inactive s i x acc at_k at_i off = simp (at_k, at_i, off)

  module _ (j : ℕ) (size : length e.lfds ≡ max_fds_listen)
      (others : (i : ℕ) (x : EventListenFd)
        → get_elem? e.lfds i ≡ some x
        → i ≢ j
        → x.active ≡ false) where
    skip_scan :
        (max n i : ℕ) (acc : List EpollEvent) (s : State)
        → get_elem? s.process.pollfds k ≡ some e
        → j < i
        → i + n ≡ max_fds_listen
        → scan ext k max n i acc s ≡ ok acc s
    unfolding scan
    skip_scan max zero i acc s at_k past sum = refl
    skip_scan max (suc n) i acc s at_k past sum = elim (Bool-cases (ltb (length acc) max)) [
      | inr full ↦ simp full
      | inl space ↦
          let (x, at_i) = get_elem?-some e.lfds i (omega (arith, size, sum)) in
          let off = others i x at_i (λ same. omega (arith, same, past)) in
          simp (space, visit_inactive s i x acc at_k at_i off)
            (skip_scan max n (suc i) acc s at_k (omega (arith, past)) (omega (arith, sum)))
    ]

    module _ (max : ℕ) (room : 0 < max) (s : State)
        (at_k : get_elem? s.process.pollfds k ≡ some e) where
      single_scan :
          (n i : ℕ) (acc : List EpollEvent) (t : State)
          → visit_listener ext k j [] s ≡ ok acc t
          → t.process.pollfds ≡ s.process.pollfds
          → i ≤ j
          → j < i + n
          → i + n ≡ max_fds_listen
          → scan ext k max n i [] s ≡ ok acc t
      unfolding scan
      single_scan zero i acc t run same low high sum = absurd (omega (arith, low, high))
      single_scan (suc n) i acc t run same low high sum =
          let space : ltb 0 max ≡ true = ground (arith, room) in
          elim (Bool-cases (i == j)) [
            | inl here ↦
                let i_is_j = eq_of_== i j here in
                let run' : visit_listener ext k i [] s ≡ ok acc t =
                  subst (λ x. visit_listener ext k x [] s ≡ ok acc t) (sym i_is_j) run in
                simp (space, run')
                  (skip_scan max n (suc i) acc t (ap (λ es. get_elem? es k) same ∙ at_k)
                    (omega (arith, i_is_j)) (omega (arith, sum)))
            | inr other ↦
                let ne : i ≢ j = λ same. ground (arith, other, same) in
                let (x, at_i) = get_elem?-some e.lfds i (omega (arith, size, sum)) in
                simp (space, visit_inactive s i x [] at_k at_i (others i x at_i ne))
                  (single_scan n (suc i) acc t run same (omega (arith, low, ne))
                    (omega (arith, high)) (omega (arith, sum)))
          ]

      single_fault :
          (n i : ℕ)
          → visit_listener ext k j [] s ≡ fault
          → i ≤ j
          → j < i + n
          → i + n ≡ max_fds_listen
          → scan ext k max n i [] s ≡ fault
      unfolding scan
      single_fault zero i run low high sum = absurd (omega (arith, low, high))
      single_fault (suc n) i run low high sum =
          let space : ltb 0 max ≡ true = ground (arith, room) in
          elim (Bool-cases (i == j)) [
            | inl here ↦
                let run' : visit_listener ext k i [] s ≡ fault =
                  subst (λ x. visit_listener ext k x [] s ≡ fault) (sym (eq_of_== i j here)) run in
                simp (space, run')
            | inr other ↦
                let ne : i ≢ j = λ same. ground (arith, other, same) in
                let (x, at_i) = get_elem?-some e.lfds i (omega (arith, size, sum)) in
                simp (space, visit_inactive s i x [] at_k at_i (others i x at_i ne))
                  (single_fault n (suc i) run (omega (arith, low, ne)) (omega (arith, high))
                    (omega (arith, sum)))
          ]

module _ (ext : External) (kernel : Kernel) (epfd k j max : ℕ) (s : State) (e : Epollfd)
    (l : EventListenFd) (h : Only s k j e l) (room : 0 < max)
    (found : find_pollfd epfd s.process.pollfds ≡ some k) where
  pub whole_scan :
      (acc : List EpollEvent) (t : State)
      → visit_listener ext k j [] s ≡ ok acc t
      → t.process.pollfds ≡ s.process.pollfds
      → scan ext k max max_fds_listen 0 [] s ≡ ok acc t
  whole_scan acc t run same =
      single_scan ext k e j h.size h.others max room s h.at_k max_fds_listen 0 acc t run same
        (omega arith) (omega (arith, h.within)) (omega arith)

  -- The listener has an event: the call returns it.
  pub wait_event :
      (timeout : ℤ) (schedule : Schedule) (ev : EpollEvent) (t : State)
      → visit_listener ext k j [] s ≡ ok (ev ∷ []) t
      → t.process.pollfds ≡ s.process.pollfds
      → epoll_wait ext kernel epfd max timeout schedule s ≡ ok (pos 1, ev ∷ []) t
  unfolding epoll_wait epoll_pwait get_pollfd_by_num pwait_wait pwait_round real_events load_pollfd
  wait_event timeout [] ev t run same =
      simp (
        found,
        whole_scan (ev ∷ []) t run same,
        ap (λ es. get_elem? es k) same ∙ h.at_k,
        h.pure_own,
      )
  wait_event timeout (env ∷ rest) ev t run same =
      simp (
        found,
        whole_scan (ev ∷ []) t run same,
        ap (λ es. get_elem? es k) same ∙ h.at_k,
        h.pure_own,
      )

  -- The look at the listener faults, and so does the call.
  pub wait_fault :
      (timeout : ℤ) (schedule : Schedule)
      → visit_listener ext k j [] s ≡ fault
      → epoll_wait ext kernel epfd max timeout schedule s ≡ fault
  unfolding epoll_wait epoll_pwait get_pollfd_by_num pwait_wait pwait_round
  wait_fault timeout [] run =
      let broken =
        single_fault ext k e j h.size h.others max room s h.at_k max_fds_listen 0 run (omega arith)
          (omega (arith, h.within)) (omega arith) in
      simp (found, broken)
  wait_fault timeout (env ∷ rest) run =
      let broken =
        single_fault ext k e j h.size h.others max room s h.at_k max_fds_listen 0 run (omega arith)
          (omega (arith, h.within)) (omega arith) in
      simp (found, broken)

  -- The listener has none, and nobody else does anything: the call sleeps once and returns 0 where
  -- the timeout is 0.
  pub wait_nothing :
      visit_listener ext k j [] s ≡ ok [] s
      → epoll_wait ext kernel epfd max (pos 0) ((λ u. u) ∷ []) s ≡ ok (pos 0, []) s
  unfolding epoll_wait epoll_pwait get_pollfd_by_num pwait_wait pwait_round real_events load_pollfd
  wait_nothing run = simp (found, whole_scan [] s run refl, h.at_k, h.pure_own)
