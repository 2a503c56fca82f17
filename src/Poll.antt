-- ===== src/Poll.antt =====
-- event.c: `poll` and `ppoll`, over one epoll descriptor that is kept from call to call.
pub mod Slots
pub mod Loops
pub mod Results
pub mod Answers
pub mod Quiet
pub mod Leak
pub mod Keeps
use shmsock.Base.{
  ℕ, zero, suc, ◌+◌, ◌-◌, ◌*◌, ◌/◌, ◌%◌, ◌^◌, Bool, true, false, List, [], ◌∷◌, Option, none, some,
  if◌then◌else◌, not, set, get_elem?, length, ltb, map,
}
use shmsock.Machine.{ℤ, pos, negsuc, failure, EpollEvent, Process, External, Kernel}
use shmsock.Machine.Cmd.{
  Run, ok, Cmd, Schedule, pure, ◌>>=◌, ◌>>◌, get_process, put_process, or_fault,
}
use shmsock.Pollfds.{epoll_create1}
use shmsock.Listeners.{epoll_ctl, ctl_add, ctl_del}
use shmsock.Waiting.{epoll_wait, is_failure, signed32}

-- struct pollfd. The two masks are the 16 bits of a `short`.
pub record PollFd : Type 0 where
  pub fd : ℕ
  pub events : ℕ
  pub revents : ℕ

-- struct timespec, not negative
pub record Timespec : Type 0 where
  pub tv_sec : ℕ
  pub tv_nsec : ℕ

-- A `short` that becomes an `uint32_t`: its sign is extended.
abbrev pub extend16 : ℕ → ℕ
extend16 w = if ltb w (2 ^ 15) then w else w + (2 ^ 32 - 2 ^ 16)

-- epollEvents[i]
abbrev pub poll_event : ℕ → PollFd → EpollEvent
poll_event i p = record { events = extend16 p.events; user = i }

-- The static variable `epollfd`; none where there is none and none can be made.
unfoldable pub poll_descriptor : Cmd (Option ℕ)
poll_descriptor = do
  p ← get_process
  elim p.poll_epollfd [
    | some n ↦ pure (some n)
    | none ↦ (do
      r ← epoll_create1 0
      elim r [
        | negsuc n ↦ pure none
        | pos n ↦ (do
          q ← get_process
          put_process (record q { poll_epollfd = some n })
          pure (some n))
      ])
  ]

-- The loop that adds the descriptors, from index `i`: false where `epoll_ctl` failed.
unfoldable pub poll_add : Kernel → ℕ → ℕ → List PollFd → Cmd Bool
poll_add kernel epfd i [] = pure true
poll_add kernel epfd i (p ∷ ps) = do
  r ← epoll_ctl kernel epfd ctl_add p.fd (some (poll_event i p))
  if is_failure r then pure false else poll_add kernel epfd (suc i) ps

-- The loop that removes them.
unfoldable pub poll_del : Kernel → ℕ → List PollFd → Cmd Bool
poll_del kernel epfd [] = pure true
poll_del kernel epfd (p ∷ ps) = do
  r ← epoll_ctl kernel epfd ctl_del p.fd none
  if is_failure r then pure false else poll_del kernel epfd ps

-- fds[i].revents = 0x0
abbrev pub reset : PollFd → PollFd
reset p = record p { revents = 0 }

-- The loop over the results; none for a write out of the array.
unfoldable pub set_revents : List EpollEvent → List PollFd → Option (List PollFd)
set_revents [] ps = some ps
set_revents (ev ∷ evs) ps = elim (get_elem? ps ev.user) [
  | none ↦ none
  | some p ↦ set_revents evs (set ps ev.user (record p { revents = ev.events % 2 ^ 16 }))
]

module _ (ext : External) where
  -- The result and the array `fds` afterwards.
  unfoldable pub poll : Kernel → List PollFd → ℤ → Schedule → Cmd (ℤ × List PollFd)
  poll kernel fds timeout schedule = do
    epollfd ← poll_descriptor
    elim epollfd [
      | none ↦ pure (failure, fds)
      | some epfd ↦ (do
        added ← poll_add kernel epfd 0 fds
        if not added then pure (failure, fds) else (do
          r ← epoll_wait ext kernel epfd (length fds) timeout schedule
          ps ← or_fault (set_revents r.1 (map reset fds))
          deleted ← poll_del kernel epfd fds
          if not deleted then pure (failure, ps) else pure (r.0, ps)))
    ]

  -- The timeout in milliseconds, which becomes an `int`; -1 for NULL.
  unfoldable pub ppoll : Kernel → List PollFd → Option Timespec → Schedule → Cmd (ℤ × List PollFd)
  ppoll kernel fds tmo_p schedule =
      let timeout : ℤ = elim tmo_p [
        | none ↦ failure
        | some t ↦ signed32 ((t.tv_sec * 1000 + t.tv_nsec / 1_000_000) % 2 ^ 32)
      ] in
      poll kernel fds timeout schedule
