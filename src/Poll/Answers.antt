-- ===== src/Poll/Answers.antt =====
-- A whole call of `poll` on descriptors of this library.
use shmsock.Base.{
  ℕ, ◌≤◌, ◌≡◌, refl, sym, ap, subst, ◌∙◌, ◌≢◌, true, false, List, [], ◌∷◌, ◌++◌, append-nil, some,
  arith, get_elem?, length, length-append, length-drop, length-map, take, take-all, drop, map, All,
  All-append, All-map, All-drop, All-intro, Bool-cases, inl, inr, Option, nonempty, ◌==◌,
}
use shmsock.Llist.{Ptr}
use shmsock.Machine.{
  Side, ℤ, pos, EpollEvent, EventListenFd, Epollfd, Fd, Connection, Block, Process, State, External,
  ExternalLaws, Kernel,
}
use shmsock.Machine.Cmd.{ok, Schedule}
use shmsock.Pollfds.{find_pollfd, delete_listener, max_fds_listen}
use shmsock.Listeners.Lifecycle.{with_lfds, again}
use shmsock.Waiting.{epoll_wait}
use shmsock.Waiting.Reports.{ready, Level, SameConn, SameButLevels}
use shmsock.Waiting.Rounds.{Shows}
use shmsock.Waiting.Timeout.{epoll_wait_ready}
use shmsock.Poll.{PollFd, poll, poll_add, poll_del, poll_descriptor, reset, set_revents}
use shmsock.Poll.Slots.{IsOff, found_slot}
use shmsock.Poll.Loops.{Watched, Distinct, on_from, on_from-length, poll_add_lem, poll_del_lem}
use shmsock.Poll.Results.{
  answer, answered, answering, ready_off, ready-append, listeners-Level, set_revents_lem,
  ready-answering,
}

-- The epoll descriptor of `poll` exists, at `k`, and has no active listener.
pub record PollIdle (epfd k : ℕ) (e : Epollfd) (s : State) : Type 0 where
  pub kept : s.process.poll_epollfd ≡ some epfd
  pub found : find_pollfd epfd s.process.pollfds ≡ some k
  pub at_k : get_elem? s.process.pollfds k ≡ some e
  pub size : length e.lfds ≡ max_fds_listen
  pub pure_own : e.is_mixed ≡ false
  pub free : All IsOff e.lfds

pub descriptor_kept :
    (s : State) (epfd : ℕ)
    → s.process.poll_epollfd ≡ some epfd
    → poll_descriptor s ≡ ok (some epfd) s
unfolding poll_descriptor
descriptor_kept s epfd e = rw e refl

answered_size :
    (side : Side) (ds : List Fd) (m : Ptr → Option (Block Connection)) (ps : List PollFd)
    (ws : All (Watched ds m) ps)
    → answering (answered side ds m ps ws) ≤ length ps
answered_size side ds m [] ws = omega arith
answered_size side ds m (p ∷ ps) (w, ws) =
    let ih = answered_size side ds m ps ws in
    elim (Bool-cases (answer side p w.block.value == 0)) [
      | inl z ↦ rw z (omega (arith, ih))
      | inr z ↦ rw z (omega (arith, ih))
    ]

deleted-IsOff : (ls : List EventListenFd) → All IsOff (map delete_listener ls)
deleted-IsOff [] = tt
deleted-IsOff (l ∷ ls) = (refl, deleted-IsOff ls)

module _ (ext : External) (laws : ExternalLaws ext) (kernel : Kernel) (epfd k : ℕ) (e : Epollfd)
    (s : State) (h : PollIdle epfd k e s) (ps : List PollFd)
    (ws : All (Watched s.process.fds s.memory.conns) ps) (apart : Distinct ps)
    (room : length ps ≤ max_fds_listen) where
  abbrev pub on : List EventListenFd
  on = on_from s.process.fds s.memory.conns ps ws 0

  abbrev pub free_tail : List EventListenFd
  free_tail = drop (length ps) e.lfds

  abbrev pub watching : State
  watching = with_lfds s k e (on ++ free_tail)

  abbrev pub answers : List PollFd
  answers = answered s.process.side s.process.fds s.memory.conns ps ws

  abbrev pub found_events : List EpollEvent
  found_events = ready watching on

  tail-IsOff : All IsOff free_tail
  tail-IsOff = All-drop IsOff (length ps) e.lfds h.free

  pub found_size : length found_events ≡ answering answers
  found_size = ready-answering watching ps ws 0

  answers_size : answering answers ≤ length ps
  answers_size = answered_size s.process.side s.process.fds s.memory.conns ps ws

  pub watching-Shows : Shows k (length ps) found_events watching
  watching-Shows = record {
    entry = record e { lfds = on ++ free_tail };
    at_k = again s k e h.at_k 0 (record e { lfds = on ++ free_tail });
    size = omega (
      arith,
      length-append on free_tail,
      on_from-length s.process.fds s.memory.conns ps ws 0,
      length-drop (length ps) e.lfds,
      h.size,
      room,
    );
    pure_own = h.pure_own;
    levels =
        All-append (Level watching) on free_tail (listeners-Level watching ps ws 0)
          (All-map IsOff (Level watching) (λ l off live. absurd (cc)) free_tail tail-IsOff);
    shown =
        ap (take (length ps)) (
          ready-append watching on free_tail
          ∙ ap (λ xs. found_events ++ xs) (ready_off watching free_tail tail-IsOff)
          ∙ append-nil found_events)
        ∙ take-all (length ps) found_events (omega (arith, found_size, answers_size));
  }

  waits :
      (timeout : ℤ) (schedule : Schedule)
      → answering answers ≢ 0
      → (t : State) × (epoll_wait ext kernel epfd (length ps) timeout schedule watching
          ≡ ok (pos (answering answers), found_events) t)
        × SameButLevels watching t
  waits timeout schedule some_answer =
      let (ev, evs, first) = nonempty found_events (λ z. some_answer (sym found_size ∙ z)) in
      let (t, run, bound, same) =
        epoll_wait_ready ext laws kernel epfd k (length ps) watching
          (found_slot s k e epfd h.at_k h.found (on ++ free_tail)) ev evs timeout schedule
          (subst (λ xs. Shows k (length ps) xs watching) first watching-Shows) in
      (
        t,
        run
            ∙ ap (λ xs. ok (pos (length xs), xs) t) (sym first)
            ∙ ap (λ n. ok (pos n, found_events) t) found_size,
        same,
      )

  pub added : poll_add kernel epfd 0 ps s ≡ ok true watching
  added =
      poll_add_lem kernel epfd k s.process.fds s.memory.conns ps ws [] e.lfds 0 s e refl h.at_k
        h.found refl (omega (arith, room, h.size)) tt h.free (All-intro _ (λ q. tt) ps) apart

  -- After the wait the listeners are deleted, and the epoll descriptor is idle again.
  module _ (t : State) (same : t.process ≡ watching.process) where
    abbrev e1 : Epollfd
    e1 = record e { lfds = on ++ free_tail }

    abbrev ls : List EventListenFd
    ls = map delete_listener on ++ free_tail

    abbrev pub cleared : State
    cleared = with_lfds t k e1 ls

    at_t : get_elem? t.process.pollfds k ≡ some e1
    at_t = ap (λ (q : Process). get_elem? q.pollfds k) same ∙ again s k e h.at_k 0 e1

    found_t : find_pollfd epfd t.process.pollfds ≡ some k
    found_t =
        ap (λ (q : Process). find_pollfd epfd q.pollfds) same
        ∙ found_slot s k e epfd h.at_k h.found (on ++ free_tail)

    pub deleted : poll_del kernel epfd ps t ≡ ok true cleared
    deleted =
        poll_del_lem kernel epfd k s.process.fds s.memory.conns ps ws [] free_tail 0 t e1
          (ap (λ (q : Process). q.fds) same) at_t found_t refl tt

    pub cleared-PollIdle : PollIdle epfd k (record e { lfds = ls }) cleared
    cleared-PollIdle = record {
      kept = ap (λ (q : Process). q.poll_epollfd) same ∙ h.kept;
      found = found_slot t k e1 epfd at_t found_t ls;
      at_k = again t k e1 at_t 0 (record e { lfds = ls });
      size = omega (
        arith,
        length-append (map delete_listener on) free_tail,
        length-map delete_listener on,
        on_from-length s.process.fds s.memory.conns ps ws 0,
        length-drop (length ps) e.lfds,
        h.size,
        room,
      );
      pure_own = h.pure_own;
      free = All-append IsOff (map delete_listener on) free_tail (deleted-IsOff on) tail-IsOff;
    }

  -- On descriptors of this library that are in use, neither listen nor connect, are all different,
  -- at most 20, and for which an event that is asked for holds, `poll` with its epoll descriptor idle
  -- does not sleep, whatever the timeout: it returns how many have an answer, `revents` of each is
  -- what holds of its connection among the events that are asked for (0 where nothing does), and
  -- the epoll descriptor is idle again, so that the next call finds it as this one did. The table
  -- of descriptors does not change, and of the connections only level-triggered masks.
  pub poll-answers :
      (timeout : ℤ) (schedule : Schedule)
      → answering answers ≢ 0
      → (u : State) × (e' : Epollfd) × (poll ext kernel ps timeout schedule s
          ≡ ok (pos (answering answers), answers) u)
        × PollIdle epfd k e' u
        × (u.process.fds ≡ s.process.fds)
        × ((p : Ptr) → SameConn s.process.side (s.memory.conns p) (u.memory.conns p))
  unfolding poll
  poll-answers timeout schedule some_answer =
      let (t, run, same) = waits timeout schedule some_answer in
      let answers_set : set_revents found_events (map reset ps) ≡ some answers =
        set_revents_lem watching ps ws [] in
      let done = same.process_same in
      (
        cleared t done,
        record e { lfds = map delete_listener on ++ free_tail },
        simp (descriptor_kept s epfd h.kept, added, run, answers_set, deleted t done),
        cleared-PollIdle t done,
        ap (λ (q : Process). q.fds) done,
        same.conns_same,
      )
