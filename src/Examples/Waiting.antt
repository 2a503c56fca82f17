-- ===== src/Examples/Waiting.antt =====
-- `epoll_wait` in the concrete setting: the descriptor 700 has something to read, or nothing.
pub mod Single
use shmsock.Base.{
  ℕ, zero, suc, ◌≡◌, refl, ◌≢◌, ◌≤◌, ap, sym, subst, ◌∙◌, inr, inl, Bool, true, false, [], ◌∷◌,
  ◌++◌, none, some, arith, replicate, get_elem?, length, All,
}
use shmsock.Llist.{null}
use shmsock.Machine.{
  pos, failure, server, client, s_created, s_open, s_listen, s_connecting, c_open, c_create,
  c_close, econnrefused, EventListenFd, Epollfd, Connection, Block, Fd, Memory, State,
}
use shmsock.Machine.Cmd.{load_conn, update_conn, ok, update, fault, asleep, Schedule}
use shmsock.Fds.{find_fd, fail}
use shmsock.Fds.Keeps.{with_entry}
use shmsock.Pollfds.{find_pollfd}
use shmsock.Connection.{close_connection, set_remote_event, epollin}
use shmsock.Machine.Access.{update-update}
use shmsock.Machine.Sides.{set_own_lt_events}
use shmsock.Connection.Search.{first_pending}
use shmsock.Socket.Connect.{connect_ex}
use shmsock.Waiting.{epoll_wait, event_of}
use shmsock.Waiting.Reports.{Level, SameButLevels, same_trans}
use shmsock.Waiting.Rounds.{Shows, Shows-same, Awaits}
use shmsock.Waiting.Timeout.{epoll_wait_ready, timeout_exact, timeout_overflow, epoll_wait_wakes}
use shmsock.Waiting.Single.{Only}
use shmsock.Waiting.Edge.{armed}
use shmsock.Waiting.Offers.{unconnected_faults, listening_reports, connecting_opens}
use shmsock.Waiting.Refused.{refused_unseen}
use shmsock.Examples.{ext, ext_laws, kernel, process, no_fd}
use shmsock.Examples.Descriptors.{fd_700, at_700, empty_conn, meanwhile, peer_process}
use shmsock.Examples.Accepting.{one_slots}
use shmsock.Examples.Events.{no_listener, epoll_900, closed_conn}

-- A listener for the first entry of the table of descriptors, the only active one of twenty.
abbrev pub listener_700 : Bool → ℕ → EventListenFd
listener_700 level mask = record {
  active = true;
  is_level_triggered = level;
  event = record { events = mask; user = 700 };
  fd = 0;
}

abbrev pub one_listener : EventListenFd → Epollfd
one_listener l = record epoll_900 { lfds = l ∷ replicate 19 no_listener }

abbrev pub watching : EventListenFd → Connection → Fd → State
watching l c d =
    let s = at_700 server (500 ∷ []) c d in
    record s { process = record s.process { pollfds = one_listener l ∷ [] } }

free_levels : (s : State) (n : ℕ) → All (Level s) (replicate n no_listener)
free_levels s zero = tt
free_levels s (suc n) = ((λ on. cc), free_levels s n)

-- Something to read, and nothing.
abbrev ready_now : State
ready_now = watching (listener_700 true 1) closed_conn (fd_700 s_open 0)

abbrev quiet_now : State
quiet_now = watching (listener_700 true 1) (empty_conn c_open) (fd_700 s_open 0)

ready-Shows : Shows 0 8 (event_of (listener_700 true 1) 1 ∷ []) ready_now
ready-Shows = record {
  entry = one_listener (listener_700 true 1);
  at_k = refl;
  size = refl;
  pure_own = refl;
  levels = (
    (λ on. (
      fd_700 s_open 0,
      record { arena = 124; value = closed_conn },
      refl,
      refl,
      refl,
      refl,
      refl,
      (λ e. omega arith),
      refl,
    )),
    free_levels ready_now 19,
  );
  shown = refl;
}

quiet-Shows : Shows 0 8 [] quiet_now
quiet-Shows = record {
  entry = one_listener (listener_700 true 1);
  at_k = refl;
  size = refl;
  pure_own = refl;
  levels = (
    (λ on. (
      fd_700 s_open 0,
      record { arena = 124; value = empty_conn c_open },
      refl,
      refl,
      refl,
      refl,
      refl,
      (λ e. omega arith),
      refl,
    )),
    free_levels quiet_now 19,
  );
  shown = refl;
}

epoll_wait_ready_example :
    let evs = event_of (listener_700 true 1) 1 ∷ [] in
    (t : State) × (epoll_wait ext kernel 900 8 failure [] ready_now ≡ ok (pos (length evs), evs) t)
    × (length evs ≤ 8)
    × SameButLevels ready_now t
unfolding find_pollfd
epoll_wait_ready_example =
    epoll_wait_ready ext ext_laws kernel 900 0 8 ready_now refl (event_of (listener_700 true 1) 1)
      [] failure [] ready-Shows

abbrev pub idle : Schedule
idle = (λ u. u) ∷ []

timeout_exact_example :
    (1 ≤ length idle
      → (u : State) × (epoll_wait ext kernel 900 8 (pos 0) idle quiet_now ≡ ok (pos 0, []) u))
    × (suc (length idle) ≤ 1 → epoll_wait ext kernel 900 8 (pos 0) idle quiet_now ≡ asleep)
unfolding find_pollfd
timeout_exact_example =
    timeout_exact ext ext_laws kernel 900 0 8 quiet_now refl 0 idle (omega arith) ((λ u h. h), tt)
      quiet-Shows

timeout_overflow_example :
    (u : State) × (epoll_wait ext kernel 900 8 (pos 2_147_484) [] quiet_now ≡ ok (pos 0, []) u)
    × SameButLevels quiet_now u
unfolding find_pollfd
timeout_overflow_example =
    timeout_overflow ext ext_laws kernel 900 0 8 quiet_now refl 2_147_484 [] (omega arith)
      (omega arith) quiet-Shows

-- A listener to EPOLLIN and EPOLLHUP, with nothing to report.
abbrev watched : EventListenFd
watched = listener_700 true 17

abbrev quiet_hup : State
quiet_hup = watching watched (empty_conn c_open) (fd_700 s_open 0)

abbrev masked : ℕ → Block Connection
masked n = record { arena = 124; value = record (empty_conn c_open) { server_lt_events = n } }

seen : (u : State) → SameButLevels quiet_hup u → (n : ℕ) × (u.memory.conns 500 ≡ some (masked n))
seen u same = elim (same.conns_same 500) [
  | inl e ↦ (0, sym e)
  | inr (b, n, e, e') ↦
      let block : b ≡ masked 0 = ground (arith, e) in
      (
        n,
        e'
            ∙ ap
                (λ (x : Block Connection).
                  some (record x { value = set_own_lt_events server n x.value }))
                block,
      )
]

-- The client closes the connection.
abbrev client_closes : State → State
client_closes = meanwhile peer_process (close_connection ext 500)

abbrev closed_of : ℕ → Connection
closed_of n = record (empty_conn c_close) { server_lt_events = n; server_events = 16 }

abbrev closed_at : Memory → ℕ → State
closed_at m n = record {
  memory = record m {
    conns = update m.conns 500 (some (record { arena = 124; value = closed_of n }));
  };
  process = quiet_hup.process;
}

closes_lem :
    (u : State) → SameButLevels quiet_hup u → (n : ℕ) × (client_closes u ≡ closed_at u.memory n)
unfolding close_connection set_remote_event load_conn update_conn
closes_lem u same =
    let (n, at) = seen u same in
    let run : client_closes u ≡ record (closed_at u.memory n) { process = u.process } =
      simp (at, update-update) in
    (n, run ∙ ap (λ q. record (closed_at u.memory n) { process = q }) same.process_same)

closed-Shows : (m : Memory) (n : ℕ) → Shows 0 8 (event_of watched 16 ∷ []) (closed_at m n)
closed-Shows m n = record {
  entry = one_listener watched;
  at_k = refl;
  size = refl;
  pure_own = refl;
  levels = (
    (λ on. (
      fd_700 s_open 0,
      record { arena = 124; value = closed_of n },
      refl,
      refl,
      refl,
      refl,
      refl,
      (λ e. omega arith),
      refl,
    )),
    free_levels (closed_at m n) 19,
  );
  shown = refl;
}

quiet_hup-Shows : Shows 0 8 [] quiet_hup
quiet_hup-Shows = record {
  entry = one_listener watched;
  at_k = refl;
  size = refl;
  pure_own = refl;
  levels = (
    (λ on. (fd_700 s_open 0, masked 0, refl, refl, refl, refl, refl, (λ e. omega arith), refl)),
    free_levels quiet_hup 19,
  );
  shown = refl;
}

hang_up-Awaits : Awaits 0 8 (event_of watched 16 ∷ []) client_closes idle quiet_hup
hang_up-Awaits = (
  quiet_hup-Shows,
  λ t same. (
    Shows-same 0 8 [] quiet_hup t same quiet_hup-Shows,
    λ u again.
        let (n, run) = closes_lem u (same_trans quiet_hup t u same again) in
        subst (Shows 0 8 (event_of watched 16 ∷ [])) (sym run) (closed-Shows u.memory n),
  ),
)

epoll_wait_wakes_example :
    let evs = event_of watched 16 ∷ [] in
    (t : State) × (epoll_wait ext kernel 900 8 failure (idle ++ client_closes ∷ []) quiet_hup
      ≡ ok (pos (length evs), evs) t)
unfolding find_pollfd
epoll_wait_wakes_example =
    epoll_wait_wakes ext ext_laws kernel 900 0 8 quiet_hup refl failure idle client_closes
      (event_of watched 16) [] (inl refl) hang_up-Awaits
