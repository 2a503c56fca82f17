-- ===== src/Waiting/Refused.antt =====
-- A socket that connects, whose connection the other side has closed before `epoll_wait` looks.
use shmsock.Base.{
  ℕ, suc, ◌<◌, ◌≡◌, refl, ap, ◌∙◌, ◌≢◌, false, true, [], ◌∷◌, none, some, arith, ◌==◌, get_elem?,
  All,
}
use shmsock.Llist.{null}
use shmsock.Machine.{
  Side, server, client, failure, c_close, s_connecting, econnrefused, EventListenFd, Epollfd, Fd,
  Connection, Block, State, External, Kernel,
}
use shmsock.Machine.Sides.{set_own_lt_events, own_lt_events}
use shmsock.Machine.Access.{update_self}
use shmsock.Machine.Cmd.{ok, asleep, Schedule, update, load_fd, load_conn, update_conn}
use shmsock.Fds.{find_fd, fail}
use shmsock.Pollfds.{find_pollfd, get_pollfd_by_num, load_pollfd}
use shmsock.Connection.{epollin, check_if_accepted_connection}
use shmsock.Socket.Connect.{connect_ex}
use shmsock.Socket.Connect.Progress.{Connects, connect_ex_lem}
use shmsock.Waiting.{
  epoll_wait, epoll_pwait, pwait_wait, pwait_round, real_events, visit_listener, check_connecting,
  clear_input, clear_event,
}
use shmsock.Waiting.Single.{Only, whole_scan}

-- The only active listener is for a descriptor that connects, and its connection is closed.
pub record IsRefused (epfd k j : ℕ) (e : Epollfd) (l : EventListenFd) (d : Fd) (s : State)
    : Type 0 where
  pub only : Only s k j e l
  pub found : find_pollfd epfd s.process.pollfds ≡ some k
  pub own : find_fd d.num s.process.fds ≡ some l.fd
  pub at : get_elem? s.process.fds l.fd ≡ some d
  pub live : d.active ≡ true
  pub connects : d.state ≡ s_connecting
  pub ne_null : d.conn ≢ null
  pub block : Block Connection
  pub holds : s.memory.conns d.conn ≡ some block
  pub closed : block.value.conn_state ≡ c_close

state-set_lt :
    (k : Side) (n : ℕ) (c : Connection) → (set_own_lt_events k n c).conn_state ≡ c.conn_state
state-set_lt server n c = refl
state-set_lt client n c = refl

module _ (ext : External) (kernel : Kernel) (epfd k j max : ℕ) (room : 0 < max) (e : Epollfd)
    (l : EventListenFd) (d : Fd) where
  -- Only EPOLLIN is taken out of the level-triggered mask.
  visit_listener-IsRefused :
      (s : State)
      → IsRefused epfd k j e l d s
      → (t : State) × (visit_listener ext k j [] s ≡ ok [] t)
        × (t.process ≡ s.process)
        × IsRefused epfd k j e l d t
  unfolding visit_listener check_connecting check_if_accepted_connection clear_input load_pollfd
      load_fd load_conn update_conn
  visit_listener-IsRefused s h =
      let e1 : (d.conn == null) ≡ false = ground (arith, h.ne_null) in
      let side = s.process.side in
      let c' =
        set_own_lt_events side (clear_event (own_lt_events side h.block.value) epollin)
          h.block.value in
      let t : State = record s {
        memory = record s.memory {
          conns = update s.memory.conns d.conn (some (record h.block { value = c' }));
        };
      } in
      (
        t,
        simp (h.only.at_k, h.only.at_j, h.only.on, h.at, h.live, h.connects, e1, h.holds, h.closed),
        refl,
        record {
          only = record {
            at_k = h.only.at_k;
            size = h.only.size;
            pure_own = h.only.pure_own;
            at_j = h.only.at_j;
            within = h.only.within;
            on = h.only.on;
            others = h.only.others;
          };
          found = h.found;
          own = h.own;
          at = h.at;
          live = h.live;
          connects = h.connects;
          ne_null = h.ne_null;
          block = record h.block { value = c' };
          holds = update_self s.memory.conns d.conn _;
          closed =
              state-set_lt side (clear_event (own_lt_events side h.block.value) epollin)
                h.block.value
              ∙ h.closed;
        },
      )

  refused_waits :
      (schedule : Schedule) (elapsed : ℕ) (s : State)
      → All
          (λ env. (t : State) → IsRefused epfd k j e l d t → IsRefused epfd k j e l d (env t))
          schedule
      → IsRefused epfd k j e l d s
      → pwait_wait ext kernel schedule k max failure elapsed s ≡ asleep
  unfolding pwait_wait pwait_round real_events load_pollfd
  refused_waits [] elapsed s keep h =
      let (t, run, same, h') = visit_listener-IsRefused s h in
      simp (
        whole_scan ext kernel epfd k j max s e l h.only room h.found [] t run
            (ap (λ p. p.pollfds) same),
        h'.only.at_k,
        h.only.pure_own,
      )
  refused_waits (env ∷ rest) elapsed s keep h =
      let (t, run, same, h') = visit_listener-IsRefused s h in
      simp
        (
          whole_scan ext kernel epfd k j max s e l h.only room h.found [] t run
              (ap (λ p. p.pollfds) same),
          h'.only.at_k,
          h.only.pure_own,
        )
        (refused_waits rest (suc elapsed) (env t) keep.1 (keep.0 t h'))

  -- A connection that was accepted and closed again before the connecting side looked: `connectEx`
  -- on the descriptor fails with ECONNREFUSED, but `epoll_wait` without a timeout, with its listener
  -- the only active one of an epoll descriptor that is not mixed, reports nothing, whatever the listener listens to: it sleeps on for as
  -- long as the others leave it so.
  pub refused_unseen :
      (s : State) (schedule : Schedule)
      → IsRefused epfd k j e l d s
      → All
          (λ env. (t : State) → IsRefused epfd k j e l d t → IsRefused epfd k j e l d (env t))
          schedule
      → (connect_ex ext d.num none schedule s ≡ fail econnrefused s)
        × (epoll_wait ext kernel epfd max failure schedule s ≡ asleep)
  unfolding epoll_wait epoll_pwait get_pollfd_by_num
  refused_unseen s schedule h keep =
      let conn : Connects s l.fd d h.block = record {
        at = h.at;
        live = h.connects;
        ne_null = h.ne_null;
        holds = h.holds;
      } in
      (
        connect_ex_lem ext l.fd s d.num d h.block none schedule h.own conn ∙ simp h.closed,
        simp (h.found, refused_waits schedule 0 s keep h),
      )
