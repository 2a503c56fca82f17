-- ===== src/Examples/Events.antt =====
-- Listeners and level-triggered events in the concrete setting.
use shmsock.Base.{
  ℕ, ◌≡◌, refl, true, false, [], ◌∷◌, none, some, arith, replicate, get_elem?, set, All, zero, suc,
}
use shmsock.Machine.{
  Fd, s_close, pos, server, s_open, c_close, eexist, enoent, EpollEvent, EventListenFd, Epollfd,
  Connection, State,
}
use shmsock.Machine.Cmd.{ok}
use shmsock.Fds.{find_empty, find_fd, fail}
use shmsock.Pollfds.{find_pollfd, delete_listener}
use shmsock.Listeners.{epoll_ctl, find_empty_listener, ctl_add, ctl_mod, ctl_del, with_event}
use shmsock.Listeners.Lifecycle.{Other, with_lfds, listener_lifecycle}
use shmsock.Fds.Keeps.{Good}
use shmsock.Listeners.Stale.{Elsewhere, stale_listener}
use shmsock.Socket.Setup.{socket}
use shmsock.Examples.{no_fd, kernel}
use shmsock.Examples.Descriptors.{one_fd, fd_700, at_700, packet_conn}

abbrev pub closed_conn : Connection
closed_conn = packet_conn c_close (600 ∷ [])

abbrev pub readable : State
readable = at_700 server [] closed_conn (fd_700 s_open 0)

abbrev pub no_listener : EventListenFd
no_listener = record {
  active = false;
  is_level_triggered = false;
  event = record { events = 0; user = 0 };
  fd = 0;
}

abbrev pub epoll_900 : Epollfd
epoll_900 = record {
  active = true;
  num = 900;
  all_flags = 0;
  is_mixed = false;
  real_pollfd = pos 0;
  lfds = replicate 20 no_listener;
}

abbrev pub polling : State
polling = record readable { process = record readable.process { pollfds = epoll_900 ∷ [] } }

abbrev pub input : EpollEvent
input = record { events = 1; user = 700 }

abbrev output : EpollEvent
output = record { events = 4; user = 700 }

slots_free : (n : ℕ) → All (Other polling.process.fds 700) (replicate n no_listener)
slots_free zero = tt
slots_free (suc n) = ((λ on. cc), slots_free n)

listener_lifecycle_example :
    (l : EventListenFd) × (get_elem? epoll_900.lfds 0 ≡ some l)
    × (let added = λ (ev : EpollEvent). with_event ev (record l { active = true; fd = 0 }) in
        let s1 = with_lfds polling 0 epoll_900 (set epoll_900.lfds 0 (added input)) in
        let s2 = with_lfds polling 0 epoll_900 (set epoll_900.lfds 0 (added output)) in
        let s3 =
          with_lfds polling 0 epoll_900 (set epoll_900.lfds 0 (delete_listener (added output))) in
        (epoll_ctl kernel 900 ctl_add 700 (some input) polling ≡ ok (pos 0) s1)
        × (epoll_ctl kernel 900 ctl_add 700 (some output) s1 ≡ fail eexist s1)
        × (epoll_ctl kernel 900 ctl_mod 700 (some output) s1 ≡ ok (pos 0) s2)
        × (epoll_ctl kernel 900 ctl_del 700 none s2 ≡ ok (pos 0) s3)
        × (epoll_ctl kernel 900 ctl_del 700 none s3 ≡ fail enoent s3))
unfolding find_fd find_pollfd find_empty_listener
listener_lifecycle_example =
    listener_lifecycle polling 0 epoll_900 refl 0 900 700 0 refl refl (omega arith) (slots_free 20)
      refl kernel input output

-- The descriptor 700 has been closed, and its listener is still there.
abbrev stale_700 : EventListenFd
stale_700 = record no_listener { active = true }

abbrev stale_900 : Epollfd
stale_900 = record epoll_900 { lfds = set epoll_900.lfds 0 stale_700 }

abbrev closed_700 : State
closed_700 = record readable {
  process = record readable.process {
    fds = one_fd (record (fd_700 s_close 0) { active = false });
    pollfds = stale_900 ∷ [];
  };
}

none_active :
    (n i : ℕ) (d e : Fd)
    → d.active ≡ false
    → get_elem? (d ∷ replicate n no_fd) i ≡ some e
    → e.active ≡ true
    → ⊥
none_active n zero d e off at on = ground (arith, off, at, on)
none_active zero (suc i) d e off at on = ground (arith, at)
none_active (suc n) (suc i) d e off at on = none_active n i no_fd e refl at on

closed-Good : Good closed_700
closed-Good = record {
  size = refl;
  start = omega arith;
  below = λ i e at on.
      absurd (none_active 49 i (record (fd_700 s_close 0) { active = false }) e refl at on);
  unique = λ i j e f at_i at_j on_e on_f num.
      absurd (none_active 49 i (record (fd_700 s_close 0) { active = false }) e refl at_i on_e);
}

none-Elsewhere : (n : ℕ) → All (Elsewhere closed_700.process.fds 0 701) (replicate n no_listener)
none-Elsewhere zero = tt
none-Elsewhere (suc n) = ((λ on. cc), none-Elsewhere n)

stale_listener_example :
    (t : State) × (socket 2 1 0 closed_700 ≡ ok (pos 701) t)
    × (epoll_ctl kernel 900 ctl_add 701 (some input) t ≡ fail eexist t)
unfolding find_pollfd find_empty
stale_listener_example =
    stale_listener closed_700 0 stale_900 refl 900 0 0 refl (replicate 20 no_listener) stale_700
      refl (omega arith) refl refl closed-Good refl (omega arith) (none-Elsewhere 20) 1 0 kernel
      input refl
