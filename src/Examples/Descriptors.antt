-- ===== src/Examples/Descriptors.antt =====
-- States with one descriptor on one connection, which the other examples share.
use shmsock.Base.{
  ℕ, ◌≡◌, refl, ap, sym, ◌∙◌, true, List, [], ◌∷◌, some, arith, replicate, get_elem?, zero, suc,
}
use shmsock.Llist.{Ptr}
use shmsock.Machine.{
  SocketState, Side, client, ConnectionState, Connection, Fd, Process, State, SockaddrIn,
}
use shmsock.Machine.Cmd.{Run, ok, fault, asleep, Cmd}
use shmsock.Fds.Keeps.{Good}
use shmsock.Connection.Stream.{Connected}
use shmsock.Examples.{connection, packet, empty_packet, memory, process, no_fd}

-- The descriptor 700 in a state, on the connection at 500; whether it blocks is in the flags.
abbrev pub fd_700 : SocketState → ℕ → Fd
fd_700 st flags = record {
  num = 700;
  state = st;
  listen_port = 80;
  listen_address = 0;
  flag_nonblock = flags;
  conn = 500;
  active = true;
}

abbrev pub one_fd : Fd → List Fd
one_fd d = d ∷ replicate 49 no_fd

-- A state whose table holds one descriptor.
abbrev pub at_700 : Side → List Ptr → Connection → Fd → State
at_700 side conns c d = record { memory = memory conns c; process = process side (one_fd d) 701 }

-- Only the first entry of a table with one descriptor is active.
pub one_active :
    (d : Fd) (n i : ℕ) (e : Fd)
    → get_elem? (d ∷ replicate n no_fd) i ≡ some e
    → e.active ≡ true
    → (i ≡ 0) × (d ≡ e)
one_active d n zero e at on = (refl, ground (arith, at))
one_active d n (suc i) e at on = absurd (free_inactive n i e at on)
  where
    free_inactive :
        (n i : ℕ) (e : Fd) → get_elem? (replicate n no_fd) i ≡ some e → e.active ≡ true → ⊥
    free_inactive zero i e at on = ground (arith, at)
    free_inactive (suc n) zero e at on = ground (arith, at, on)
    free_inactive (suc n) (suc i) e at on = free_inactive n i e at on

pub one-Good :
    (side : Side) (conns : List Ptr) (c : Connection) (st : SocketState) (flags : ℕ)
    → Good (at_700 side conns c (fd_700 st flags))
one-Good side conns c st flags = record {
  size = refl;
  start = omega arith;
  below = λ i e at on.
      let num = ap (λ (x : Fd). x.num) (one_active (fd_700 st flags) 49 i e at on).1 in
      omega (arith, num);
  unique = λ i j e f at_i at_j on_e on_f num.
      (one_active (fd_700 st flags) 49 i e at_i on_e).0
      ∙ sym (one_active (fd_700 st flags) 49 j f at_j on_f).0;
}

abbrev pub empty_conn : ConnectionState → Connection
empty_conn st = connection st [] []

-- The packet at 600, and behind an empty one.
abbrev pub packet_conn : ConnectionState → List Ptr → Connection
packet_conn st packets = connection st packets []

pub empty_Connected :
    (st : ConnectionState) (conns : List Ptr)
    → Connected (memory conns (empty_conn st)) 500 (empty_conn st)
empty_Connected st conns = record {
  ne_null = λ e. omega arith;
  holds = refl;
  to_server = record { owned = refl; in_arena = refl; packets = tt; distinct = tt };
  to_client = record { owned = refl; in_arena = refl; packets = tt; distinct = tt };
  apart = λ p i. refl;
}

pub one_Connected :
    (st : ConnectionState) (conns : List Ptr)
    → Connected (memory conns (packet_conn st (600 ∷ []))) 500 (packet_conn st (600 ∷ []))
one_Connected st conns = record {
  ne_null = λ e. omega arith;
  holds = refl;
  to_server = record {
    owned = refl;
    in_arena = refl;
    packets = ((packet, refl, λ e. omega arith, refl, omega arith), tt);
    distinct = (refl, tt);
  };
  to_client = record { owned = refl; in_arena = refl; packets = tt; distinct = tt };
  apart = λ p i. refl;
}

pub two_Connected :
    (st : ConnectionState) (conns : List Ptr)
    → Connected
        (memory conns (packet_conn st (601 ∷ 600 ∷ [])))
        500
        (packet_conn st (601 ∷ 600 ∷ []))
two_Connected st conns = record {
  ne_null = λ e. omega arith;
  holds = refl;
  to_server = record {
    owned = refl;
    in_arena = refl;
    packets = (
      (empty_packet, refl, λ e. omega arith, refl, omega arith),
      ((packet, refl, λ e. omega arith, refl, omega arith), tt),
    );
    distinct = (refl, (refl, tt));
  };
  to_client = record { owned = refl; in_arena = refl; packets = tt; distinct = tt };
  apart = λ p i. refl;
}

abbrev pub some_address : SockaddrIn
some_address = record { sin_family = 0; sin_port = 0; sin_addr = 0 }

-- The memory that both processes see, as a call of the other one leaves it.
abbrev came_back : {A : Type 0} → State → Run A → State
came_back s (ok a t) = record s { memory = t.memory }
came_back s fault = s
came_back s asleep = s

-- What a call of another process does while this one sleeps.
abbrev pub meanwhile : {A : Type 0} → Process → Cmd A → State → State
meanwhile other call s = came_back s (call (record { memory = s.memory; process = other }))

abbrev pub peer_process : Process
peer_process = process client (replicate 50 no_fd) 700
