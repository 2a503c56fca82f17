-- ===== src/Examples/Accepting.antt =====
-- `accept4` in the concrete setting.
use shmsock.Base.{◌≡◌, refl, ap, sym, ◌∙◌, [], ◌∷◌, none, some, arith, inl, inr, All, replicate}
use shmsock.Llist.{null}
use shmsock.Machine.{
  ebadf, pos, server, s_open, s_listen, c_create, ConnectionState, Connection, Fd, State, Block,
}
use shmsock.Machine.Cmd.{ok, fault}
use shmsock.Fds.{fail, find_fd, find_empty}
use shmsock.Fds.Keeps.{Good}
use shmsock.Connection.Search.{IsInterface, first_pending}
use shmsock.Connection.AnyIface.{Slot}
use shmsock.Socket.Accept.{accept4}
use shmsock.Socket.Accept.Handover.{
  Accepts, accept_full, accept4_lem, accept_unclosable, after_accept,
}
use shmsock.Pollfds.{find_pollfd}
use shmsock.Socket.Control.{close}
use shmsock.Examples.{kernel, ext, ext_laws, iface, memory, process, no_fd}
use shmsock.Examples.Descriptors.{one_fd, fd_700, at_700, one_active, empty_conn, some_address}

one_IsInterface :
    (st : ConnectionState) → IsInterface (memory (500 ∷ []) (empty_conn st)) 100 (iface (500 ∷ []))
one_IsInterface st = record {
  ne_null = λ e. omega arith;
  holds = refl;
  owned = refl;
  listed = ((record { arena = 124; value = empty_conn st }, refl, λ e. omega arith), tt);
}

pub one_slots :
    (st : ConnectionState) → All (Slot (memory (500 ∷ []) (empty_conn st))) (100 ∷ null ∷ [])
one_slots st = (inr (iface (500 ∷ []), one_IsInterface st), (inl refl, tt))

-- The descriptor 700 listens on port 80 of every interface.
abbrev pub listening_fd : Fd
listening_fd = record (fd_700 s_listen 0) { conn = 499 }

abbrev listening : State
listening = at_700 server (500 ∷ []) (empty_conn c_create) listening_fd

one_Accepts : Accepts listening 700 0 listening_fd
unfolding find_fd
one_Accepts = record { found = refl; at = refl; live = refl; slots = one_slots c_create }

-- The same with all entries of the table in use.
abbrev crowded : State
crowded = record {
  memory = memory (500 ∷ []) (empty_conn c_create);
  process = process server (listening_fd ∷ replicate 49 (fd_700 s_open 0)) 750;
}

full_Accepts : Accepts crowded 700 0 listening_fd
unfolding find_fd
full_Accepts = record { found = refl; at = refl; live = refl; slots = one_slots c_create }

accept_full_example : accept4 ext 700 none 0 [] crowded ≡ fault
unfolding find_empty first_pending
accept_full_example =
    accept_full ext ext_laws crowded 700 0 listening_fd full_Accepts none 0 [] (λ e. omega arith)
      refl

abbrev offered : Block Connection
offered = record { arena = 124; value = empty_conn c_create }

listening-Good : Good listening
listening-Good = record {
  size = refl;
  start = omega arith;
  below = λ i e at on.
      let num = ap (λ (x : Fd). x.num) (one_active listening_fd 49 i e at on).1 in
      omega (arith, num);
  unique = λ i j e f at_i at_j on_e on_f num.
      (one_active listening_fd 49 i e at_i on_e).0
      ∙ sym (one_active listening_fd 49 j f at_j on_f).0;
}

accept4_lem_example :
    let t = after_accept ext ext_laws listening 700 0 listening_fd one_Accepts 0 1 no_fd offered in
    (accept4 ext 700 (some some_address) 0 [] listening
      ≡ ok (pos 701, some (record { sin_family = 2; sin_port = 9000; sin_addr = 2 })) t)
    × (find_fd 701 t.process.fds ≡ some 1)
    × Good t
unfolding find_empty first_pending
accept4_lem_example =
    accept4_lem ext ext_laws listening 700 0 listening_fd one_Accepts 0 1 no_fd offered
      (iface (500 ∷ [])) listening-Good refl refl (λ e. omega arith) refl (λ e. omega arith) refl
      some_address []

-- The same with the number 900 next.
abbrev late : State
late = record listening { process = process server (one_fd listening_fd) 900 }

late_Accepts : Accepts late 700 0 listening_fd
unfolding find_fd
late_Accepts = record { found = refl; at = refl; live = refl; slots = one_slots c_create }

late-Good : Good late
late-Good = record {
  size = refl;
  start = omega arith;
  below = λ i e at on.
      let num = ap (λ (x : Fd). x.num) (one_active listening_fd 49 i e at on).1 in
      omega (arith, num);
  unique = listening-Good.unique;
}

accept_unclosable_example :
    let t = after_accept ext ext_laws late 700 0 listening_fd late_Accepts 0 1 no_fd offered in
    (accept4 ext 700 (some some_address) 0 [] late
      ≡ ok (pos 900, some (record { sin_family = 2; sin_port = 9000; sin_addr = 2 })) t)
    × (close ext kernel 900 t ≡ fail ebadf t)
unfolding find_empty first_pending find_pollfd
accept_unclosable_example =
    accept_unclosable ext ext_laws late 700 0 listening_fd late_Accepts 0 1 no_fd offered
      (iface (500 ∷ [])) late-Good refl refl (λ e. omega arith) refl (λ e. omega arith) refl
      some_address [] kernel (omega arith) refl
