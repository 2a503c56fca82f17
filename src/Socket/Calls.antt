-- ===== src/Socket/Calls.antt =====
-- Sequences of calls of socket.c and event.c, and the tables of descriptors after them.
use shmsock.Base.{ℕ, ◌≡◌, true, List, [], ◌∷◌, Option, some, get_elem?, All, subst}
use shmsock.Machine.{ℤ, Fd, Epollfd, State, SockaddrIn, EpollEvent, External, Kernel}
use shmsock.Machine.Cmd.{ok, Cmd, Schedule, pure, ◌>>=◌, ◌>>◌}
use shmsock.Fds.{find_fd}
use shmsock.Fds.Table.{find_fd-active}
use shmsock.Fds.Keeps.{Sound, Safe, Keeps, Keeps-bind, Keeps-pure}
use shmsock.Socket.Setup.{socket, bind, listen}
use shmsock.Socket.Accept.{accept4, accept}
use shmsock.Socket.Connect.{connect_ex, connect}
use shmsock.Socket.Transfer.{send, recv, read, write, sendmsg}
use shmsock.Socket.Control.{shutdown, close, ioctl, fcntl, getsockname, getpeername}
use shmsock.Pollfds.{find_pollfd, epoll_create1}
use shmsock.Pollfds.Table.{find_pollfd-active}
use shmsock.Pollfds.Keeps.{Keeps-epoll_create1}
use shmsock.Listeners.{epoll_ctl}
use shmsock.Listeners.Keeps.{Keeps-epoll_ctl}
use shmsock.Waiting.{epoll_wait}
use shmsock.Waiting.Keeps.{Keeps-epoll_wait}
use shmsock.Poll.{PollFd, Timespec, poll, ppoll}
use shmsock.Poll.Keeps.{Keeps-poll, Keeps-ppoll}
use shmsock.Socket.Keeps.{Mild}
use shmsock.Socket.Keeps.Setup.{Keeps-socket, Keeps-bind_call, Keeps-listen}
use shmsock.Socket.Keeps.Accept.{Keeps-accept4, Keeps-accept, Keeps-getpeername}
use shmsock.Socket.Keeps.Connect.{Keeps-connect_ex, Keeps-connect}
use shmsock.Socket.Keeps.Transfer.{Keeps-send, Keeps-recv, Keeps-read, Keeps-write, Keeps-sendmsg}
use shmsock.Socket.Keeps.Control.{
  Keeps-shutdown, Keeps-close, Keeps-ioctl, Keeps-fcntl, Keeps-getsockname,
}

-- One call of the program that is linked with the library, with what others do while it sleeps.
pub data Call : Type 0 where
  call_socket call_fcntl call_ioctl : ℕ → ℕ → ℕ → Call
  call_bind call_getsockname call_getpeername : ℕ → Option SockaddrIn → Call
  call_listen call_shutdown : ℕ → ℕ → Call
  call_accept call_connect call_connect_ex : ℕ → Option SockaddrIn → Schedule → Call
  call_accept4 : ℕ → Option SockaddrIn → ℕ → Schedule → Call
  call_send : ℕ → List ℕ → ℕ → ℕ → Call
  call_recv : ℕ → ℕ → ℕ → Schedule → Call
  call_read : ℕ → ℕ → Schedule → Call
  call_write : ℕ → List ℕ → ℕ → Call
  call_sendmsg : ℕ → List (List ℕ × ℕ) → ℕ → Call
  call_close call_epoll_create1 : ℕ → Call
  call_epoll_ctl : ℕ → ℕ → ℕ → Option EpollEvent → Call
  call_epoll_wait : ℕ → ℕ → ℤ → Schedule → Call
  call_poll : List PollFd → ℤ → Schedule → Call
  call_ppoll : List PollFd → Option Timespec → Schedule → Call

-- The command without its result.
abbrev discard : {A : Type 0} → Cmd A → Cmd (Unit {0})
discard m = m >>= λ r. pure tt

module _ (ext : External) (kernel : Kernel) where
  unfoldable pub run_call : Call → Cmd (Unit {0})
  run_call (call_socket domain type protocol) = discard (socket domain type protocol)
  run_call (call_bind sockfd addr) = discard (bind sockfd addr)
  run_call (call_listen sockfd backlog) = discard (listen ext sockfd backlog)
  run_call (call_accept sockfd addr w) = discard (accept ext sockfd addr w)
  run_call (call_accept4 sockfd addr flags w) = discard (accept4 ext sockfd addr flags w)
  run_call (call_connect sockfd addr w) = discard (connect ext sockfd addr w)
  run_call (call_connect_ex sockfd addr w) = discard (connect_ex ext sockfd addr w)
  run_call (call_send sockfd buf len flags) = discard (send ext sockfd buf len flags)
  run_call (call_recv sockfd len flags w) = discard (recv ext sockfd len flags w)
  run_call (call_read sockfd count w) = discard (read ext kernel sockfd count w)
  run_call (call_write sockfd buf count) = discard (write ext kernel sockfd buf count)
  run_call (call_sendmsg sockfd pieces flags) = discard (sendmsg ext sockfd pieces flags)
  run_call (call_shutdown sockfd how) = discard (shutdown sockfd how)
  run_call (call_close sockfd) = discard (close ext kernel sockfd)
  run_call (call_ioctl sockfd request argp) = discard (ioctl ext kernel sockfd request argp)
  run_call (call_fcntl sockfd cmd arg) = discard (fcntl ext kernel sockfd cmd arg)
  run_call (call_getsockname sockfd addr) = discard (getsockname sockfd addr)
  run_call (call_getpeername sockfd addr) = discard (getpeername sockfd addr)
  run_call (call_epoll_create1 flags) = discard (epoll_create1 flags)
  run_call (call_epoll_ctl epfd op sockfd event) = discard (epoll_ctl kernel epfd op sockfd event)
  run_call (call_epoll_wait epfd max timeout w) = discard (epoll_wait ext kernel epfd max timeout w)
  run_call (call_poll fds timeout w) = discard (poll ext kernel fds timeout w)
  run_call (call_ppoll fds tmo_p w) = discard (ppoll ext kernel fds tmo_p w)

  unfoldable pub run_calls : List Call → Cmd (Unit {0})
  run_calls [] = pure tt
  run_calls (c ∷ cs) = do run_call c; run_calls cs

-- What the others do during the call leaves the tables of this process as they should be.
abbrev pub MildCall : Call → Type 0
MildCall (call_accept sockfd addr w) = Mild w
MildCall (call_accept4 sockfd addr flags w) = Mild w
MildCall (call_connect sockfd addr w) = Mild w
MildCall (call_connect_ex sockfd addr w) = Mild w
MildCall (call_recv sockfd len flags w) = Mild w
MildCall (call_read sockfd count w) = Mild w
MildCall (call_epoll_wait epfd max timeout w) = Mild w
MildCall (call_poll fds timeout w) = Mild w
MildCall (call_ppoll fds tmo_p w) = Mild w
MildCall _ = Unit

module _ (ext : External) (kernel : Kernel) where
  Keeps-discard : {A : Type 0} (m : Cmd A) → Keeps m → Keeps (discard m)
  Keeps-discard m k = Keeps-bind m _ k (λ r. Keeps-pure tt)

  Keeps-run_call : (c : Call) → MildCall c → Keeps (run_call ext kernel c)
  unfolding run_call
  Keeps-run_call (call_socket domain type protocol) m =
      Keeps-discard _ (Keeps-socket domain type protocol)
  Keeps-run_call (call_bind sockfd addr) m = Keeps-discard _ (Keeps-bind_call sockfd addr)
  Keeps-run_call (call_listen sockfd backlog) m = Keeps-discard _ (Keeps-listen ext sockfd backlog)
  Keeps-run_call (call_accept sockfd addr w) m = Keeps-discard _ (Keeps-accept ext sockfd addr w m)
  Keeps-run_call (call_accept4 sockfd addr flags w) m =
      Keeps-discard _ (Keeps-accept4 ext sockfd addr flags w m)
  Keeps-run_call (call_connect sockfd addr w) m =
      Keeps-discard _ (Keeps-connect ext sockfd addr w m)
  Keeps-run_call (call_connect_ex sockfd addr w) m =
      Keeps-discard _ (Keeps-connect_ex ext sockfd addr w m)
  Keeps-run_call (call_send sockfd buf len flags) m =
      Keeps-discard _ (Keeps-send ext sockfd buf len flags)
  Keeps-run_call (call_recv sockfd len flags w) m =
      Keeps-discard _ (Keeps-recv ext sockfd len flags w m)
  Keeps-run_call (call_read sockfd count w) m =
      Keeps-discard _ (Keeps-read ext kernel sockfd count w m)
  Keeps-run_call (call_write sockfd buf count) m =
      Keeps-discard _ (Keeps-write ext kernel sockfd buf count)
  Keeps-run_call (call_sendmsg sockfd pieces flags) m =
      Keeps-discard _ (Keeps-sendmsg ext sockfd pieces flags)
  Keeps-run_call (call_shutdown sockfd how) m = Keeps-discard _ (Keeps-shutdown ext sockfd how)
  Keeps-run_call (call_close sockfd) m = Keeps-discard _ (Keeps-close ext kernel sockfd)
  Keeps-run_call (call_ioctl sockfd request argp) m =
      Keeps-discard _ (Keeps-ioctl ext kernel sockfd request argp)
  Keeps-run_call (call_fcntl sockfd cmd arg) m =
      Keeps-discard _ (Keeps-fcntl ext kernel sockfd cmd arg)
  Keeps-run_call (call_getsockname sockfd addr) m =
      Keeps-discard _ (Keeps-getsockname ext sockfd addr)
  Keeps-run_call (call_getpeername sockfd addr) m =
      Keeps-discard _ (Keeps-getpeername ext sockfd addr)
  Keeps-run_call (call_epoll_create1 flags) m = Keeps-discard _ (Keeps-epoll_create1 flags)
  Keeps-run_call (call_epoll_ctl epfd op sockfd event) m =
      Keeps-discard _ (Keeps-epoll_ctl kernel epfd op sockfd event)
  Keeps-run_call (call_epoll_wait epfd max timeout w) m =
      Keeps-discard _ (Keeps-epoll_wait ext kernel epfd max timeout w m)
  Keeps-run_call (call_poll fds timeout w) m =
      Keeps-discard _ (Keeps-poll ext kernel fds timeout w m)
  Keeps-run_call (call_ppoll fds tmo_p w) m = Keeps-discard _ (Keeps-ppoll ext kernel fds tmo_p w m)

  Keeps-run_calls : (cs : List Call) → All MildCall cs → Keeps (run_calls ext kernel cs)
  unfolding run_calls
  Keeps-run_calls [] m = Keeps-pure tt
  Keeps-run_calls (c ∷ cs) m = Keeps-bind _ _ (Keeps-run_call c m.0) (λ u. Keeps-run_calls cs m.1)

  -- After any sequence of calls of socket.c and event.c that comes to an end, from a state whose
  -- tables are as they should be, and where what happens during sleeps leaves them so, both tables
  -- are so again: a table has its size (MAX_FDS, MAX_POLLFDS), active entries have numbers from
  -- FD_START and below currentMaxFd, or from POLLFD_START and below randomPollFd, and no two the
  -- same, and each epoll descriptor has MAX_FDS_LISTEN listeners. Then `getFdByNum` and
  -- `getPollfdByNum` find exactly the active entry with a number.
  pub calls_lem :
      (cs : List Call) (s t : State)
      → Sound s
      → All MildCall cs
      → run_calls ext kernel cs s ≡ ok tt t
      → Sound t
        × ((i : ℕ) (d : Fd)
            → get_elem? t.process.fds i ≡ some d
            → d.active ≡ true
            → find_fd d.num t.process.fds ≡ some i)
        × ((k : ℕ) (e : Epollfd)
            → get_elem? t.process.pollfds k ≡ some e
            → e.active ≡ true
            → find_pollfd e.num t.process.pollfds ≡ some k)
  calls_lem cs s t h m r =
      let sound : Sound t = subst Safe r ((Keeps-run_calls cs m).at s h) in
      (sound, find_fd-active sound.0, find_pollfd-active sound.1)
