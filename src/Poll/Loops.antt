-- ===== src/Poll/Loops.antt =====
-- The loops of `poll` that add the descriptors to its epoll descriptor and remove them.
use shmsock.Base.{
  ℕ, suc, ◌^◌, ◌≤◌, ◌<◌, ◌≡◌, refl, sym, ap, subst, ◌∙◌, ◌≢◌, true, false, List, [], ◌∷◌, ◌++◌,
  append_assoc, Option, some, arith, ◌==◌, get_elem?, length, drop, map, All, All-append, set-set,
  set-get_elem?,
}
use shmsock.Llist.{Ptr, null}
use shmsock.Machine.{
  s_listen, s_connecting, EventListenFd, Epollfd, Fd, Connection, Block, State, Kernel,
}
use shmsock.Machine.Cmd.{ok}
use shmsock.Fds.{find_fd, fd_start, in_state}
use shmsock.Fds.Table.{find_fd-some}
use shmsock.Pollfds.{find_pollfd, delete_listener}
use shmsock.Listeners.Lifecycle.{Other, with_lfds, again}
use shmsock.Poll.{PollFd, poll_event, poll_add, poll_del}
use shmsock.Poll.Slots.{IsOn, IsOff, listener, add_slot, del_slot, found_slot}

-- A descriptor of this library in use that neither listens nor connects, with its connection.
pub record Watched (ds : List Fd) (m : Ptr → Option (Block Connection)) (p : PollFd) : Type 0 where
  pub index : ℕ
  pub entry : Fd
  pub block : Block Connection
  pub found : find_fd p.fd ds ≡ some index
  pub own : fd_start ≤ p.fd
  pub at : get_elem? ds index ≡ some entry
  pub no_listen : in_state s_listen entry ≡ false
  pub no_connect : in_state s_connecting entry ≡ false
  pub ne_null : entry.conn ≢ null
  pub holds : m entry.conn ≡ some block
  pub low : p.events < 2 ^ 15

-- No two of the array for one descriptor.
abbrev pub Distinct : List PollFd → Type 0
Distinct [] = Unit
Distinct (p ∷ ps) = All (λ q. (p.fd == q.fd) ≡ false) ps × Distinct ps

module _ (ds : List Fd) (m : Ptr → Option (Block Connection)) where
  -- The listeners for the descriptors, the first at index `j` of the array.
  abbrev pub on_from : (ps : List PollFd) → All (Watched ds m) ps → ℕ → List EventListenFd
  on_from [] ws j = []
  on_from (p ∷ ps) (w, ws) j = listener w.index (poll_event j p) ∷ on_from ps ws (suc j)

  pub on_from-length :
      (ps : List PollFd) (ws : All (Watched ds m) ps) (j : ℕ) → length (on_from ps ws j) ≡ length ps
  on_from-length [] ws j = refl
  on_from-length (p ∷ ps) (w, ws) j = ap suc (on_from-length ps ws (suc j))

with_lfds_twice :
    (s : State) (k : ℕ) (e : Epollfd) (ls ls' : List EventListenFd)
    → with_lfds (with_lfds s k e ls) k (record e { lfds = ls }) ls' ≡ with_lfds s k e ls'
with_lfds_twice s k e ls ls' =
    ap (λ es. record s { process = record s.process { pollfds = es } })
      (set-set s.process.pollfds k (record e { lfds = ls }) (record e { lfds = ls' }))

with_lfds_same :
    (s : State) (k : ℕ) (e : Epollfd) (ls : List EventListenFd)
    → get_elem? s.process.pollfds k ≡ some e
    → e.lfds ≡ ls
    → s ≡ with_lfds s k e ls
with_lfds_same s k e ls at layout =
    sym (
      ap (λ es. record s { process = record s.process { pollfds = es } })
        (set-get_elem? s.process.pollfds k at))
    ∙ ap (λ x. with_lfds s k e x) layout

-- One more listener, for another descriptor than those that are still to come.
others_more :
    (ds : List Fd) (on : List EventListenFd) (y : EventListenFd) (d : Fd) (num : ℕ)
    → get_elem? ds y.fd ≡ some d
    → d.num ≡ num
    → (ps : List PollFd) → All (λ q. All (Other ds q.fd) on) ps
    → All (λ q. (num == q.fd) ≡ false) ps
    → All (λ q. All (Other ds q.fd) (on ++ y ∷ [])) ps
others_more ds on y d num at own [] others differ = tt
others_more ds on y d num at own (q ∷ ps) (other, others) (ne, differ) = (
  All-append (Other ds q.fd) on (y ∷ []) other ((λ live. (d, at, rw own ne)), tt),
  others_more ds on y d num at own ps others differ,
)

module _ (kernel : Kernel) (epfd k : ℕ) (ds : List Fd) (m : Ptr → Option (Block Connection)) where
  pub poll_add_lem :
      (ps : List PollFd) (ws : All (Watched ds m) ps) (on off : List EventListenFd) (j : ℕ)
      (s : State) (e : Epollfd)
      → s.process.fds ≡ ds
      → get_elem? s.process.pollfds k ≡ some e
      → find_pollfd epfd s.process.pollfds ≡ some k
      → e.lfds ≡ on ++ off
      → length ps ≤ length off
      → All IsOn on
      → All IsOff off
      → All (λ q. All (Other ds q.fd) on) ps
      → Distinct ps
      → poll_add kernel epfd j ps s
        ≡ ok true (with_lfds s k e (on ++ (on_from ds m ps ws j ++ drop (length ps) off)))
  unfolding poll_add
  poll_add_lem [] ws on off j s e same at_k found layout room ons offs others apart =
      ap (ok true) (with_lfds_same s k e (on ++ off) at_k layout)
  poll_add_lem (p ∷ ps) ws on [] j s e same at_k found layout room ons offs others apart =
      absurd (omega (arith, room))
  poll_add_lem (p ∷ ps) (w, ws) on (x ∷ off) j s e same at_k found layout room ons (free, offs)
        (other, others) (differ, apart) =
      let y = listener w.index (poll_event j p) in
      let ls = on ++ y ∷ off in
      let found_d : find_fd p.fd s.process.fds ≡ some w.index = ap (find_fd p.fd) same ∙ w.found in
      let run =
        add_slot s k e at_k epfd p.fd w.index found found_d w.own kernel on x off (poll_event j p)
          layout ons free offs (subst (λ fs. All (Other fs p.fd) on) (sym same) other) in
      let (d, at_d, used, num) = find_fd-some p.fd ds w.index w.found in
      let rest =
        poll_add_lem ps ws (on ++ y ∷ []) off (suc j) (with_lfds s k e ls) (record e { lfds = ls })
          same (again s k e at_k 0 (record e { lfds = ls })) (found_slot s k e epfd at_k found ls)
          (sym (append_assoc on (y ∷ []) off)) (omega (arith, room))
          (All-append IsOn on (y ∷ []) ons (refl, tt)) offs
          (others_more ds on y d p.fd at_d num ps others differ) apart in
      simp run (
        rest
        ∙ ap (ok true) (
            with_lfds_twice s k e ls _
            ∙ ap (with_lfds s k e)
                (append_assoc on (y ∷ []) (on_from ds m ps ws (suc j) ++ drop (length ps) off))))

  pub poll_del_lem :
      (ps : List PollFd) (ws : All (Watched ds m) ps) (gone tail : List EventListenFd) (j : ℕ)
      (s : State) (e : Epollfd)
      → s.process.fds ≡ ds
      → get_elem? s.process.pollfds k ≡ some e
      → find_pollfd epfd s.process.pollfds ≡ some k
      → e.lfds ≡ gone ++ (on_from ds m ps ws j ++ tail)
      → All IsOff gone
      → poll_del kernel epfd ps s
        ≡ ok true (with_lfds s k e (gone ++ (map delete_listener (on_from ds m ps ws j) ++ tail)))
  unfolding poll_del
  poll_del_lem [] ws gone tail j s e same at_k found layout offs =
      ap (ok true) (with_lfds_same s k e (gone ++ tail) at_k layout)
  poll_del_lem (p ∷ ps) (w, ws) gone tail j s e same at_k found layout offs =
      let l = listener w.index (poll_event j p) in
      let l' = delete_listener l in
      let more = on_from ds m ps ws (suc j) in
      let ls = gone ++ l' ∷ (more ++ tail) in
      let found_d : find_fd p.fd s.process.fds ≡ some w.index = ap (find_fd p.fd) same ∙ w.found in
      let run =
        del_slot s k e at_k epfd p.fd w.index found found_d w.own kernel gone l (more ++ tail)
          layout offs refl refl in
      let rest =
        poll_del_lem ps ws (gone ++ l' ∷ []) tail (suc j) (with_lfds s k e ls)
          (record e { lfds = ls }) same (again s k e at_k 0 (record e { lfds = ls }))
          (found_slot s k e epfd at_k found ls) (sym (append_assoc gone (l' ∷ []) (more ++ tail)))
          (All-append IsOff gone (l' ∷ []) offs (refl, tt)) in
      simp run (
        rest
        ∙ ap (ok true) (
            with_lfds_twice s k e ls _
            ∙ ap (with_lfds s k e)
                (append_assoc gone (l' ∷ []) (map delete_listener more ++ tail))))
