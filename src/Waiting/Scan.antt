-- ===== src/Waiting/Scan.antt =====
-- The loop of `epoll_pwait` over level-triggered listeners finds what is ready.
use shmsock.Base.{
  ℕ, suc, ◌+◌, ◌-◌, ◌≤◌, ◌<◌, ◌≡◌, refl, sym, ap, ap₂, subst, ◌∙◌, inl, inr, false, List, [], ◌∷◌,
  ◌++◌, append-nil, append_assoc, Option, none, some, arith, if◌then◌else◌, ◌==◌, length,
  length-append, get_elem?, ltb, take, take-nil, take-append, bit_and, All, All-map, eq_of_==,
  Bool-cases, ==_refl,
}
use shmsock.Llist.{Ptr, null}
use shmsock.Machine.{
  Side, EpollEvent, EventListenFd, Epollfd, Connection, Block, Memory, Fd, Process, State, External,
  ExternalLaws,
}
use shmsock.Machine.Cmd.{ok, load_fd, load_conn}
use shmsock.Pollfds.{load_pollfd, max_fds_listen}
use shmsock.Listeners.Levels.{level_of, level_run, with_level, own_lt-set}
use shmsock.Waiting.{check_and_set_events, check_level, visit_listener, scan}
use shmsock.Waiting.Reports.{
  one_event, of_fd, ready, Level, SameButLevels, same_refl, same_trans, ready-same, Level-same,
}

-- What one listener reports.
abbrev pub report : State → EventListenFd → List EpollEvent
report s l = if l.active then of_fd s.memory s.process.side l (get_elem? s.process.fds l.fd) else []

-- The state with the level-triggered mask of the block at `p` computed anew.
abbrev releveled : State → Ptr → Block Connection → State
releveled s p b = record s {
  memory = with_level s.memory s.process.side p b (level_of s.process.side b.value);
}

releveled-same :
    (s : State) (p : Ptr) (b : Block Connection)
    → s.memory.conns p ≡ some b
    → SameButLevels s (releveled s p b)
releveled-same s p b at = record {
  process_same = refl;
  ifaces_same = refl;
  entries_same = refl;
  conns_same = λ q. elim (Bool-cases (p == q)) [
    | inl e ↦ inr (
      b,
      level_of s.process.side b.value,
      subst (λ x. s.memory.conns x ≡ some b) (eq_of_== p q e) at,
      simp e,
    )
    | inr e ↦ inl (simp e)
  ];
}

module _ (ext : External) (laws : ExternalLaws ext) (s : State) (k : ℕ) (e : Epollfd)
    (at_k : get_elem? s.process.pollfds k ≡ some e) where
  visit_lem :
      (j : ℕ) (l : EventListenFd) (acc : List EpollEvent)
      → get_elem? e.lfds j ≡ some l
      → Level s l
      → (t : State) × (visit_listener ext k j acc s ≡ ok (acc ++ report s l) t) × SameButLevels s t
  unfolding visit_listener load_pollfd load_fd check_and_set_events check_level load_conn
  visit_lem j l acc at_j level = elim (Bool-cases l.active) [
    | inr off ↦ (s, simp (at_k, at_j, off, append-nil), same_refl s)
    | inl on ↦
        let (d, b, at, live, no_listen, no_connect, lt, ne, holds) = level on in
        let ne' : (d.conn == null) ≡ false = ground (arith, ne) in
        (
          releveled s d.conn b,
          elim (Bool-cases (bit_and (level_of s.process.side b.value) l.event.events == 0)) [
            | inl z ↦ simp (
              at_k,
              at_j,
              on,
              at,
              live,
              no_listen,
              no_connect,
              lt,
              ne',
              level_run ext laws s d.conn b ne holds,
              own_lt-set,
              holds,
              z,
              append-nil,
              ==_refl,
            )
            | inr z ↦ simp (
              at_k,
              at_j,
              on,
              at,
              live,
              no_listen,
              no_connect,
              lt,
              ne',
              level_run ext laws s d.conn b ne holds,
              own_lt-set,
              holds,
              z,
              ==_refl,
            )
          ],
          releveled-same s d.conn b holds,
        )
  ]

one_event-length : (l : EventListenFd) (m : ℕ) → length (one_event l m) ≤ 1
one_event-length l m = ground arith

of_fd-length :
    (m : Memory) (side : Side) (l : EventListenFd) (o : Option Fd) → length (of_fd m side l o) ≤ 1
of_fd-length m side l none = omega arith
of_fd-length m side l (some d) = one_event-length l _

report-length : (s : State) (l : EventListenFd) → length (report s l) ≤ 1
report-length s l = elim (Bool-cases l.active) [
  | inr off ↦ rw off (omega arith)
  | inl on ↦ rw on (of_fd-length s.memory s.process.side l (get_elem? s.process.fds l.fd))
]

abbrev Scans : External → ℕ → ℕ → ℕ → ℕ → List EpollEvent → State → List EpollEvent → Type 0
Scans ext k max n j acc s evs =
    (t : State) × (scan ext k max n j acc s ≡ ok evs t) × SameButLevels s t

module _ (ext : External) (laws : ExternalLaws ext) (k max : ℕ) (e : Epollfd) where
  suffix_scan :
      (ls : List EventListenFd) (j : ℕ) (acc : List EpollEvent) (s : State)
      → get_elem? s.process.pollfds k ≡ some e
      → ((i : ℕ) → get_elem? e.lfds (j + i) ≡ get_elem? ls i)
      → All (Level s) ls
      → length acc ≤ max
      → Scans ext k max (length ls) j acc s (acc ++ take (max - length acc) (ready s ls))
  unfolding scan
  suffix_scan [] j acc s at_k suffix levels room = (
    s,
    ap (λ x. ok x s) (sym (append-nil acc) ∙ ap (◌++◌ acc) (sym (take-nil (max - length acc)))),
    same_refl s,
  )
  suffix_scan (l ∷ ls) j acc s at_k suffix levels room = elim (Bool-cases (ltb (length acc) max)) [
    | inr full ↦
        let no_room : max - length acc ≡ 0 = ground (arith, full) in
        (s, simp (full, no_room, append-nil), same_refl s)
    | inl space ↦
        let free : length acc < max = ground (arith, space) in
        let size = length-append acc (report s l) in
        let room' : length (acc ++ report s l) ≤ max =
          omega (arith, size, free, report-length s l) in
        let (t, run, same) =
          visit_lem ext laws s k e at_k j l acc (ap (get_elem? e.lfds) (omega arith) ∙ suffix 0)
            levels.0 in
        let (u, runs, same') =
          suffix_scan ls (suc j) (acc ++ report s l) t
            (ap (λ (q : Process). get_elem? q.pollfds k) same.process_same ∙ at_k)
            (λ i.
              ap (get_elem? e.lfds) (let q : suc j + i ≡ j + suc i = omega arith in q)
              ∙ suffix (suc i))
            (All-map (Level s) (Level t) (Level-same s t same) ls levels.1) room' in
        (
          u,
          let run' : scan ext k max (suc (length ls)) j acc s
                  ≡ ok ((acc ++ report s l) ++ take (max - length (acc ++ report s l)) (ready t ls))
                      u =
                simp (space, run, runs) in
              run'
              ∙ ap (λ x. ok x u)
                  (let rest : max - length (acc ++ report s l)
                        ≡ max - length acc - length (report s l) =
                      omega (arith, size) in
                    append_assoc acc (report s l) _
                    ∙ ap (◌++◌ acc) (
                        ap (λ x. report s l ++ x) (ap₂ take rest (ready-same s t same ls))
                        ∙ sym (
                            take-append (max - length acc) (report s l) (ready s ls)
                              (omega (arith, free, report-length s l))))),
          same_trans s t u same same',
        )
  ]

-- The scan of all the listeners finds what is ready, as much of it as the array holds.
pub scan_lem :
    (ext : External) (laws : ExternalLaws ext) (k max : ℕ) (e : Epollfd) (s : State)
    → get_elem? s.process.pollfds k ≡ some e
    → length e.lfds ≡ max_fds_listen
    → All (Level s) e.lfds
    → (t : State) × (scan ext k max max_fds_listen 0 [] s ≡ ok (take max (ready s e.lfds)) t)
      × SameButLevels s t
scan_lem ext laws k max e s at_k size levels =
    let (t, run, same) =
      suffix_scan ext laws k max e e.lfds 0 [] s at_k (λ i. ap (get_elem? e.lfds) (omega arith))
        levels (omega arith) in
    (
      t,
      subst (λ n. scan ext k max n 0 [] s ≡ ok (take max (ready s e.lfds)) t) size
          (run ∙ ap (λ m. ok (take m (ready s e.lfds)) t) (omega arith)),
      same,
    )
