-- ===== src/Waiting/Reports.antt =====
-- What is ready for the listeners of an epoll descriptor, and states that differ only in the masks
-- that looking for it writes.
use shmsock.Base.{
  ℕ, ◌≡◌, refl, sym, ap, ap₂, subst, ◌∙◌, ◌≢◌, ◌⊎◌, inl, inr, true, false, List, [], ◌∷◌, ◌++◌,
  Option, none, some, arith, if◌then◌else◌, ◌==◌, get_elem?, bit_and, Bool-cases, Option-cases,
}
use shmsock.Llist.{Ptr, null}
use shmsock.Machine.{
  Side, s_listen, s_connecting, EpollEvent, EventListenFd, Connection, Block, Memory, Fd, Process,
  State,
}
use shmsock.Machine.Sides.{set_own_lt_events}
use shmsock.Fds.{in_state}
use shmsock.Listeners.Levels.{level_of, set_lt-set, recv-set, state-set}
use shmsock.Waiting.{event_of}

-- What holds of the connection at a pointer.
abbrev pub level_at : Side → Option (Block Connection) → ℕ
level_at side none = 0
level_at side (some b) = level_of side b.value

abbrev pub one_event : EventListenFd → ℕ → List EpollEvent
one_event l m = if m == 0 then [] else event_of l m ∷ []

abbrev pub of_fd : Memory → Side → EventListenFd → Option Fd → List EpollEvent
of_fd m side l none = []
of_fd m side l (some d) = one_event l (bit_and (level_at side (m.conns d.conn)) l.event.events)

-- What is ready: for each active listener, the events that hold of the connection and that it
-- listens to, where there is one.
abbrev pub ready : State → List EventListenFd → List EpollEvent
ready s [] = []
ready s (l ∷ ls) =
    (if l.active then of_fd s.memory s.process.side l (get_elem? s.process.fds l.fd) else [])
    ++ ready s ls

-- A listener that is not active, or a level-triggered one for a descriptor in use that neither
-- listens nor connects, and that has a connection.
abbrev pub Level : State → EventListenFd → Type 0
Level s l =
    l.active ≡ true
    → (d : Fd) × (b : Block Connection) × (get_elem? s.process.fds l.fd ≡ some d)
      × (d.active ≡ true)
      × (in_state s_listen d ≡ false)
      × (in_state s_connecting d ≡ false)
      × (l.is_level_triggered ≡ true)
      × (d.conn ≢ null)
      × (s.memory.conns d.conn ≡ some b)

-- The same connection but for the level-triggered mask of one side.
abbrev pub SameConn : Side → Option (Block Connection) → Option (Block Connection) → Type 0
SameConn side o o' =
    (o ≡ o')
    ⊎ ((b : Block Connection) × (n : ℕ) × (o ≡ some b)
        × (o' ≡ some (record b { value = set_own_lt_events side n b.value })))

-- Nothing differs but the level-triggered masks of one side.
pub record SameButLevels (s t : State) : Type 0 where
  pub process_same : t.process ≡ s.process
  pub ifaces_same : t.memory.ifaces ≡ s.memory.ifaces
  pub entries_same : t.memory.entries ≡ s.memory.entries
  pub conns_same : (p : Ptr) → SameConn s.process.side (s.memory.conns p) (t.memory.conns p)

pub same_refl : (s : State) → SameButLevels s s
same_refl s = record {
  process_same = refl;
  ifaces_same = refl;
  entries_same = refl;
  conns_same = λ p. inl refl;
}

SameConn-trans :
    (side : Side) (o o' o'' : Option (Block Connection))
    → SameConn side o o'
    → SameConn side o' o''
    → SameConn side o o''
SameConn-trans side o o' o'' (inl e) k = subst (λ x. SameConn side x o'') (sym e) k
SameConn-trans side o o' o'' (inr (b, n, e, e')) (inl f) = inr (b, n, e, sym f ∙ e')
SameConn-trans side o o' o'' (inr (b, n, e, e')) (inr (b', n', f, f')) =
    let c : Block Connection = record b { value = set_own_lt_events side n b.value } in
    let same : b' ≡ c = ground (arith, e', f) in
    inr (
      b,
      n',
      e,
      subst (λ x. o'' ≡ some (record x { value = set_own_lt_events side n' x.value })) same f'
          ∙ rw (set_lt-set n b.value side n'),
    )

level_at-same :
    (side : Side) (o o' : Option (Block Connection))
    → SameConn side o o'
    → level_at side o' ≡ level_at side o
level_at-same side o o' (inl e) = ap (level_at side) (sym e)
level_at-same side o o' (inr (b, n, e, e')) =
    rw (e, e', recv-set n b.value side, state-set n b.value side)

module _ (s t : State) (h : SameButLevels s t) where
  pub ready-same : (ls : List EventListenFd) → ready t ls ≡ ready s ls
  ready-same [] = refl
  ready-same (l ∷ ls) =
      ap₂ ◌++◌
        (elim (Bool-cases l.active) [
          | inr off ↦ rw off refl
          | inl on ↦
              rw (on, h.process_same)
                (elim (Option-cases (get_elem? s.process.fds l.fd)) [
                  | inl e ↦ rw e refl
                  | inr (d, e) ↦
                      rw
                        (
                          e,
                          level_at-same s.process.side (s.memory.conns d.conn)
                              (t.memory.conns d.conn) (h.conns_same d.conn),
                        )
                        refl
                ])
        ])
        (ready-same ls)

  pub Level-same : (l : EventListenFd) → Level s l → Level t l
  Level-same l k on =
      let (d, b, at, live, no_listen, no_connect, level, ne, holds) = k on in
      elim (h.conns_same d.conn) [
        | inl e ↦ (
          d,
          b,
          ap (λ (q : Process). get_elem? q.fds l.fd) h.process_same ∙ at,
          live,
          no_listen,
          no_connect,
          level,
          ne,
          sym e ∙ holds,
        )
        | inr (b', n, e, e') ↦ (
          d,
          (record b' { value = set_own_lt_events s.process.side n b'.value }),
          ap (λ (q : Process). get_elem? q.fds l.fd) h.process_same ∙ at,
          live,
          no_listen,
          no_connect,
          level,
          ne,
          e',
        )
      ]

pub same_trans : (s t u : State) → SameButLevels s t → SameButLevels t u → SameButLevels s u
same_trans s t u h k = record {
  process_same = k.process_same ∙ h.process_same;
  ifaces_same = k.ifaces_same ∙ h.ifaces_same;
  entries_same = k.entries_same ∙ h.entries_same;
  conns_same = λ p.
      SameConn-trans s.process.side (s.memory.conns p) (t.memory.conns p) (u.memory.conns p)
        (h.conns_same p)
        (subst (λ (q : Process). SameConn q.side (t.memory.conns p) (u.memory.conns p))
          h.process_same (k.conns_same p));
}
