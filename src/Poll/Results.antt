-- ===== src/Poll/Results.antt =====
-- What `poll` reads off the events that `epoll_wait` found.
use shmsock.Base.{
  ℕ, suc, ◌+◌, ◌%◌, ◌^◌, ◌<◌, ◌≡◌, refl, sym, ap, ap₂, subst, ◌∙◌, inl, inr, true, List, [], ◌∷◌,
  ◌++◌, append_assoc, Option, some, arith, if◌then◌else◌, ◌==◌, get_elem?, set, length,
  length-append, map, bit_and, All, Bool-cases, eq_of_==,
}
use shmsock.Base.Bits.{bit_and-above, bit_and_le}
use shmsock.Fds.Table.{find_fd-some}
use shmsock.Llist.{Ptr}
use shmsock.Machine.{Side, EpollEvent, EventListenFd, Fd, Connection, Block, State}
use shmsock.Listeners.{epollet}
use shmsock.Listeners.Levels.{level_of}
use shmsock.Waiting.Reports.{ready, Level, one_event, of_fd}
use shmsock.Poll.{PollFd, poll_event, extend16, reset, set_revents}
use shmsock.Poll.Slots.{IsOff, listener, get_elem?-middle, set-middle}
use shmsock.Poll.Loops.{Watched, on_from}

-- The answer for one descriptor: what holds of its connection, of the events that are asked for.
abbrev pub answer : Side → PollFd → Connection → ℕ
answer side p c = bit_and (level_of side c) p.events

-- How many have an answer.
abbrev pub answering : List PollFd → ℕ
answering [] = 0
answering (p ∷ ps) = (if p.revents == 0 then 0 else 1) + answering ps

module _ (side : Side) (ds : List Fd) (m : Ptr → Option (Block Connection)) where
  -- The array with the answers.
  abbrev pub answered : (ps : List PollFd) → All (Watched ds m) ps → List PollFd
  answered [] ws = []
  answered (p ∷ ps) (w, ws) = record p { revents = answer side p w.block.value } ∷ answered ps ws

extend16_low : (n : ℕ) → n < 2 ^ 15 → extend16 n ≡ n
extend16_low n h = ground arith

pub ready_off : (s : State) (ls : List EventListenFd) → All IsOff ls → ready s ls ≡ []
ready_off s [] h = refl
ready_off s (l ∷ ls) (off, h) = simp off (ready_off s ls h)

pub ready-append :
    (s : State) (ls ls' : List EventListenFd) → ready s (ls ++ ls') ≡ ready s ls ++ ready s ls'
ready-append s [] ls' = refl
ready-append s (l ∷ ls) ls' =
    rw (ready-append s ls ls') (sym (append_assoc _ (ready s ls) (ready s ls')))

low_level : (n : ℕ) → n < 2 ^ 15 → (bit_and (extend16 n) epollet == 0) ≡ true
low_level n h =
    let z : bit_and n epollet ≡ 0 = bit_and-above 15 n 65536 h in rw (extend16_low n h, z) refl

answer-low :
    (side : Side) (p : PollFd) (c : Connection)
    → p.events < 2 ^ 15
    → answer side p c % 2 ^ 16 ≡ answer side p c
answer-low side p c h = omega (arith, h, bit_and_le (level_of side c) p.events)

module _ (s : State) where
  abbrev Here : PollFd → Type 0
  Here = Watched s.process.fds s.memory.conns

  -- What the listener for one descriptor reports.
  one_ready :
      (p : PollFd) (w : Here p) (j : ℕ)
      → of_fd s.memory s.process.side
          (listener w.index (poll_event j p))
          (get_elem? s.process.fds w.index)
        ≡ one_event (listener w.index (poll_event j p)) (answer s.process.side p w.block.value)
  one_ready p w j = rw (w.at, w.holds, extend16_low p.events w.low) refl

  pub listeners-Level :
      (ps : List PollFd) (ws : All Here ps) (j : ℕ)
      → All (Level s) (on_from s.process.fds s.memory.conns ps ws j)
  listeners-Level [] ws j = tt
  listeners-Level (p ∷ ps) (w, ws) j = (
    (λ on.
        let (d, at_d, used, num) = find_fd-some p.fd s.process.fds w.index w.found in
        let same : d ≡ w.entry = ground (arith, at_d, w.at) in
        (
          w.entry,
          w.block,
          w.at,
          subst (λ x. x.active ≡ true) same used,
          w.no_listen,
          w.no_connect,
          low_level p.events w.low,
          w.ne_null,
          w.holds,
        )),
    listeners-Level ps ws (suc j),
  )

  -- The event at an index is written there.
  set_one :
      (before : List PollFd) (p : PollFd) (after : List PollFd) (a user : ℕ) (evs : List EpollEvent)
      → user ≡ length before
      → a % 2 ^ 16 ≡ a
      → set_revents (record { events = a; user = user } ∷ evs) (before ++ p ∷ after)
        ≡ set_revents evs (before ++ record p { revents = a } ∷ after)
  unfolding set_revents
  set_one before p after a user evs at low =
      rw (at, set_revents, get_elem?-middle before p after, low)
        (ap (λ i. set_revents evs (set (before ++ p ∷ after) i (record p { revents = a }))) at
          ∙ ap (set_revents evs) (set-middle before p (record p { revents = a }) after))

  pub set_revents_lem :
      (ps : List PollFd) (ws : All Here ps) (done : List PollFd)
      → set_revents
          (ready s (on_from s.process.fds s.memory.conns ps ws (length done)))
          (done ++ map reset ps)
        ≡ some (done ++ answered s.process.side s.process.fds s.memory.conns ps ws)
  unfolding set_revents
  set_revents_lem [] ws done = refl
  set_revents_lem (p ∷ ps) (w, ws) done =
      let a = answer s.process.side p w.block.value in
      let p' = record p { revents = a } in
      let later = on_from s.process.fds s.memory.conns ps ws in
      let n : suc (length done) ≡ length (done ++ p' ∷ []) =
        omega (arith, length-append done (p' ∷ [])) in
      let rest : set_revents (ready s (later (suc (length done)))) (done ++ p' ∷ map reset ps)
          ≡ some (done ++ p' ∷ answered s.process.side s.process.fds s.memory.conns ps ws) =
        ap₂ (λ k xs. set_revents (ready s (later k)) xs) n
          (sym (append_assoc done (p' ∷ []) (map reset ps)))
        ∙ set_revents_lem ps ws (done ++ p' ∷ [])
        ∙ ap some (
            append_assoc done (p' ∷ [])
              (answered s.process.side s.process.fds s.memory.conns ps ws)) in
      elim (Bool-cases (a == 0)) [
        | inl z ↦
            simp (one_ready p w (length done), z)
              (subst
                (λ r.
                  set_revents (ready s (later (suc (length done))))
                    (done ++ record p { revents = r } ∷ map reset ps)
                  ≡ some (done ++ p' ∷ answered s.process.side s.process.fds s.memory.conns ps ws))
                (eq_of_== a 0 z) rest)
        | inr z ↦
            simp (one_ready p w (length done), z)
              (set_one done (reset p) (map reset ps) a (length done)
                  (ready s (later (suc (length done)))) refl
                  (answer-low s.process.side p w.block.value w.low)
                ∙ rest)
      ]

  pub ready-answering :
      (ps : List PollFd) (ws : All Here ps) (j : ℕ)
      → length (ready s (on_from s.process.fds s.memory.conns ps ws j))
        ≡ answering (answered s.process.side s.process.fds s.memory.conns ps ws)
  ready-answering [] ws j = refl
  ready-answering (p ∷ ps) (w, ws) j =
      let a = answer s.process.side p w.block.value in
      elim (Bool-cases (a == 0)) [
        | inl z ↦ simp (one_ready p w j, z) (omega (arith, ready-answering ps ws (suc j)))
        | inr z ↦ simp (one_ready p w j, z) (omega (arith, ready-answering ps ws (suc j)))
      ]
