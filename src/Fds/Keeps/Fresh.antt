-- ===== src/Fds/Keeps/Fresh.antt =====
-- A free entry of the descriptor table is taken and gets the next number.
use shmsock.Base.{
  ℕ, ◌+◌, ◌≡◌, sym, subst, inl, inr, true, none, some, get_elem?, set, Option-cases,
  lt_of_get_elem?, get_elem?-set_self, set-set,
}
use shmsock.Machine.{Fd, State}
use shmsock.Machine.Cmd.{ok, Cmd, ◌>>=◌, ◌>>◌, update_fd}
use shmsock.Fds.{find_empty, take_entry, get_empty_fd, next_fd_num}
use shmsock.Fds.Table.{IsTable-new, find_empty-some}
use shmsock.Fds.Keeps.{Safe, Keeps, with_entry}

pub get_empty-none : (s : State) → find_empty s.process.fds ≡ none → get_empty_fd s ≡ ok none s
unfolding get_empty_fd
get_empty-none s e = rw (e, take_entry)

pub get_empty-some :
    (s : State) (i : ℕ) (d : Fd)
    → find_empty s.process.fds ≡ some i
    → get_elem? s.process.fds i ≡ some d
    → get_empty_fd s ≡ ok (some i) (with_entry s i (record d { active = true }))
unfolding get_empty_fd update_fd
get_empty-some s i d e at = rw (e, take_entry, at)

-- A free entry that is taken, and gets the next number.
abbrev pub new_fd : {A : Type 0} → Cmd A → (ℕ → Fd → Fd) → (ℕ → Cmd A) → Cmd A
new_fd m g k = do
  f ← get_empty_fd
  elim f [ none ↦ m | some i ↦ (do n ← next_fd_num; update_fd i (g n); k n) ]

module _ {A : Type 0} (m : Cmd A) (g : ℕ → Fd → Fd) (k : ℕ → Cmd A) (s : State) where
  pub new_fd-none : find_empty s.process.fds ≡ none → new_fd m g k s ≡ m s
  new_fd-none e = rw (get_empty-none s e)

  pub new_fd-some :
      (i : ℕ) (d : Fd)
      → find_empty s.process.fds ≡ some i
      → get_elem? s.process.fds i ≡ some d
      → new_fd m g k s
        ≡ k s.process.current_max_fd (record s {
          process = record s.process {
            current_max_fd = s.process.current_max_fd + 1;
            fds = set s.process.fds i (g s.process.current_max_fd (record d { active = true }));
          };
        })
  unfolding next_fd_num update_fd
  new_fd-some i d e at =
      let again : get_elem? (set s.process.fds i (record d { active = true })) i
          ≡ some (record d { active = true }) =
        get_elem?-set_self s.process.fds i _ (lt_of_get_elem? s.process.fds i at) in
      rw (get_empty-some s i d e at, again, set-set s.process.fds i)

pub Keeps-new_fd :
    {A : Type 0} (m : Cmd A) (g : ℕ → Fd → Fd) (k : ℕ → Cmd A)
    → Keeps m
    → ((n : ℕ) → Keeps (k n))
    → ((n : ℕ) (d : Fd) → (g n d).num ≡ n)
    → Keeps (new_fd m g k)
Keeps-new_fd m g k km kk fresh = record {
  at = λ s h. elim (Option-cases (find_empty s.process.fds)) [
    | inl e ↦ subst Safe (sym (new_fd-none m g k s e)) (km.at s h)
    | inr (i, e) ↦
        let (d, at, off) = find_empty-some s.process.fds i e in
        subst Safe (sym (new_fd-some m g k s i d e at))
          ((kk s.process.current_max_fd).at _ (IsTable-new h.0 i _ (fresh _ _), h.1))
  ];
}
