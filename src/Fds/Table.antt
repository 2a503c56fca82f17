-- ===== src/Fds/Table.antt =====
-- What the loops over the descriptor table find, and the invariant of the table.
use shmsock.Base.{
  ℕ, ◌+◌, ◌≡◌, refl, sym, ◌∙◌, true, false, List, [], ◌∷◌, none, some, arith, ◌==◌, ◌&&◌, not,
  get_elem?, set,
}
use shmsock.Machine.{Fd}
use shmsock.Fds.{find_fd, find_empty, max_fds, fd_start}
use shmsock.Numbered.{
  find_first, find_first-some, find_first-none, IsNumbered, IsNumbered-set, IsNumbered-new,
  find_first-active,
}

-- Entry `i` is active and has the number.
abbrev pub Holds : List Fd → ℕ → ℕ → Type 0
Holds ds num i = (d : Fd) × (get_elem? ds i ≡ some d) × (d.active ≡ true) × (d.num ≡ num)

find_fd_first :
    (num : ℕ) (ds : List Fd) → find_fd num ds ≡ find_first (λ d. d.active && d.num == num) ds
unfolding find_fd find_first
find_fd_first num [] = refl
find_fd_first num (d ∷ ds) = rw (find_fd_first num ds) refl

find_empty_first : (ds : List Fd) → find_empty ds ≡ find_first (λ d. not d.active) ds
unfolding find_empty find_first
find_empty_first [] = refl
find_empty_first (d ∷ ds) = rw (find_empty_first ds) refl

pub find_fd-some : (num : ℕ) (ds : List Fd) (i : ℕ) → find_fd num ds ≡ some i → Holds ds num i
find_fd-some num ds i e =
    let (d, at, t) = find_first-some _ ds i (sym (find_fd_first num ds) ∙ e) in
    (d, at, ground (arith, t), ground (arith, t))

pub find_fd-none :
    (num : ℕ) (ds : List Fd)
    → find_fd num ds ≡ none
    → (i : ℕ) (d : Fd) → get_elem? ds i ≡ some d
    → (d.active && d.num == num) ≡ false
find_fd-none num ds e i d at = find_first-none _ ds (sym (find_fd_first num ds) ∙ e) i d at

pub find_empty-some :
    (ds : List Fd) (i : ℕ)
    → find_empty ds ≡ some i
    → (d : Fd) × (get_elem? ds i ≡ some d) × (d.active ≡ false)
find_empty-some ds i e =
    let (d, at, t) = find_first-some _ ds i (sym (find_empty_first ds) ∙ e) in
    (d, at, ground (arith, t))

pub find_empty-none :
    (ds : List Fd)
    → find_empty ds ≡ none
    → (i : ℕ) (d : Fd) → get_elem? ds i ≡ some d
    → d.active ≡ true
find_empty-none ds e i d at =
    let t = find_first-none _ ds (sym (find_empty_first ds) ∙ e) i d at in ground (arith, t)

-- MAX_FDS entries with numbers from FD_START to `next`, which is currentMaxFd.
abbrev pub IsTable : List Fd → ℕ → Type 0
IsTable = IsNumbered (λ (d : Fd). d.active) (λ (d : Fd). d.num) fd_start max_fds

module _ {ds : List Fd} {next : ℕ} (h : IsTable ds next) (i : ℕ) where
  pub IsTable-set :
      (d d' : Fd)
      → get_elem? ds i ≡ some d
      → d'.num ≡ d.num
      → (d'.active ≡ true → d.active ≡ true)
      → IsTable (set ds i d') next
  IsTable-set = IsNumbered-set _ _ _ h i

  pub IsTable-new : (d' : Fd) → d'.num ≡ next → IsTable (set ds i d') (next + 1)
  IsTable-new = IsNumbered-new _ _ _ h i

pub find_fd-active :
    {ds : List Fd} {next : ℕ}
    → IsTable ds next
    → (i : ℕ) (d : Fd) → get_elem? ds i ≡ some d
    → d.active ≡ true
    → find_fd d.num ds ≡ some i
find_fd-active {ds} h i d at on =
    find_fd_first d.num ds ∙ find_first-active (λ (x : Fd). x.active) (λ x. x.num) _ h i d at on
