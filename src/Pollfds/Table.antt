-- ===== src/Pollfds/Table.antt =====
-- The loop over the table of epoll descriptors, and the invariant of the table.
use shmsock.Base.{
  ℕ, ◌+◌, ◌≡◌, refl, ap, sym, ◌∙◌, inl, inr, true, List, [], ◌∷◌, some, arith, ◌==◌, ◌&&◌, not,
  length, set, get_elem?, get_elem?-set_cases, Bool-cases, Option-cases, suc, zero,
}
use shmsock.Machine.{Epollfd}
use shmsock.Fds.{pollfd_start}
use shmsock.Pollfds.{find_pollfd, find_empty_pollfd, max_pollfds, max_fds_listen}
use shmsock.Numbered.{
  find_first, find_first-some, IsNumbered, IsNumbered-set, IsNumbered-new, find_first-active,
}

-- What is found is in the table, and is still found when the entry keeps its number.
pub find_pollfd-some :
    (num : ℕ) (es : List Epollfd) (k : ℕ)
    → find_pollfd num es ≡ some k
    → (e : Epollfd) × (get_elem? es k ≡ some e)
      × ((e' : Epollfd)
          → e'.active ≡ e.active
          → e'.num ≡ e.num
          → find_pollfd num (set es k e') ≡ some k)
unfolding find_pollfd
find_pollfd-some num [] k f = cc
find_pollfd-some num (x ∷ es) zero f = elim (Bool-cases (x.active && x.num == num)) [
  | inl t ↦ (
    x,
    refl,
    λ e' on same. let t' : (e'.active && e'.num == num) ≡ true = rw (on, same) t in simp t',
  )
  | inr t ↦ absurd (elim (Option-cases (find_pollfd num es)) [
    | inl q ↦ ground (arith, f, t, q)
    | inr (j, q) ↦ ground (arith, f, t, q)
  ])
]
find_pollfd-some num (x ∷ es) (suc k) f = elim (Bool-cases (x.active && x.num == num)) [
  | inl t ↦ absurd (ground (arith, f, t))
  | inr t ↦ elim (Option-cases (find_pollfd num es)) [
    | inl q ↦ absurd (ground (arith, f, t, q))
    | inr (j, q) ↦
        let (e, at, again) = find_pollfd-some num es k (ground (arith, f, t, q)) in
        (e, at, λ e' on same. simp (t, again e' on same))
  ]
]

find_pollfd_first :
    (num : ℕ) (es : List Epollfd)
    → find_pollfd num es ≡ find_first (λ e. e.active && e.num == num) es
unfolding find_pollfd find_first
find_pollfd_first num [] = refl
find_pollfd_first num (e ∷ es) = rw (find_pollfd_first num es) refl

find_empty_pollfd_first :
    (es : List Epollfd) → find_empty_pollfd es ≡ find_first (λ e. not e.active) es
unfolding find_empty_pollfd find_first
find_empty_pollfd_first [] = refl
find_empty_pollfd_first (e ∷ es) = rw (find_empty_pollfd_first es) refl

pub find_empty_pollfd-some :
    (es : List Epollfd) (k : ℕ)
    → find_empty_pollfd es ≡ some k
    → (e : Epollfd) × (get_elem? es k ≡ some e)
find_empty_pollfd-some es k f =
    let (e, at, t) = find_first-some _ es k (sym (find_empty_pollfd_first es) ∙ f) in (e, at)

-- The table has its size, and so has the array of listeners of each entry; active entries have
-- numbers from POLLFD_START to `next`, which is randomPollFd, and no two the same.
pub record IsPollTable (es : List Epollfd) (next : ℕ) : Type 0 where
  pub numbered :
      IsNumbered
        (λ (e : Epollfd). e.active)
        (λ (e : Epollfd). e.num)
        pollfd_start
        max_pollfds
        es
        next
  pub listeners : (k : ℕ) (e : Epollfd) → get_elem? es k ≡ some e → length e.lfds ≡ max_fds_listen

listeners-set :
    (es : List Epollfd) (k : ℕ) (e' : Epollfd)
    → ((k : ℕ) (e : Epollfd) → get_elem? es k ≡ some e → length e.lfds ≡ max_fds_listen)
    → length e'.lfds ≡ max_fds_listen
    → (j : ℕ) (e : Epollfd) → get_elem? (set es k e') j ≡ some e
    → length e.lfds ≡ max_fds_listen
listeners-set es k e' all size j e at = elim (get_elem?-set_cases es k j e' at) [
  | inl (p, q) ↦ sym (ap (λ (x : Epollfd). length x.lfds) q) ∙ size
  | inr (p, q) ↦ all j e q
]

module _ {es : List Epollfd} {next : ℕ} (h : IsPollTable es next) (k : ℕ) where
  -- A change that keeps the number and the count of listeners, and makes no entry active.
  pub IsPollTable-set :
      (e e' : Epollfd)
      → get_elem? es k ≡ some e
      → e'.num ≡ e.num
      → (e'.active ≡ true → e.active ≡ true)
      → length e'.lfds ≡ length e.lfds
      → IsPollTable (set es k e') next
  IsPollTable-set e e' at same kept size = record {
    numbered = IsNumbered-set _ _ _ h.numbered k e e' at same kept;
    listeners = listeners-set es k e' h.listeners (size ∙ h.listeners k e at);
  }

  -- A new entry under the next number.
  pub IsPollTable-new :
      (e e' : Epollfd)
      → get_elem? es k ≡ some e
      → e'.num ≡ next
      → length e'.lfds ≡ length e.lfds
      → IsPollTable (set es k e') (next + 1)
  IsPollTable-new e e' at fresh size = record {
    numbered = IsNumbered-new _ _ _ h.numbered k e' fresh;
    listeners = listeners-set es k e' h.listeners (size ∙ h.listeners k e at);
  }

-- In such a table the loop finds exactly the active entry with a number.
pub find_pollfd-active :
    {es : List Epollfd} {next : ℕ}
    → IsPollTable es next
    → (k : ℕ) (e : Epollfd) → get_elem? es k ≡ some e
    → e.active ≡ true
    → find_pollfd e.num es ≡ some k
find_pollfd-active {es} h k e at on =
    find_pollfd_first e.num es
    ∙ find_first-active (λ (x : Epollfd). x.active) (λ x. x.num) _ h.numbered k e at on
