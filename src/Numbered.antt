-- ===== src/Numbered.antt =====
-- What the tables of socket.c and event.c have in common: entries that are active or not, each with
-- a number, and loops that return the first entry that passes a test.
use shmsock.Base.{
  ℕ, zero, suc, ◌+◌, ◌<◌, ◌≤◌, ◌≡◌, refl, ap, sym, ◌∙◌, inl, inr, Bool, true, false, List, [], ◌∷◌,
  Option, none, some, arith, if◌then◌else◌, ◌==◌, ◌&&◌, length, get_elem?, set, length-set,
  get_elem?-set_cases, Bool-cases, Option-cases, ==_refl,
}

-- The index of the first entry that passes the test.
unfoldable pub find_first : {A : Type 0} → (A → Bool) → List A → Option ℕ
find_first test [] = none
find_first test (x ∷ xs) =
    if test x then some 0 else elim (find_first test xs) [ none ↦ none | some i ↦ some (suc i) ]

module _ {A : Type 0} (test : A → Bool) where
  pub find_first-some :
      (xs : List A) (i : ℕ)
      → find_first test xs ≡ some i
      → (x : A) × (get_elem? xs i ≡ some x) × (test x ≡ true)
  unfolding find_first
  find_first-some [] i e = cc
  find_first-some (x ∷ xs) zero e = elim (Bool-cases (test x)) [
    | inl t ↦ (x, refl, t)
    | inr t ↦ elim (Option-cases (find_first test xs)) [
      | inl f ↦ absurd (ground (arith, e, t, f))
      | inr (j, f) ↦ absurd (ground (arith, e, t, f))
    ]
  ]
  find_first-some (x ∷ xs) (suc i) e = elim (Bool-cases (test x)) [
    | inl t ↦ absurd (ground (arith, e, t))
    | inr t ↦ elim (Option-cases (find_first test xs)) [
      | inl f ↦ absurd (ground (arith, e, t, f))
      | inr (j, f) ↦ find_first-some xs i (ground (arith, e, t, f))
    ]
  ]

  pub find_first-none :
      (xs : List A)
      → find_first test xs ≡ none
      → (i : ℕ) (x : A) → get_elem? xs i ≡ some x
      → test x ≡ false
  unfolding find_first
  find_first-none [] e i x at = cc
  find_first-none (y ∷ xs) e zero x at = elim (Bool-cases (test y)) [
    | inl t ↦ absurd (ground (arith, e, t))
    | inr t ↦ ground (arith, at, t)
  ]
  find_first-none (y ∷ xs) e (suc i) x at = elim (Bool-cases (test y)) [
    | inl t ↦ absurd (ground (arith, e, t))
    | inr t ↦ elim (Option-cases (find_first test xs)) [
      | inl f ↦ find_first-none xs f i x at
      | inr (j, f) ↦ absurd (ground (arith, e, t, f))
    ]
  ]

module _ {A : Type 0} (active : A → Bool) (num : A → ℕ) (first : ℕ) where
  -- The table has its size; active entries have numbers that were handed out, the first of them
  -- `first` and the next to come `next`, and no two the same.
  pub record IsNumbered (size_of : ℕ) (xs : List A) (next : ℕ) : Type 0 where
    pub size : length xs ≡ size_of
    pub start : first ≤ next
    pub below :
        (i : ℕ) (x : A)
        → get_elem? xs i ≡ some x
        → active x ≡ true
        → (first ≤ num x) × (num x < next)
    pub unique :
        (i j : ℕ) (x y : A)
        → get_elem? xs i ≡ some x
        → get_elem? xs j ≡ some y
        → active x ≡ true
        → active y ≡ true
        → num x ≡ num y
        → i ≡ j

  module _ {size_of : ℕ} {xs : List A} {next : ℕ} (h : IsNumbered size_of xs next) (i : ℕ) where
    -- A change that keeps the number, and makes no entry active.
    pub IsNumbered-set :
        (d d' : A)
        → get_elem? xs i ≡ some d
        → num d' ≡ num d
        → (active d' ≡ true → active d ≡ true)
        → IsNumbered size_of (set xs i d') next
    IsNumbered-set d d' at same kept = record {
      size = length-set xs i d' ∙ h.size;
      start = h.start;
      below = λ j e at' on. elim (get_elem?-set_cases xs i j d' at') [
        | inl (p, q) ↦ rw (← q, same) (h.below i d at (kept (ap active q ∙ on)))
        | inr (p, q) ↦ h.below j e q on
      ];
      unique = λ j k e f at_j at_k on_e on_f equal. elim (get_elem?-set_cases xs i j d' at_j) [
        | inl (p, q) ↦ elim (get_elem?-set_cases xs i k d' at_k) [
          | inl (p', q') ↦ sym p ∙ p'
          | inr (p', q') ↦
              sym p
              ∙ h.unique i k d f at q' (kept (ap active q ∙ on_e)) on_f
                  (sym same ∙ ap num q ∙ equal)
        ]
        | inr (p, q) ↦ elim (get_elem?-set_cases xs i k d' at_k) [
          | inl (p', q') ↦
              h.unique j i e d q at on_e (kept (ap active q' ∙ on_f))
                (equal ∙ sym (ap num q') ∙ same)
              ∙ p'
          | inr (p', q') ↦ h.unique j k e f q q' on_e on_f equal
        ]
      ];
    }

    -- A new entry under the next number.
    pub IsNumbered-new : (d' : A) → num d' ≡ next → IsNumbered size_of (set xs i d') (next + 1)
    IsNumbered-new d' fresh = record {
      size = length-set xs i d' ∙ h.size;
      start = omega (arith, h.start);
      below = λ j e at' on. elim (get_elem?-set_cases xs i j d' at') [
        | inl (p, q) ↦ rw (← q, fresh) (omega (arith, h.start))
        | inr (p, q) ↦ omega (arith, h.below j e q on)
      ];
      unique = λ j k e f at_j at_k on_e on_f equal. elim (get_elem?-set_cases xs i j d' at_j) [
        | inl (p, q) ↦ elim (get_elem?-set_cases xs i k d' at_k) [
          | inl (p', q') ↦ sym p ∙ p'
          | inr (p', q') ↦ absurd (omega (arith, h.below k f q' on_f, ap num q, fresh, equal))
        ]
        | inr (p, q) ↦ elim (get_elem?-set_cases xs i k d' at_k) [
          | inl (p', q') ↦ absurd (omega (arith, h.below j e q on_e, ap num q', fresh, equal))
          | inr (p', q') ↦ h.unique j k e f q q' on_e on_f equal
        ]
      ];
    }

  -- In such a table the loop finds exactly the active entry with a number.
  pub find_first-active :
      {size_of : ℕ} {xs : List A} {next : ℕ}
      → IsNumbered size_of xs next
      → (i : ℕ) (d : A) → get_elem? xs i ≡ some d
      → active d ≡ true
      → find_first (λ x. active x && num x == num d) xs ≡ some i
  find_first-active {xs = xs} h i d at on =
      let test : A → Bool = λ x. active x && num x == num d in
      elim (Option-cases (find_first test xs)) [
        | inl e ↦
            absurd (
              let off = find_first-none test xs e i d at in
              ground (arith, off, on, ==_refl (num d)))
        | inr (j, e) ↦
            let (x, at_x, t) = find_first-some test xs j e in
            e ∙ ap some (h.unique j i x d at_x at (ground (arith, t)) on (ground (arith, t)))
      ]
