-- ===== src/Llist/Remove.antt =====
-- `llist_remove` of list.c: the loop over the list ends, and takes out the first occurrence.
use shmsock.Base.{
  ℕ, zero, suc, ◌+◌, ◌<◌, ◌≡◌, refl, ap, sym, ◌∙◌, ◌≢◌, inl, inr, List, [], ◌∷◌, ◌++◌, some, true,
  false, Bool, arith, if◌then◌else◌, ◌==◌, length, erase_idx, All, Bool-cases, append_assoc,
  length-append,
}
use shmsock.Llist.{
  Ptr, null, LinkedList, LinkedListLaws, item_at, Llist, llist_len, llist_remove_loop, llist_remove,
}
use shmsock.Llist.Owned.{IsOwned, with_items, remove_n-items, get_n-items}

-- The list without the first `val` in it, and whether there is one.
unfoldable pub erase : Ptr → List Ptr → List Ptr
erase val [] = []
erase val (x ∷ xs) = if x == val then xs else x ∷ erase val xs

abbrev pub contains : Ptr → List Ptr → Bool
contains val [] = false
contains val (x ∷ xs) = if x == val then true else contains val xs

pub erase-absent : (val : Ptr) (xs : List Ptr) → contains val xs ≡ false → erase val xs ≡ xs
unfolding erase
erase-absent val [] h = refl
erase-absent val (x ∷ xs) h = ground (arith, erase-absent val xs)

abbrev pub NonNull : List Ptr → Type 0
NonNull = All (λ x. x ≢ null)

pub item_at-append : (pre suf : List Ptr) → item_at (pre ++ suf) (length pre) ≡ item_at suf 0
item_at-append [] [] = refl
item_at-append [] (x ∷ suf) = refl
item_at-append (y ∷ pre) suf = item_at-append pre suf

erase_idx-append :
    (pre suf : List Ptr) → erase_idx (pre ++ suf) (length pre) ≡ pre ++ erase_idx suf 0
erase_idx-append [] [] = refl
erase_idx-append [] (x ∷ suf) = refl
erase_idx-append (y ∷ pre) suf = ap (◌∷◌ y) (erase_idx-append pre suf)

pub item_at-after :
    (pre : List Ptr) (x : Ptr) (suf : List Ptr)
    → item_at (pre ++ x ∷ suf) (length pre + 1) ≡ item_at suf 0
item_at-after [] x suf = refl
item_at-after (y ∷ pre) x suf =
    let e : length (y ∷ pre) + 1 ≡ suc (length pre + 1) = omega arith in
    rw e (item_at-after pre x suf)

module _ (ll : LinkedList) (laws : LinkedListLaws ll) (list : Llist) (own : IsOwned list)
    (val current : Ptr) where
  -- What the loop returns when it has gone past `pre` and `suf` is left.
  abbrev outcome : List Ptr → List Ptr → ℕ × Llist × Ptr
  outcome pre suf =
      if contains val suf
      then (1, with_items list (pre ++ erase val suf), current)
      else (0, list, current)

  loop_lem :
      (suf pre : List Ptr) (fuel : ℕ)
      → list.list.items ≡ pre ++ suf
      → NonNull suf
      → length suf < fuel
      → llist_remove_loop ll fuel list val (length pre) (item_at suf 0) current
        ≡ some (outcome pre suf)
  unfolding llist_remove_loop erase
  loop_lem suf pre zero e nn h = absurd (omega arith)
  loop_lem [] pre (suc fuel) e nn h = refl
  loop_lem (x ∷ suf) pre (suc fuel) e nn h =
      let at_next : item_at list.list.items (length pre + 1) ≡ item_at suf 0 =
        ap (λ l. item_at l (length pre + 1)) e ∙ item_at-after pre x suf in
      let cut : erase_idx list.list.items (length pre) ≡ pre ++ suf =
        ap (λ l. erase_idx l (length pre)) e ∙ erase_idx-append pre (x ∷ suf) in
      let shift : length (pre ++ x ∷ []) ≡ length pre + 1 = length-append pre (x ∷ []) in
      let ih : llist_remove_loop ll fuel list val (length pre + 1) (item_at suf 0) current
          ≡ some (outcome (pre ++ x ∷ []) suf) =
        rw shift at (
          loop_lem suf (pre ++ x ∷ []) fuel (e ∙ sym (append_assoc pre (x ∷ []) suf)) nn.1
            (omega arith)) in
      rw
        (
          remove_n-items ll laws list own current (length pre),
          get_n-items ll laws list own current (length pre + 1),
          cut,
          at_next,
        )
        (ground (arith, ih, nn.0, append_assoc pre (x ∷ []) (erase val suf)))

  -- `llist_remove` ends within the rounds that it is given. Where `val` stands in the list, it
  -- returns 1 and takes out the first of them; where not, it returns 0 and changes nothing. The
  -- malloc context after the call is the one before it.
  pub remove-erase :
      NonNull list.list.items
      → llist_remove ll list val current
        ≡ some (
            if contains val list.list.items
            then (1, with_items list (erase val list.list.items), current)
            else (0, list, current))
  unfolding llist_remove llist_len
  remove-erase nn =
      rw (get_n-items ll laws list own current 0, laws.len_items list.list)
        (loop_lem list.list.items [] (suc (length list.list.items)) refl nn (omega arith))

  -- The same, with the list as it is after the call in one form.
  pub remove-erase_form :
      NonNull list.list.items
      → llist_remove ll list val current
        ≡ some (
          if contains val list.list.items then 1 else 0,
          with_items list (erase val list.list.items),
          current,
        )
  remove-erase_form nn = remove-erase nn ∙ (elim (Bool-cases (contains val list.list.items)) [
    | inl t ↦ simp t
    | inr t ↦ simp (t, erase-absent val list.list.items t)
  ])
