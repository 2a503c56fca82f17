-- ===== src/Llist.antt =====
-- list.c and list.h: lists of pointers in shared memory. Each call runs a function of the library
-- linked-list (a submodule) in the malloc context of its list and then goes back to the caller's.
pub mod Owned
pub mod Remove
use shmsock.Base.{
  ℕ, zero, suc, ◌+◌, ◌<◌, ◌≡◌, Bool, List, [], ◌∷◌, ◌++◌, Option, none, some, if◌then◌else◌, ◌==◌,
  ltb, length, erase_idx,
}

abbrev pub Ptr : Type 0
Ptr = ℕ

abbrev pub null : Ptr
null = 0

-- A `struct ll`, seen as what it holds and the malloc context that its nodes come from.
pub record Ll : Type 0 where
  pub items : List Ptr
  pub arena : Ptr

-- The functions of linked-list. The first argument is the malloc context that is current.
pub record LinkedList : Type 0 where
  pub ll_new : Ptr → Ll
  pub ll_len : Ll → ℕ
  pub ll_delete : Ptr → Ll → Ll
  pub ll_insert_n : Ptr → Ll → Ptr → ℕ → ℕ × Ll
  pub ll_insert_first : Ptr → Ll → Ptr → ℕ × Ll
  pub ll_insert_last : Ptr → Ll → Ptr → ℕ × Ll
  pub ll_remove_n : Ptr → Ll → ℕ → ℕ × Ll
  pub ll_remove_first : Ptr → Ll → ℕ × Ll
  pub ll_remove_search : Ptr → Ll → (Ptr → Bool) → ℕ × Ll
  pub ll_get_n : Ptr → Ll → ℕ → Ptr
  pub ll_get_first : Ptr → Ll → Ptr

-- `NULL` stands for an element that is not there.
abbrev pub item_at : List Ptr → ℕ → Ptr
item_at [] i = null
item_at (x ∷ xs) zero = x
item_at (x ∷ xs) (suc i) = item_at xs i

-- What list.c relies on, for a list that is used in the context that it was made in.
pub record LinkedListLaws (ll : LinkedList) : Type 0 where
  pub new_items : (c : Ptr) → (ll.ll_new c).items ≡ []
  pub new_arena : (c : Ptr) → (ll.ll_new c).arena ≡ c
  pub len_items : (l : Ll) → ll.ll_len l ≡ length l.items
  pub insert_first_items :
      (c : Ptr) (l : Ll) (v : Ptr)
      → l.arena ≡ c
      → (ll.ll_insert_first c l v).1 ≡ record l { items = v ∷ l.items }
  pub insert_last_items :
      (c : Ptr) (l : Ll) (v : Ptr)
      → l.arena ≡ c
      → (ll.ll_insert_last c l v).1 ≡ record l { items = l.items ++ v ∷ [] }
  pub remove_n_items :
      (c : Ptr) (l : Ll) (i : ℕ)
      → l.arena ≡ c
      → (ll.ll_remove_n c l i).1 ≡ record l { items = erase_idx l.items i }
  pub remove_first_items :
      (c : Ptr) (l : Ll)
      → l.arena ≡ c
      → (ll.ll_remove_first c l).1 ≡ record l { items = erase_idx l.items 0 }
  pub get_n_items : (c : Ptr) (l : Ll) (i : ℕ) → l.arena ≡ c → ll.ll_get_n c l i ≡ item_at l.items i
  pub get_first_items : (c : Ptr) (l : Ll) → l.arena ≡ c → ll.ll_get_first c l ≡ item_at l.items 0

-- struct llist
pub record Llist : Type 0 where
  pub list : Ll
  pub malloc_ctx : Ptr

-- PROLOGUE and EPILOGUE round a body: the context of the list is set, and the one before it is
-- set again. The last component is the context that is current after the call.
unfoldable pub with_context {ℓ} : {A : Type ℓ} → Llist → (Ptr → A) → Ptr → A × Ptr
with_context list body current =
    let prev_ctx = current in let entered = list.malloc_ctx in (body entered, prev_ctx)

-- The same for a body that changes the list and returns an `int`.
unfoldable pub change {ℓ} : {A : Type ℓ} → Llist → (Ptr → A × Ll) → Ptr → A × Llist × Ptr
unfolding with_context
change list body current =
    let r = with_context list body current in (r.0.0, record list { list = r.0.1 }, r.1)

module _ (ll : LinkedList) where
  unfoldable pub llist_len : Llist → ℕ
  llist_len list = ll.ll_len list.list

  unfoldable pub llist_new : Ptr → Ptr → Llist × Ptr
  llist_new malloc_ctx current =
      let prev_ctx = current in
      let entered = malloc_ctx in
      (record { list = ll.ll_new entered; malloc_ctx = malloc_ctx }, prev_ctx)

  unfoldable pub llist_delete : Llist → Ptr → ℕ × Llist × Ptr
  unfolding change
  llist_delete list = change list λ ctx. (0, ll.ll_delete ctx list.list)

  unfoldable pub llist_insert_n : Llist → Ptr → ℕ → Ptr → ℕ × Llist × Ptr
  unfolding change
  llist_insert_n list val n = change list λ ctx. ll.ll_insert_n ctx list.list val n

  unfoldable pub llist_insert_first : Llist → Ptr → Ptr → ℕ × Llist × Ptr
  unfolding change
  llist_insert_first list val = change list λ ctx. ll.ll_insert_first ctx list.list val

  unfoldable pub llist_insert_last : Llist → Ptr → Ptr → ℕ × Llist × Ptr
  unfolding change
  llist_insert_last list val = change list λ ctx. ll.ll_insert_last ctx list.list val

  unfoldable pub llist_remove_n : Llist → ℕ → Ptr → ℕ × Llist × Ptr
  unfolding change
  llist_remove_n list n = change list λ ctx. ll.ll_remove_n ctx list.list n

  unfoldable pub llist_remove_first : Llist → Ptr → ℕ × Llist × Ptr
  unfolding change
  llist_remove_first list = change list λ ctx. ll.ll_remove_first ctx list.list

  unfoldable pub llist_remove_search : Llist → (Ptr → Bool) → Ptr → ℕ × Llist × Ptr
  unfolding change
  llist_remove_search list cond = change list λ ctx. ll.ll_remove_search ctx list.list cond

  unfoldable pub llist_get_n : Llist → ℕ → Ptr → Ptr × Ptr
  unfolding with_context
  llist_get_n list n = with_context list λ ctx. ll.ll_get_n ctx list.list n

  unfoldable pub llist_get_first : Llist → Ptr → Ptr × Ptr
  unfolding with_context
  llist_get_first list = with_context list λ ctx. ll.ll_get_first ctx list.list

  -- hasDataList
  unfoldable pub has_data_list : Llist → Bool
  has_data_list list = ltb 0 (llist_len list)

  -- The rounds of FOREACH_LIST in `llist_remove`, from index `i` with `entry` read there. `none`
  -- means that the fuel ran out.
  unfoldable pub llist_remove_loop : ℕ → Llist → Ptr → ℕ → Ptr → Ptr → Option (ℕ × Llist × Ptr)
  llist_remove_loop zero list val i entry current = none
  llist_remove_loop (suc fuel) list val i entry current =
      let found = llist_remove_n list i current in
      let next = llist_get_n list (i + 1) current in
      let rest = llist_remove_loop fuel list val (i + 1) next.0 next.1 in
      if entry == null
      then some (0, list, current)
      else if entry == val
      then some (1, found.1, found.2)
      else rest

  -- One round for each element and one for the `NULL` behind them.
  unfoldable pub llist_remove : Llist → Ptr → Ptr → Option (ℕ × Llist × Ptr)
  llist_remove list val current =
      let first = llist_get_n list 0 current in
      llist_remove_loop (suc (llist_len list)) list val 0 first.0 first.1
