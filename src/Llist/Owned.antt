-- ===== src/Llist/Owned.antt =====
-- The calls of list.c on a list whose nodes stand in the context that it names.
use shmsock.Base.{ℕ, ◌≡◌, ap, List, [], ◌∷◌, ◌++◌, arith, ltb, length, erase_idx}
use shmsock.Llist.{
  Ptr, LinkedList, LinkedListLaws, item_at, Llist, llist_len, llist_new, llist_insert_first,
  llist_insert_last, llist_remove_n, llist_remove_first, llist_get_n, llist_get_first,
  has_data_list,
}

-- The library that runs in the current context finds the nodes of this list.
abbrev pub IsOwned : Llist → Type 0
IsOwned list = list.list.arena ≡ list.malloc_ctx

-- The list with these elements in its place.
abbrev pub with_items : Llist → List Ptr → Llist
with_items list xs = record list { list = record list.list { items = xs } }

module _ (ll : LinkedList) (laws : LinkedListLaws ll) where
  pub llist_new_lem :
      (c current : Ptr)
      → llist_new ll c current
        ≡ (record { list = record { items = []; arena = c }; malloc_ctx = c }, current)
  unfolding llist_new
  llist_new_lem c current = ground (arith, laws.new_items c, laws.new_arena c)

  pub has_data-items : (list : Llist) → has_data_list ll list ≡ ltb 0 (length list.list.items)
  unfolding has_data_list llist_len
  has_data-items list = rw (laws.len_items list.list)

  module _ (list : Llist) (own : IsOwned list) (current : Ptr) where
    pub insert_first-items :
        (v : Ptr)
        → llist_insert_first ll list v current ≡ (
          (ll.ll_insert_first list.malloc_ctx list.list v).0,
          with_items list (v ∷ list.list.items),
          current,
        )
    unfolding llist_insert_first
    insert_first-items v =
        ap
          (λ l.
            ((ll.ll_insert_first list.malloc_ctx list.list v).0, record list { list = l }, current))
          (laws.insert_first_items list.malloc_ctx list.list v own)

    pub insert_last-items :
        (v : Ptr)
        → llist_insert_last ll list v current ≡ (
          (ll.ll_insert_last list.malloc_ctx list.list v).0,
          with_items list (list.list.items ++ v ∷ []),
          current,
        )
    unfolding llist_insert_last
    insert_last-items v =
        ap
          (λ l.
            ((ll.ll_insert_last list.malloc_ctx list.list v).0, record list { list = l }, current))
          (laws.insert_last_items list.malloc_ctx list.list v own)

    pub remove_n-items :
        (i : ℕ)
        → llist_remove_n ll list i current ≡ (
          (ll.ll_remove_n list.malloc_ctx list.list i).0,
          with_items list (erase_idx list.list.items i),
          current,
        )
    unfolding llist_remove_n
    remove_n-items i =
        ap
          (λ l. ((ll.ll_remove_n list.malloc_ctx list.list i).0, record list { list = l }, current))
          (laws.remove_n_items list.malloc_ctx list.list i own)

    pub remove_first-items : llist_remove_first ll list current ≡ (
      (ll.ll_remove_first list.malloc_ctx list.list).0,
      with_items list (erase_idx list.list.items 0),
      current,
    )
    unfolding llist_remove_first
    remove_first-items =
        ap
          (λ l.
            ((ll.ll_remove_first list.malloc_ctx list.list).0, record list { list = l }, current))
          (laws.remove_first_items list.malloc_ctx list.list own)

    pub get_n-items : (i : ℕ) → llist_get_n ll list i current ≡ (item_at list.list.items i, current)
    unfolding llist_get_n
    get_n-items i = ap (λ p. (p, current)) (laws.get_n_items list.malloc_ctx list.list i own)

    pub get_first-items : llist_get_first ll list current ≡ (item_at list.list.items 0, current)
    unfolding llist_get_first
    get_first-items = ap (λ p. (p, current)) (laws.get_first_items list.malloc_ctx list.list own)
