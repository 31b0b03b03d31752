-- ===== src/LinkedList.antt =====
-- The circular doubly linked list of core/api/zejf_api/src/linked_list.c, over an explicit heap. A
-- `LinkedList` lives outside the heap of nodes, so a function that updates one returns the new value.
-- `list` is not NULL: each queue is created at start, or the start fails.
pub mod Heap
pub mod Ring
pub mod Push
pub mod Remove
pub mod Destroy
mod Examples
use zejf_meteo.Common.{
  ℕ, zero, suc, ◌+◌, ◌-◌, ◌==◌, Bool, true, false, ◌&&◌, Option, none, some, List, [], ◌∷◌,
  if◌then◌else◌,
}
use Heap.{
  Ptr, null, Cmd, out_of_fuel, pure, ◌>>=◌, ◌>>◌, malloc, free, get_next, get_previous, get_item,
  set_next, set_previous, set_item,
}

pub record LinkedList : Type 0 where
  pub capacity : ℕ
  pub item_count : ℕ
  pub head : Ptr
  pub tail : Ptr

-- `memory` says whether `malloc` succeeds.
unfoldable pub list_create : (memory : Bool) → ℕ → Option LinkedList
list_create memory capacity =
    if memory
    then some (record { capacity = capacity; item_count = 0; head = null; tail = null })
    else none

unfoldable pub list_is_full : LinkedList → Bool
list_is_full l = l.item_count == l.capacity

unfoldable pub list_is_empty : LinkedList → Bool
list_is_empty l = l.item_count == 0

unfoldable pub list_peek : LinkedList → Ptr
list_peek l = l.tail

module _ {A : Type 0} where
  link_first : Ptr → LinkedList → Cmd A LinkedList
  link_first new l = do
    set_next new new
    set_previous new new
    pure (record l { head = new; tail = new; item_count = l.item_count + 1 })

  link_behind_head : Ptr → LinkedList → Cmd A LinkedList
  link_behind_head new l = do
    set_next l.head new
    set_previous new l.head
    set_next new l.tail
    set_previous l.tail new
    pure (record l { head = new; item_count = l.item_count + 1 })

  -- `new` is what `malloc` returns.
  unfoldable pub list_push : (new : Ptr) → LinkedList → A → Cmd A (Bool × LinkedList)
  unfolding list_is_full link_first link_behind_head
  list_push new l item =
      if list_is_full l then pure (false, l) else if new == null then pure (false, l) else do
        malloc new
        set_item new item
        l' ← if l.head == null then link_first new l else link_behind_head new l
        pure (true, l')

  -- The ends of the list, where the node is one of them.
  move_ends : LinkedList → Ptr → Cmd A LinkedList
  move_ends l node =
      if (node == l.tail) && (node == l.head)
      then pure (record l { tail = null; head = null })
      else if node == l.tail
      then (do n ← get_next node; pure (record l { tail = n }))
      else if node == l.head
      then (do p ← get_previous node; pure (record l { head = p }))
      else pure l

  unlink : Ptr → Cmd A (Unit {0})
  unlink node = do
    p ← get_previous node
    n ← get_next node
    set_next p n
    n ← get_next node
    p ← get_previous node
    set_previous n p

  unfoldable pub list_remove : LinkedList → Ptr → Cmd A (Option A × LinkedList)
  unfolding move_ends unlink
  list_remove l node = if node == null then pure (none, l) else do
    l' ← move_ends l node
    unlink node
    result ← get_item node
    free node
    pure (some result, record l' { item_count = l'.item_count - 1 })

  unfoldable pub list_pop : LinkedList → Cmd A (Option A × LinkedList)
  list_pop l = list_remove l l.tail

  unfoldable pub list_prioritise : LinkedList → Ptr → Cmd A LinkedList
  list_prioritise l node = do p ← get_previous node; pure (record l { tail = node; head = p })

  -- The loop of `list_destroy`, with the items in the order in which the destructor gets them.
  destroy_loop : ℕ → (tail node : Ptr) → Cmd A (List A)
  destroy_loop zero tail node = λ _. out_of_fuel
  destroy_loop (suc rounds) tail node = do
    item ← get_item node
    n ← get_next node
    free node
    rest ← if n == tail then pure [] else destroy_loop rounds tail n
    pure (item ∷ rest)

  unfoldable pub list_destroy : (rounds : ℕ) → LinkedList → Cmd A (List A)
  unfolding destroy_loop
  list_destroy rounds l = if l.tail == null then pure [] else destroy_loop rounds l.tail l.tail
