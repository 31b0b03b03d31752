-- ===== src/LinkedList/Examples.antt =====
-- A list of three nodes: tests of its functions, and the theorems at it.
use zejf_meteo.Common.{ℕ, ◌≡◌, refl, true, false, Option, none, some, [], ◌∷◌, arith, ◌↔◌}
use zejf_meteo.LinkedList.Heap.{
  null, Heap, Cmd, Run, ok, fault, out_of_fuel, pure, ◌>>=◌, update, get_next, get_previous,
  get_item, set_next, set_previous, set_item, malloc, free,
}
use zejf_meteo.LinkedList.{
  LinkedList, list_push, list_remove, list_pop, list_prioritise, list_destroy, list_is_full,
}
use zejf_meteo.LinkedList.Ring.{IsList, SameOutside, items}
use zejf_meteo.LinkedList.Push.{list_push-append, list_push-refused, list_is_full_iff}
use zejf_meteo.LinkedList.Remove.{list_remove-middle, list_pop-nil}
use zejf_meteo.LinkedList.Destroy.{Destroyed, list_destroy-Destroyed}

abbrev empty_heap : Heap ℕ
empty_heap = record { live = λ _. false; next = λ _. 0; previous = λ _. 0; item = λ _. 0 }

abbrev empty_list : LinkedList
empty_list = record { capacity = 4; item_count = 0; head = null; tail = null }

-- Three pushes, the middle node taken out, the last one turned to the tail, and a pop.
session : Cmd ℕ (Option ℕ × Option ℕ × ℕ)
unfolding list_push list_remove list_prioritise list_pop get_next get_previous get_item set_next
    set_previous set_item malloc free
session = do
  (_, l) ← list_push 5 empty_list 10
  (_, l) ← list_push 6 l 20
  (_, l) ← list_push 7 l 30
  (a, l) ← list_remove l 6
  l ← list_prioritise l 7
  (b, l) ← list_pop l
  pure (a, b, l.item_count)

abbrev outcome : Run ℕ (Option ℕ × Option ℕ × ℕ) → Option (Option ℕ × Option ℕ × ℕ)
outcome (ok r h) = some r
outcome fault = none
outcome out_of_fuel = none

session_result : outcome (session empty_heap) ≡ some (some 20, some 30, 1)
unfolding session
session_result = refl

abbrev heap : Heap ℕ
heap = record {
  live = update (update (update (λ _. false) 5 true) 6 true) 7 true;
  next = update (update (update (λ _. 0) 5 6) 6 7) 7 5;
  previous = update (update (update (λ _. 0) 5 7) 6 5) 7 6;
  item = update (update (update (λ _. 0) 5 10) 6 20) 7 30;
}

abbrev three : LinkedList
three = record { capacity = 4; item_count = 3; head = 7; tail = 5 }

-- Following a pointer to a node that was freed is a fault.
use_after_free :
    outcome ((list_remove three 6 >>= λ r. get_next 6 >>= λ n. pure (none, none, n)) heap) ≡ none
unfolding session
use_after_free = refl

three-IsList : IsList heap three (5 ∷ 6 ∷ 7 ∷ [])
three-IsList = record {
  ring = record {
    nexts = (refl, (refl, (refl, tt)));
    prevs = (refl, (refl, (refl, tt)));
    live = (refl, (refl, (refl, tt)));
    distinct = (refl, (refl, (refl, tt)));
  };
  tail = refl;
  head = refl;
  count = refl;
  room = omega arith;
}

empty-IsList : IsList heap empty_list []
empty-IsList = record {
  ring = record { nexts = tt; prevs = tt; live = tt; distinct = tt };
  tail = refl;
  head = refl;
  count = refl;
  room = omega arith;
}

list_push-append_example :
    (l' : LinkedList) × (g : Heap ℕ) × (list_push 8 three 40 heap ≡ ok (true, l') g)
    × IsList g l' (5 ∷ 6 ∷ 7 ∷ 8 ∷ [])
    × (l'.capacity ≡ 4)
    × (items g (5 ∷ 6 ∷ 7 ∷ 8 ∷ []) ≡ 10 ∷ 20 ∷ 30 ∷ 40 ∷ [])
    × SameOutside (5 ∷ 6 ∷ 7 ∷ 8 ∷ []) heap g
unfolding list_is_full
list_push-append_example = list_push-append 8 40 refl refl three (5 ∷ 6 ∷ 7 ∷ []) three-IsList refl

list_push-refused_example : list_push null three 40 heap ≡ ok (false, three) heap
unfolding list_is_full
list_push-refused_example = list_push-refused heap three 40 null refl

list_is_full_iff_example : (list_is_full three ≡ true) ↔ (3 ≡ three.capacity)
list_is_full_iff_example = list_is_full_iff three-IsList

list_remove-middle_example :
    (l' : LinkedList) × (g : Heap ℕ) × (list_remove three 6 heap ≡ ok (some 20, l') g)
    × IsList g l' (5 ∷ 7 ∷ [])
    × (l'.capacity ≡ 4)
    × (items g (5 ∷ 7 ∷ []) ≡ 10 ∷ 30 ∷ [])
    × (g.live 6 ≡ false)
    × SameOutside (5 ∷ 6 ∷ 7 ∷ []) heap g
list_remove-middle_example = list_remove-middle three (5 ∷ []) 6 (7 ∷ []) three-IsList

list_pop-nil_example : list_pop empty_list heap ≡ ok (none, empty_list) heap
list_pop-nil_example = list_pop-nil empty_list empty-IsList

list_destroy-Destroyed_example :
    (g : Heap ℕ) × (list_destroy 3 three heap ≡ ok (10 ∷ 20 ∷ 30 ∷ []) g)
    × Destroyed heap (5 ∷ 6 ∷ 7 ∷ []) g
list_destroy-Destroyed_example =
    list_destroy-Destroyed heap three (5 ∷ 6 ∷ 7 ∷ []) 3 three-IsList (omega arith)
