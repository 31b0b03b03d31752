-- ===== src/LinkedList/Destroy.antt =====
-- `list_destroy`: the loop ends, and frees every node once.
use zejf_meteo.Common.{
  ℕ, zero, suc, ◌≤◌, ◌<◌, ◌≡◌, refl, ◌∙◌, true, false, List, [], ◌∷◌, arith, ==_self, length, All,
  has, Distinct,
}
use zejf_meteo.LinkedList.Heap.{Ptr, Heap, update, usable, ok, get_next, get_item, free}
use zejf_meteo.LinkedList.{LinkedList, destroy_loop, list_destroy}
use zejf_meteo.LinkedList.Ring.{Nexts, IsList, items, All-usable-update, usable_parts, ne-of-has'}

-- The nodes `xs` are freed and their items handed over, and no other node is freed or allocated.
abbrev pub Destroyed : {A : Type 0} → Heap A → List Ptr → Heap A → Type 0
Destroyed h xs g =
    All (λ p. g.live p ≡ false) xs × ((a : Ptr) → has a xs ≡ false → g.live a ≡ h.live a)

module _ {A : Type 0} where
  destroy_loop-Destroyed :
      (rounds : ℕ) (h : Heap A) (tail node : Ptr) (xs : List Ptr)
      → Nexts h.next (node ∷ xs) tail
      → All (λ p. usable h p ≡ true) (node ∷ xs)
      → Distinct (node ∷ xs)
      → has tail xs ≡ false
      → length xs < rounds
      → (g : Heap A) × (destroy_loop rounds tail node h ≡ ok (items h (node ∷ xs)) g)
        × Destroyed h (node ∷ xs) g
  unfolding destroy_loop get_next get_item free
  destroy_loop-Destroyed zero h tail node xs n u d out enough = absurd (omega arith)
  destroy_loop-Destroyed (suc rounds) h tail node [] n u d out enough =
      let (node_null, node_live) = usable_parts h node u.0 in
      (
        record h { live = update h.live node false },
        simp (node_null, node_live, n.0, ==_self),
        ((rw (==_self node), tt), λ a o. ground arith),
      )
  destroy_loop-Destroyed (suc rounds) h tail node (y ∷ ys) n u d out enough =
      let (node_null, node_live) = usable_parts h node u.0 in
      let y_tail = ne-of-has' tail y (y ∷ ys) out (rw (==_self y)) in
      let freed : Heap A = record h { live = update h.live node false } in
      let (g, runs, gone) =
        destroy_loop-Destroyed rounds freed tail y ys n.1
          (All-usable-update h (y ∷ ys) node false d.0 u.1) d.1 (ground arith) (omega arith) in
      (
        g,
        simp (node_null, node_live, n.0, y_tail) (rw runs),
        (
          (gone.1 node d.0 ∙ rw (==_self node), gone.0),
          λ a o. gone.1 a (ground arith) ∙ ground arith,
        ),
      )

  -- With as many rounds as there are nodes the loop ends: the destructor gets each item once, in
  -- the order of the ring, every node is freed, and no other node changes.
  pub list_destroy-Destroyed :
      (h : Heap A) (l : LinkedList) (xs : List Ptr) (rounds : ℕ)
      → IsList h l xs
      → length xs ≤ rounds
      → (g : Heap A) × (list_destroy rounds l h ≡ ok (items h xs) g) × Destroyed h xs g
  unfolding list_destroy
  list_destroy-Destroyed h l [] rounds is enough = (h, rw is.tail, (tt, λ a o. refl))
  list_destroy-Destroyed h l (x ∷ xs) rounds is enough =
      let (x_null, x_live) = usable_parts h x is.ring.live.0 in
      let (g, runs, gone) =
        destroy_loop-Destroyed rounds h x x xs is.ring.nexts is.ring.live is.ring.distinct
          is.ring.distinct.0 enough in
      (g, simp (is.tail, x_null) runs, gone)
