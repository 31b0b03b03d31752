-- ===== src/LinkedList/Remove.antt =====
-- `list_remove`, `list_pop` and `list_prioritise` against the sequence of the nodes.
use mathlib.Core.List.{append-nil}
use zejf_meteo.Common.{
  ◌-◌, ◌≡◌, refl, ◌∙◌, false, List, [], ◌∷◌, ◌++◌, none, some, arith, ==_self, has-append,
  length-append, has,
}
use zejf_meteo.LinkedList.Heap.{
  Ptr, null, Heap, update, ok, get_next, get_previous, get_item, set_next, set_previous, free,
}
use zejf_meteo.LinkedList.{LinkedList, list_remove, list_pop, list_prioritise, move_ends, unlink}
use zejf_meteo.LinkedList.Ring.{
  first_or, last_or, Nexts-update_last, Prevs-update, IsRing, IsRing-rotate, IsList, SameOutside,
  items, All-usable-update, usable-last_or, has-last_or, ne-of-has, usable_parts, last_or-append,
  has-swap,
}

-- The heap after the node `p`, the tail of the ring of `p` and `ws`, is unlinked and freed.
abbrev pub removed_heap : {A : Type 0} → Heap A → Ptr → List Ptr → Heap A
removed_heap h p [] = record h {
  live = update h.live p false;
  next = update h.next p p;
  previous = update h.previous p p;
}
removed_heap h p (w ∷ ws) = record h {
  live = update h.live p false;
  next = update h.next (last_or ws w) w;
  previous = update h.previous w (last_or ws w);
}

module _ {A : Type 0} (h : Heap A) where
  removed-items : (p : Ptr) (ws xs : List Ptr) → items (removed_heap h p ws) xs ≡ items h xs
  removed-items p [] xs = refl
  removed-items p (w ∷ ws) xs = refl

  removed-live : (p : Ptr) (ws : List Ptr) → (removed_heap h p ws).live p ≡ false
  removed-live p [] = rw (==_self p)
  removed-live p (w ∷ ws) = rw (==_self p)

module _ {A : Type 0} {h : Heap A} where
  removed-IsRing : (p : Ptr) (ws : List Ptr) → IsRing h (p ∷ ws) → IsRing (removed_heap h p ws) ws
  removed-IsRing p [] r = record { nexts = tt; prevs = tt; live = tt; distinct = tt }
  removed-IsRing p (w ∷ ws) r = record {
    nexts = Nexts-update_last h.next w ws p w r.distinct.1 r.nexts.1;
    prevs = (ground arith, Prevs-update h.previous w ws w _ r.distinct.1.0 r.prevs.1.1);
    live = All-usable-update h (w ∷ ws) p false r.distinct.0 r.live.1;
    distinct = r.distinct.1;
  }

  removed-SameOutside : (p : Ptr) (ws : List Ptr) → SameOutside (p ∷ ws) h (removed_heap h p ws)
  removed-SameOutside p [] = ground arith
  removed-SameOutside p (w ∷ ws) = record {
    same_live = ground arith;
    same_next =
        λ a out. rw (ne-of-has a (last_or ws w) (w ∷ ws) (ground arith) (has-last_or w ws)) refl;
    same_previous = ground arith;
    same_item = ground arith;
  }

  SameOutside-swap :
      {g : Heap A} (xs ys : List Ptr) → SameOutside (ys ++ xs) h g → SameOutside (xs ++ ys) h g
  SameOutside-swap xs ys same = record {
    same_live = λ a out. same.same_live a (has-swap a ys xs ∙ out);
    same_next = λ a out. same.same_next a (has-swap a ys xs ∙ out);
    same_previous = λ a out. same.same_previous a (has-swap a ys xs ∙ out);
    same_item = λ a out. same.same_item a (has-swap a ys xs ∙ out);
  }

  -- What the commands of a removal compute, but for the ends of the list.
  unlink-removed_heap :
      (p : Ptr) (ws : List Ptr)
      → IsRing h (p ∷ ws)
      → (g : Heap A) × (unlink p h ≡ ok tt g)
        × (get_item p g ≡ ok (h.item p) g)
        × (free p g ≡ ok tt (removed_heap h p ws))
  unfolding unlink get_next get_previous get_item set_next set_previous free
  unlink-removed_heap p [] r =
      let (p_null, p_live) = usable_parts h p r.live.0 in
      (
        record h { next = update h.next p p; previous = update h.previous p p },
        simp (p_null, p_live, r.nexts.0, r.prevs.0, ==_self),
        simp (p_null, p_live),
        simp (p_null, p_live),
      )
  unlink-removed_heap p (w ∷ ws) r =
      let end = last_or ws w in
      let (p_null, p_live) = usable_parts h p r.live.0 in
      let (w_null, w_live) = usable_parts h w r.live.1.0 in
      let (end_null, end_live) = usable_parts h end (usable-last_or h w ws r.live.1) in
      let p_end = ne-of-has p end (w ∷ ws) r.distinct.0 (has-last_or w ws) in
      let p_w = ne-of-has p w (w ∷ ws) r.distinct.0 (rw (==_self w)) in
      (
        record h { next = update h.next end w; previous = update h.previous w end },
        simp (
          p_null, p_live, r.nexts.0, r.prevs.0, w_null, w_live, end_null, end_live, p_end, ==_self,
        ),
        simp (p_null, p_live),
        simp (p_null, p_live),
      )

  -- The ends of the list move off the node.
  move_ends-eq :
      (l : LinkedList) (ys : List Ptr) (p : Ptr) (zs : List Ptr)
      → IsList h l (ys ++ (p ∷ zs))
      → has p zs ≡ false
      → has p ys ≡ false
      → move_ends l p h
        ≡ ok (record l { tail = first_or (ys ++ zs) null; head = last_or (ys ++ zs) null }) h
  unfolding move_ends get_next get_previous
  move_ends-eq l [] p [] is behind before = simp (is.tail, is.head, ==_self)
  move_ends-eq l [] p (z ∷ zs) is behind before =
      let (p_null, p_live) = usable_parts h p is.ring.live.0 in
      let p_end = ne-of-has p (last_or zs z) (z ∷ zs) behind (has-last_or z zs) in
      simp (is.tail, is.head, p_end, p_null, p_live, is.ring.nexts.0, ==_self)
  move_ends-eq l (y ∷ ys) p [] is behind before =
      let around = IsRing-rotate (y ∷ ys) (p ∷ []) is.ring in
      let (p_null, p_live) = usable_parts h p around.live.0 in
      let p_y = ne-of-has p y (y ∷ ys) before (rw (==_self y)) in
      let end : l.head ≡ p = is.head ∙ last_or-append ys (p ∷ []) y in
      simp (is.tail, end, p_y, p_null, p_live, around.prevs.0, append-nil, ==_self)
  move_ends-eq l (y ∷ ys) p (z ∷ zs) is behind before =
      let p_y = ne-of-has p y (y ∷ ys) before (rw (==_self y)) in
      let p_end = ne-of-has p (last_or zs z) (z ∷ zs) behind (has-last_or z zs) in
      let end : l.head ≡ last_or zs z = is.head ∙ last_or-append ys (p ∷ z ∷ zs) y in
      let end' = last_or-append ys (z ∷ zs) y in
      simp (is.tail, end, p_y, p_end, end')
        (λ i. ok (record l { tail = is.tail i; head = end i }) h)

  -- `list_remove` takes a node of the ring out, frees it and returns its item.
  pub list_remove-middle :
      (l : LinkedList) (ys : List Ptr) (p : Ptr) (zs : List Ptr)
      → IsList h l (ys ++ (p ∷ zs))
      → (l' : LinkedList) × (g : Heap A) × (list_remove l p h ≡ ok (some (h.item p), l') g)
        × IsList g l' (ys ++ zs)
        × (l'.capacity ≡ l.capacity)
        × (items g (ys ++ zs) ≡ items h (ys ++ zs))
        × (g.live p ≡ false)
        × SameOutside (ys ++ (p ∷ zs)) h g
  unfolding list_remove
  list_remove-middle l ys p zs is =
      let around = IsRing-rotate ys (p ∷ zs) is.ring in
      let behind : has p zs ≡ false = ground (arith, has-append p zs ys, around.distinct.0) in
      let before : has p ys ≡ false = ground (arith, has-append p zs ys, around.distinct.0) in
      let (p_null, p_live) = usable_parts h p around.live.0 in
      let (g, unlinked, got, freed) = unlink-removed_heap p (zs ++ ys) around in
      let ends = move_ends-eq l ys p zs is behind before in
      let grown = length-append ys (p ∷ zs) in
      let left = length-append ys zs in
      (
        record l {
          tail = first_or (ys ++ zs) null;
          head = last_or (ys ++ zs) null;
          item_count = l.item_count - 1;
        },
        removed_heap h p (zs ++ ys),
        rw (p_null, ends, unlinked, got, freed),
        record {
          ring = IsRing-rotate zs ys (removed-IsRing p (zs ++ ys) around);
          tail = refl;
          head = refl;
          count = omega (arith, grown, left, is.count);
          room = omega (arith, grown, left, is.room);
        },
        refl,
        removed-items h p (zs ++ ys) (ys ++ zs),
        removed-live h p (zs ++ ys),
        SameOutside-swap ys (p ∷ zs) (removed-SameOutside p (zs ++ ys)),
      )

  -- A removal of NULL, as by `list_pop` on an empty list, changes nothing.
  pub list_pop-nil : (l : LinkedList) → IsList h l [] → list_pop l h ≡ ok (none, l) h
  unfolding list_pop list_remove
  list_pop-nil l is = rw is.tail

  -- `list_prioritise` turns the ring, so that the node is the tail and is the next to be popped.
  pub list_prioritise-rotate :
      (l : LinkedList) (ys : List Ptr) (p : Ptr) (zs : List Ptr)
      → IsList h l (ys ++ (p ∷ zs))
      → (l' : LinkedList) × (list_prioritise l p h ≡ ok l' h)
        × IsList h l' ((p ∷ zs) ++ ys)
        × (l'.capacity ≡ l.capacity)
  unfolding list_prioritise get_previous
  list_prioritise-rotate l ys p zs is =
      let around = IsRing-rotate ys (p ∷ zs) is.ring in
      let (p_null, p_live) = usable_parts h p around.live.0 in
      let grown = length-append ys (p ∷ zs) in
      let left = length-append (p ∷ zs) ys in
      (
        record l { tail = p; head = last_or (zs ++ ys) p },
        rw (p_null, p_live) (rw around.prevs.0),
        record {
          ring = around;
          tail = refl;
          head = refl;
          count = omega (arith, grown, left, is.count);
          room = omega (arith, grown, left, is.room);
        },
        refl,
      )

  -- `list_pop` takes the item that was pushed first.
  pub list_pop-cons :
      (l : LinkedList) (p : Ptr) (xs : List Ptr)
      → IsList h l (p ∷ xs)
      → (l' : LinkedList) × (g : Heap A) × (list_pop l h ≡ ok (some (h.item p), l') g)
        × IsList g l' xs
        × (l'.capacity ≡ l.capacity)
        × (items g xs ≡ items h xs)
        × (g.live p ≡ false)
        × SameOutside (p ∷ xs) h g
  unfolding list_pop
  list_pop-cons l p xs is = simp is.tail (list_remove-middle l [] p xs is)
