-- ===== src/LinkedList/Push.antt =====
-- `list_push`, `list_pop` on an empty list and `list_is_full` against the sequence of the nodes.
use mathlib.Core.List.{map-append}
use zejf_meteo.Common.{
  ◌+◌, ◌==◌, ◌≡◌, refl, sym, ap, ◌∙◌, ◌≢◌, true, false, ◌||◌, List, [], ◌∷◌, ◌++◌, arith, ==_self,
  ==→ne, ==→eq, ◌↔◌, has-append, length, length-append, All-append, has, Distinct-snoc,
}
use zejf_meteo.LinkedList.Heap.{
  Ptr, null, Heap, update, usable, ok, set_next, set_previous, set_item, malloc,
}
use zejf_meteo.LinkedList.{LinkedList, list_push, list_is_full}
use zejf_meteo.LinkedList.Ring.{
  first_or, last_or, first_or-append, Nexts-append, Nexts-update, Nexts-update_last, Prevs-append,
  Prevs-update, IsRing, IsList, SameOutside, items, items-update, All-usable-update,
  not-has-of-free, usable-last_or, has-last_or, ne-of-has, ne-of-has', usable_parts, last_or-append,
}

-- The heap after a push behind the ring of `xs`.
abbrev pub pushed_heap : {A : Type 0} → Heap A → Ptr → A → List Ptr → Heap A
pushed_heap h new a [] = record h {
  live = update h.live new true;
  next = update h.next new new;
  previous = update h.previous new new;
  item = update h.item new a;
}
pushed_heap h new a (x ∷ xs) = record h {
  live = update h.live new true;
  next = update (update h.next (last_or xs x) new) new x;
  previous = update (update h.previous new (last_or xs x)) x new;
  item = update h.item new a;
}

module _ {A : Type 0} {h : Heap A} (new : Ptr) (a : A) (ne : (new == null) ≡ false)
    (unused : h.live new ≡ false) where
  pushed-IsRing_cons :
      (x : Ptr) (xs : List Ptr)
      → IsRing h (x ∷ xs)
      → IsRing (pushed_heap h new a (x ∷ xs)) ((x ∷ xs) ++ (new ∷ []))
  pushed-IsRing_cons x xs r =
      let out : has new (x ∷ xs) ≡ false = not-has-of-free h (x ∷ xs) new unused r.live in
      let first : (x == new) ≡ false = ground arith in
      record {
        nexts =
            Nexts-append _ (x ∷ xs) (new ∷ []) x
              (Nexts-update _ (x ∷ xs) new new x out
                (Nexts-update_last h.next x xs x new r.distinct r.nexts))
              (ground arith, tt);
        prevs = rw (last_or-append xs (new ∷ []) x) (
          ground arith,
          Prevs-append _ x xs (new ∷ [])
              (Prevs-update _ x xs x new r.distinct.0
                (Prevs-update h.previous x xs new _ (ground arith) r.prevs.1))
              (ground arith, tt),
        );
        live =
            All-append (λ q. usable (pushed_heap h new a (x ∷ xs)) q ≡ true) (x ∷ xs) (new ∷ [])
              (All-usable-update h (x ∷ xs) new true out r.live) (ground arith, tt);
        distinct = Distinct-snoc (x ∷ xs) new r.distinct out;
      }

  pushed-IsRing : (xs : List Ptr) → IsRing h xs → IsRing (pushed_heap h new a xs) (xs ++ (new ∷ []))
  pushed-IsRing [] r = record {
    nexts = (ground arith, tt);
    prevs = (ground arith, tt);
    live = (ground arith, tt);
    distinct = (refl, tt);
  }
  pushed-IsRing (x ∷ xs) r = pushed-IsRing_cons x xs r

  -- What the commands of a push compute.
  list_push-pushed_heap :
      (l : LinkedList) (xs : List Ptr)
      → IsList h l xs
      → list_is_full l ≡ false
      → list_push new l a h
        ≡ ok
            (true, record l { head = new; tail = first_or xs new; item_count = l.item_count + 1 })
            (pushed_heap h new a xs)
  unfolding list_push set_next set_previous set_item malloc
  list_push-pushed_heap l [] is room = simp (room, ne, is.head, ==_self)
  list_push-pushed_heap l (x ∷ xs) is room =
      let out : has new (x ∷ xs) ≡ false = not-has-of-free h (x ∷ xs) new unused is.ring.live in
      let end = last_or xs x in
      let (end_null, end_live) = usable_parts h end (usable-last_or h x xs is.ring.live) in
      let end_new = ne-of-has' new end (x ∷ xs) out (has-last_or x xs) in
      let (first_null, first_live) = usable_parts h x is.ring.live.0 in
      let first = ne-of-has' new x (x ∷ xs) out (rw (==_self x)) in
      simp (
        room, ne, is.head, is.tail, end_null, end_new, end_live, ==_self, first, first_null,
        first_live,
      )

  pushed-items :
      (xs : List Ptr)
      → IsRing h xs
      → items (pushed_heap h new a xs) (xs ++ (new ∷ [])) ≡ items h xs ++ (a ∷ [])
  pushed-items [] r = ground arith
  pushed-items (x ∷ xs) r =
      let out : has new (x ∷ xs) ≡ false = not-has-of-free h (x ∷ xs) new unused r.live in
      map-append (update h.item new a) (x ∷ xs) (new ∷ [])
      ∙ ap (λ (bs : List A). bs ++ (update h.item new a new ∷ []))
          (items-update h (x ∷ xs) new a out)
      ∙ ap (λ (b : A). items h (x ∷ xs) ++ (b ∷ [])) (rw (==_self new))

  pushed-SameOutside : (xs : List Ptr) → SameOutside (xs ++ (new ∷ [])) h (pushed_heap h new a xs)
  pushed-SameOutside [] = ground arith
  pushed-SameOutside (x ∷ xs) = record {
    same_live = λ b out. ground (arith, has-append b xs (new ∷ []));
    same_next = λ b out.
        ground (
          arith,
          has-append b xs (new ∷ []),
          ne-of-has b (last_or xs x) (x ∷ xs),
          has-last_or x xs,
        );
    same_previous = λ b out. ground (arith, has-append b xs (new ∷ []));
    same_item = λ b out. ground (arith, has-append b xs (new ∷ []));
  }

  -- A list that is not full takes the item at its head, if `malloc` returns an unused node, and
  -- nothing outside the ring changes.
  pub list_push-append :
      (l : LinkedList) (xs : List Ptr)
      → IsList h l xs
      → list_is_full l ≡ false
      → (l' : LinkedList) × (g : Heap A) × (list_push new l a h ≡ ok (true, l') g)
        × IsList g l' (xs ++ (new ∷ []))
        × (l'.capacity ≡ l.capacity)
        × (items g (xs ++ (new ∷ [])) ≡ items h xs ++ (a ∷ []))
        × SameOutside (xs ++ (new ∷ [])) h g
  unfolding list_is_full
  list_push-append l xs is room =
      let grown = length-append xs (new ∷ []) in
      let space : l.item_count ≢ l.capacity = ==→ne _ _ room in
      (
        record l { head = new; tail = first_or xs new; item_count = l.item_count + 1 },
        pushed_heap h new a xs,
        list_push-pushed_heap l xs is room,
        record {
          ring = pushed-IsRing xs is.ring;
          tail = sym (first_or-append xs (new ∷ []) null);
          head = sym (last_or-append xs (new ∷ []) null);
          count = omega (arith, grown, is.count);
          room = omega (arith, grown, is.count, is.room, space);
        },
        refl,
        pushed-items xs is.ring,
        pushed-SameOutside xs,
      )

module _ {A : Type 0} (h : Heap A) (l : LinkedList) (a : A) where
  -- A full list, or a failing `malloc`, changes nothing.
  pub list_push-refused :
      (new : Ptr) → (list_is_full l || (new == null)) ≡ true → list_push new l a h ≡ ok (false, l) h
  unfolding list_push
  list_push-refused new refused = ground arith

-- A list is full exactly when its ring has as many nodes as its capacity.
pub list_is_full_iff :
    {A : Type 0} {h : Heap A} {l : LinkedList} {xs : List Ptr}
    → IsList h l xs
    → (list_is_full l ≡ true) ↔ (length xs ≡ l.capacity)
unfolding list_is_full
list_is_full_iff {l} {xs} is = (
  λ e. omega (arith, ==→eq l.item_count l.capacity e, is.count),
  λ e. rw (is.count, e) (==_self _),
)
