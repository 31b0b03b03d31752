-- ===== src/LinkedList/Ring.antt =====
-- A ring of nodes: from the tail the `next` pointers lead through the nodes and back, and the
-- `previous` pointers the other way.
use mathlib.Core.List.{append-nil}
use zejf_meteo.Common.{
  ℕ, ◌≤◌, ◌==◌, ◌≡◌, refl, sym, ◌∙◌, Bool, true, false, List, [], ◌∷◌, ◌++◌, arith, length, map,
  not, ◌&&◌, All, All-append, All-split, has, has-append, Distinct,
}
use zejf_meteo.LinkedList.Heap.{Ptr, null, Heap, update, usable}
use zejf_meteo.LinkedList.{LinkedList}

abbrev pub first_or : List Ptr → Ptr → Ptr
first_or [] d = d
first_or (x ∷ xs) d = x

abbrev pub last_or : List Ptr → Ptr → Ptr
last_or [] d = d
last_or (x ∷ xs) d = last_or xs x

-- The `next` pointers of the nodes lead from each to the one behind it, and from the last to `stop`.
abbrev pub Nexts : (Ptr → Ptr) → List Ptr → Ptr → Type 0
Nexts f [] stop = Unit
Nexts f (x ∷ xs) stop = (f x ≡ first_or xs stop) × Nexts f xs stop

-- The `previous` pointers lead back, and from the first to `before`.
abbrev pub Prevs : (Ptr → Ptr) → Ptr → List Ptr → Type 0
Prevs f before [] = Unit
Prevs f before (x ∷ xs) = (f x ≡ before) × Prevs f x xs

pub first_or-append :
    (xs ys : List Ptr) (d : Ptr) → first_or (xs ++ ys) d ≡ first_or xs (first_or ys d)
first_or-append [] ys d = refl
first_or-append (x ∷ xs) ys d = refl

pub last_or-append : (xs ys : List Ptr) (d : Ptr) → last_or (xs ++ ys) d ≡ last_or ys (last_or xs d)
last_or-append [] ys d = refl
last_or-append (x ∷ xs) ys d = last_or-append xs ys x

pub has-last_or : (x : Ptr) (xs : List Ptr) → has (last_or xs x) (x ∷ xs) ≡ true
has-last_or x [] = ground arith
has-last_or x (y ∷ xs) = ground (arith, has-last_or y xs)

-- A number in a list is not one outside it.
pub ne-of-has : (a b : ℕ) (xs : List ℕ) → has a xs ≡ false → has b xs ≡ true → (a == b) ≡ false
ne-of-has a b [] out mem = cc
ne-of-has a b (x ∷ xs) out mem = ground (arith, ne-of-has a b xs)

pub ne-of-has' : (a b : ℕ) (xs : List ℕ) → has a xs ≡ false → has b xs ≡ true → (b == a) ≡ false
ne-of-has' a b [] out mem = cc
ne-of-has' a b (x ∷ xs) out mem = ground (arith, ne-of-has' a b xs)

module _ (f : Ptr → Ptr) where
  pub Nexts-append :
      (xs ys : List Ptr) (stop : Ptr)
      → Nexts f xs (first_or ys stop)
      → Nexts f ys stop
      → Nexts f (xs ++ ys) stop
  Nexts-append [] ys stop hx hy = hy
  Nexts-append (x ∷ xs) ys stop hx hy = (rw first_or-append hx.0, Nexts-append xs ys stop hx.1 hy)

  pub Nexts-split :
      (xs ys : List Ptr) (stop : Ptr)
      → Nexts f (xs ++ ys) stop
      → Nexts f xs (first_or ys stop) × Nexts f ys stop
  Nexts-split [] ys stop h = (tt, h)
  Nexts-split (x ∷ xs) ys stop h =
      let rest = Nexts-split xs ys stop h.1 in ((rw first_or-append at h.0, rest.0), rest.1)

  pub Prevs-append :
      (before : Ptr) (xs ys : List Ptr)
      → Prevs f before xs
      → Prevs f (last_or xs before) ys
      → Prevs f before (xs ++ ys)
  Prevs-append before [] ys hx hy = hy
  Prevs-append before (x ∷ xs) ys hx hy = (hx.0, Prevs-append x xs ys hx.1 hy)

  pub Prevs-split :
      (before : Ptr) (xs ys : List Ptr)
      → Prevs f before (xs ++ ys)
      → Prevs f before xs × Prevs f (last_or xs before) ys
  Prevs-split before [] ys h = (tt, h)
  Prevs-split before (x ∷ xs) ys h = let rest = Prevs-split x xs ys h.1 in ((h.0, rest.0), rest.1)

  -- A write to a node outside leaves the pointers as they are.
  pub Nexts-update :
      (xs : List Ptr) (stop p v : Ptr)
      → has p xs ≡ false
      → Nexts f xs stop
      → Nexts (update f p v) xs stop
  Nexts-update [] stop p v out h = tt
  Nexts-update (x ∷ xs) stop p v out h = (ground arith, Nexts-update xs stop p v (ground arith) h.1)

  pub Prevs-update :
      (before : Ptr) (xs : List Ptr) (p v : Ptr)
      → has p xs ≡ false
      → Prevs f before xs
      → Prevs (update f p v) before xs
  Prevs-update before [] p v out h = tt
  Prevs-update before (x ∷ xs) p v out h = (ground arith, Prevs-update x xs p v (ground arith) h.1)

  -- A write to the last node's `next` changes where the nodes lead.
  pub Nexts-update_last :
      (x : Ptr) (xs : List Ptr) (stop v : Ptr)
      → Distinct (x ∷ xs)
      → Nexts f (x ∷ xs) stop
      → Nexts (update f (last_or xs x) v) (x ∷ xs) v
  Nexts-update_last x [] stop v d h = (ground arith, tt)
  Nexts-update_last x (y ∷ xs) stop v d h = (
    rw (ne-of-has x (last_or xs y) (y ∷ xs) d.0 (has-last_or y xs)) h.0,
    Nexts-update_last y xs stop v d.1 h.1,
  )

Distinct-middle :
    (xs ys : List Ptr) (a : Ptr)
    → Distinct (xs ++ ys)
    → has a (xs ++ ys) ≡ false
    → Distinct (xs ++ (a ∷ ys))
Distinct-middle [] ys a d out = (out, d)
Distinct-middle (x ∷ xs) ys a d out = (
  ground (arith, has-append x xs (a ∷ ys), has-append x xs ys, d.0),
  Distinct-middle xs ys a d.1 (ground arith),
)

pub has-swap : (a : Ptr) (xs ys : List Ptr) → has a (xs ++ ys) ≡ has a (ys ++ xs)
has-swap a xs ys = ground (arith, has-append a xs ys, has-append a ys xs)

Distinct-swap : (xs ys : List Ptr) → Distinct (xs ++ ys) → Distinct (ys ++ xs)
Distinct-swap [] ys d = rw append-nil d
Distinct-swap (x ∷ xs) ys d =
    Distinct-middle ys xs x (Distinct-swap xs ys d.1) (sym (has-swap x xs ys) ∙ d.0)

-- The ring of the nodes `xs`, the tail first.
pub record IsRing {A : Type 0} (h : Heap A) (xs : List Ptr) : Type 0 where
  pub nexts : Nexts h.next xs (first_or xs null)
  pub prevs : Prevs h.previous (last_or xs null) xs
  pub live : All (λ p. usable h p ≡ true) xs
  pub distinct : Distinct xs

module _ {A : Type 0} {h : Heap A} where
  IsRing-rotate_cons :
      (x y : Ptr) (xs ys : List Ptr)
      → IsRing h ((x ∷ xs) ++ (y ∷ ys))
      → IsRing h ((y ∷ ys) ++ (x ∷ xs))
  IsRing-rotate_cons x y xs ys r =
      let n = Nexts-split h.next (x ∷ xs) (y ∷ ys) x r.nexts in
      let p = Prevs-split h.previous (last_or (xs ++ (y ∷ ys)) x) (x ∷ xs) (y ∷ ys) r.prevs in
      let l = All-split (λ q. usable h q ≡ true) (x ∷ xs) (y ∷ ys) r.live in
      record {
        nexts = Nexts-append h.next (y ∷ ys) (x ∷ xs) y n.1 n.0;
        prevs =
            Prevs-append h.previous _ (y ∷ ys) (x ∷ xs)
              (rw (last_or-append (y ∷ ys) (x ∷ xs) null) p.1)
              (rw (last_or-append xs (y ∷ ys) x) at p.0);
        live = All-append (λ q. usable h q ≡ true) (y ∷ ys) (x ∷ xs) l.1 l.0;
        distinct = Distinct-swap (x ∷ xs) (y ∷ ys) r.distinct;
      }

  -- A ring may be read from any of its nodes.
  pub IsRing-rotate : (xs ys : List Ptr) → IsRing h (xs ++ ys) → IsRing h (ys ++ xs)
  IsRing-rotate [] ys r = rw append-nil r
  IsRing-rotate (x ∷ xs) [] r = rw append-nil at r
  IsRing-rotate (x ∷ xs) (y ∷ ys) r = IsRing-rotate_cons x y xs ys r

-- What a list value stands for: the nodes of its ring from the tail to the head.
pub record IsList {A : Type 0} (h : Heap A) (l : LinkedList) (xs : List Ptr) : Type 0 where
  pub ring : IsRing h xs
  pub tail : l.tail ≡ first_or xs null
  pub head : l.head ≡ last_or xs null
  pub count : l.item_count ≡ length xs
  pub room : length xs ≤ l.capacity

-- The heap `g` differs from `h` at most at the nodes of `xs`.
pub record SameOutside {A : Type 0} (xs : List Ptr) (h g : Heap A) : Type 0 where
  pub same_live : (a : Ptr) → has a xs ≡ false → g.live a ≡ h.live a
  pub same_next : (a : Ptr) → has a xs ≡ false → g.next a ≡ h.next a
  pub same_previous : (a : Ptr) → has a xs ≡ false → g.previous a ≡ h.previous a
  pub same_item : (a : Ptr) → has a xs ≡ false → g.item a ≡ h.item a

-- The items, in the order in which `list_pop` returns them.
abbrev pub items : {A : Type 0} → Heap A → List Ptr → List A
items h = map h.item

pub items-update :
    {A : Type 0} (h : Heap A) (xs : List Ptr) (p : Ptr) (a : A)
    → has p xs ≡ false
    → map (update h.item p a) xs ≡ map h.item xs
items-update h [] p a out = refl
items-update h (x ∷ xs) p a out = ground (arith, items-update h xs p a)

pub All-usable-update :
    {A : Type 0} (h : Heap A) (xs : List Ptr) (p : Ptr) (b : Bool)
    → has p xs ≡ false
    → All (λ q. usable h q ≡ true) xs
    → All (λ q. (not (q == null) && update h.live p b q) ≡ true) xs
All-usable-update h [] p b out u = tt
All-usable-update h (x ∷ xs) p b out u =
    (ground arith, All-usable-update h xs p b (ground arith) u.1)

-- A node that is not allocated is outside every ring.
pub not-has-of-free :
    {A : Type 0} (h : Heap A) (xs : List Ptr) (p : Ptr)
    → h.live p ≡ false
    → All (λ q. usable h q ≡ true) xs
    → has p xs ≡ false
not-has-of-free h [] p free u = refl
not-has-of-free h (x ∷ xs) p free u = ground (arith, not-has-of-free h xs p free u.1)

-- The ends of a ring are its nodes.
pub usable-last_or :
    {A : Type 0} (h : Heap A) (x : Ptr) (xs : List Ptr)
    → All (λ q. usable h q ≡ true) (x ∷ xs)
    → usable h (last_or xs x) ≡ true
usable-last_or h x [] u = u.0
usable-last_or h x (y ∷ xs) u = usable-last_or h y xs u.1

pub usable_parts :
    {A : Type 0} (h : Heap A) (p : Ptr)
    → usable h p ≡ true
    → ((p == null) ≡ false) × (h.live p ≡ true)
usable_parts h p u = ground arith
