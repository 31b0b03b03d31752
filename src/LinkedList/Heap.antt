-- ===== src/LinkedList/Heap.antt =====
-- The heap of nodes: one map for each field of `Node`, and the commands that read and write them.
use zejf_meteo.Common.{ℕ, ◌==◌, Bool, true, false, ◌&&◌, not, if◌then◌else◌}

abbrev pub Ptr : Type 0
Ptr = ℕ

abbrev pub null : Ptr
null = 0

-- `live` tells the nodes that are allocated.
pub record Heap (A : Type 0) : Type 0 where
  pub live : Ptr → Bool
  pub next : Ptr → Ptr
  pub previous : Ptr → Ptr
  pub item : Ptr → A

abbrev pub update {ℓ} : {B : Type ℓ} → (Ptr → B) → Ptr → B → Ptr → B
update f p v a = if a == p then v else f a

pub data Run (A B : Type 0) : Type 0 where
  ok : B → Heap A → Run A B
  fault : Run A B
  out_of_fuel : Run A B

abbrev pub Cmd : Type 0 → Type 0 → Type 0
Cmd A B = Heap A → Run A B

abbrev pub pure : {A B : Type 0} → B → Cmd A B
pure = ok

module _ {A B C : Type 0} where
  abbrev pub and_then : Run A B → (B → Cmd A C) → Run A C
  and_then (ok b h) k = k b h
  and_then fault k = fault
  and_then out_of_fuel k = out_of_fuel

  infixl 5 ◌>>=◌
  abbrev pub ◌>>=◌ : Cmd A B → (B → Cmd A C) → Cmd A C
  m >>= k = λ h. and_then (m h) k

module _ {A C : Type 0} where
  infixl 5 ◌>>◌
  abbrev pub ◌>>◌ : Cmd A (Unit {0}) → Cmd A C → Cmd A C
  m >> k = m >>= λ _. k

module _ {A : Type 0} where
  -- A pointer that may be followed: not NULL, and not to a freed node.
  abbrev pub usable : Heap A → Ptr → Bool
  usable h p = not (p == null) && h.live p

module _ {A B : Type 0} where
  abbrev pub access : Ptr → (Heap A → Run A B) → Cmd A B
  access p k h = if usable h p then k h else fault

module _ {A : Type 0} where
  unfoldable pub get_next : Ptr → Cmd A Ptr
  get_next p = access p λ h. ok (h.next p) h

  unfoldable pub get_previous : Ptr → Cmd A Ptr
  get_previous p = access p λ h. ok (h.previous p) h

  unfoldable pub get_item : Ptr → Cmd A A
  get_item p = access p λ h. ok (h.item p) h

  unfoldable pub set_next : Ptr → Ptr → Cmd A (Unit {0})
  set_next p q = access p λ h. ok tt (record h { next = update h.next p q })

  unfoldable pub set_previous : Ptr → Ptr → Cmd A (Unit {0})
  set_previous p q = access p λ h. ok tt (record h { previous = update h.previous p q })

  unfoldable pub set_item : Ptr → A → Cmd A (Unit {0})
  set_item p a = access p λ h. ok tt (record h { item = update h.item p a })

  -- What the fields of a new node hold is left as it was.
  unfoldable pub malloc : Ptr → Cmd A (Unit {0})
  malloc p h = ok tt (record h { live = update h.live p true })

  unfoldable pub free : Ptr → Cmd A (Unit {0})
  free p = access p λ h. ok tt (record h { live = update h.live p false })
