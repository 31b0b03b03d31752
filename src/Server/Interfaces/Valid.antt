-- ===== src/Server/Interfaces/Valid.antt =====
-- What holds of the interfaces of core/devices/ZejfMeteo/src/interface_manager.c, and what a removal
-- leaves.
use mathlib.Core.List.{map-append}
use zejf_meteo.Common.{
  ℕ, ◌+◌, ◌-◌, ◌==◌, ◌≤◌, ◌<◌, ◌≡◌, refl, ap, ◌∙◌, Bool, true, false, ◌||◌, List, [], ◌∷◌, ◌++◌,
  map, leb, length, length-append, take, take-append, has, Distinct, Distinct-snoc, All, All-append,
  arith, inl, inr, Bool-cases, leb→lt, ==-of-eq,
}
use zejf_meteo.Server.Interfaces.{
  Interfaces, interfaces_max, set_uid, interface_add, Removal, remove_loop, interface_remove,
}

-- No interface of the list has the uid.
abbrev pub NoneHas : (ℕ → ℕ) → ℕ → List ℕ → Type 0
NoneHas uid wanted xs = All (λ x. (uid x == wanted) ≡ false) xs

abbrev last_of : ℕ → List ℕ → ℕ
last_of x [] = x
last_of x (y ∷ ys) = last_of y ys

-- From a found interface on, the array moves up by one and the last one stays behind.
record Moved (r : Removal) (x : ℕ) (xs : List ℕ) : Type 0 where
  found : r.found ≡ true
  array : r.array ≡ xs ++ (last_of x xs ∷ [])

moved :
    (uid : ℕ → ℕ) (wanted : ℕ) (found : Bool) (x : ℕ) (xs : List ℕ)
    → ((uid x == wanted) || found) ≡ true
    → Moved (remove_loop uid wanted found (x ∷ xs)) x xs
unfolding remove_loop
moved uid wanted found x [] e = record { found = e; array = refl }
moved uid wanted found x (y ∷ ys) e =
    let still : ((uid y == wanted) || true) ≡ true = ground arith in
    let r = moved uid wanted true y ys still in
    rw e (record { found = r.found; array = ap (◌∷◌ y) r.array })

no_second :
    (uid : ℕ → ℕ) (wanted : ℕ) (found : Bool) (xs : List ℕ)
    → NoneHas uid wanted xs
    → (remove_loop uid wanted found xs).removed ≡ []
unfolding remove_loop
no_second uid wanted found [] h = refl
no_second uid wanted found (x ∷ []) (hx, h) = rw hx refl
no_second uid wanted found (x ∷ y ∷ ys) (hx, h) = rw hx (no_second uid wanted found (y ∷ ys) h)

-- What the loop does to an array with the interface in it.
record Removed (r : Removal) (x : ℕ) (kept : List ℕ) : Type 0 where
  found : r.found ≡ true
  removed : r.removed ≡ x ∷ []
  last : ℕ
  array : r.array ≡ kept ++ (last ∷ [])

at_interface :
    (uid : ℕ → ℕ) (wanted x : ℕ) (xs : List ℕ)
    → (uid x == wanted) ≡ true
    → NoneHas uid wanted xs
    → Removed (remove_loop uid wanted false (x ∷ xs)) x xs
unfolding remove_loop
at_interface uid wanted x [] e h =
    let m = moved uid wanted false x [] (rw e refl) in
    record { found = m.found; removed = rw e refl; last = x; array = m.array }
at_interface uid wanted x (y ∷ ys) e h =
    let m = moved uid wanted false x (y ∷ ys) (rw e refl) in
    record {
      found = m.found;
      removed = rw e (ap (◌∷◌ x) (no_second uid wanted true (y ∷ ys) h));
      last = last_of x (y ∷ ys);
      array = m.array;
    }

before_interface :
    (uid : ℕ → ℕ) (wanted : ℕ) (pre : List ℕ) (x : ℕ) (post : List ℕ)
    → NoneHas uid wanted pre
    → (uid x == wanted) ≡ true
    → NoneHas uid wanted post
    → Removed (remove_loop uid wanted false (pre ++ (x ∷ post))) x (pre ++ post)
unfolding remove_loop
before_interface uid wanted [] x post h e h' = at_interface uid wanted x post e h'
before_interface uid wanted (p ∷ []) x post (hp, h) e h' =
    let r = before_interface uid wanted [] x post h e h' in
    rw hp
      (record { found = r.found; removed = r.removed; last = r.last; array = ap (◌∷◌ p) r.array })
before_interface uid wanted (p ∷ q ∷ pre) x post (hp, h) e h' =
    let r = before_interface uid wanted (q ∷ pre) x post h e h' in
    rw hp
      (record { found = r.found; removed = r.removed; last = r.last; array = ap (◌∷◌ p) r.array })

-- When one interface has the uid, interface_remove calls interface_removed for it and for no other, takes it out of the array and keeps the others in their order, and all the same returns false.
pub interface_remove-middle :
    (wanted : ℕ) (s : Interfaces) (pre : List ℕ) (x : ℕ) (post : List ℕ)
    → s.all_interfaces ≡ pre ++ (x ∷ post)
    → NoneHas s.uid wanted pre
    → s.uid x ≡ wanted
    → NoneHas s.uid wanted post
    → interface_remove wanted s ≡ (false, x ∷ [], record s { all_interfaces = pre ++ post })
unfolding interface_remove
interface_remove-middle wanted s pre x post all h e h' =
    let r = before_interface s.uid wanted pre x post h (==-of-eq _ _ e) h' in
    let cut : take (length ((pre ++ post) ++ (r.last ∷ [])) - 1) ((pre ++ post) ++ (r.last ∷ []))
        ≡ pre ++ post =
      take-append (pre ++ post) (r.last ∷ []) _
        (omega (arith, length-append (pre ++ post) (r.last ∷ []))) in
    rw (all, r.found, r.removed, r.array, cut) refl

-- The uids are below the counter and distinct, and the array is within its capacity.
record InterfacesValid (s : Interfaces) : Type 0 where
  bounded : length s.all_interfaces ≤ interfaces_max
  below : All (λ x. s.uid x < s.next_uid) s.all_interfaces
  distinct : Distinct (map s.uid s.all_interfaces)

-- A pointer that is not in the array.
abbrev Absent : ℕ → List ℕ → Type 0
Absent x xs = All (λ y. (y == x) ≡ false) xs

uid_kept : (f : ℕ → ℕ) (x u : ℕ) (xs : List ℕ) → Absent x xs → map (set_uid f x u) xs ≡ map f xs
unfolding set_uid
uid_kept f x u [] h = refl
uid_kept f x u (y ∷ xs) (hy, h) = rw hy (ap (◌∷◌ (f y)) (uid_kept f x u xs h))

below_kept :
    (f : ℕ → ℕ) (x u : ℕ) (xs : List ℕ)
    → Absent x xs
    → All (λ y. f y < u) xs
    → All (λ y. set_uid f x u y < u + 1) xs
unfolding set_uid
below_kept f x u [] h b = tt
below_kept f x u (y ∷ xs) (hy, h) (by, b) = (rw hy (omega arith), below_kept f x u xs h b)

has-below : (f : ℕ → ℕ) (u : ℕ) (xs : List ℕ) → All (λ y. f y < u) xs → has u (map f xs) ≡ false
has-below f u [] b = refl
has-below f u (y ∷ xs) (by, b) = let ih = has-below f u xs b in ground arith

set_uid-here : (f : ℕ → ℕ) (x u : ℕ) → set_uid f x u x ≡ u
unfolding set_uid
set_uid-here f x u = let t : (x == x) ≡ true = ==-of-eq x x refl in rw t refl

-- interface_add of an interface that is not in the array keeps the uids distinct and below the counter and the array within its capacity, whether it takes the interface or refuses it.
interface_add-InterfacesValid :
    (x : ℕ) (s : Interfaces)
    → Absent x s.all_interfaces
    → InterfacesValid s
    → InterfacesValid (interface_add x s).1
unfolding interface_add
interface_add-InterfacesValid x s h v =
    elim (Bool-cases (leb interfaces_max (length s.all_interfaces))) [
      | inl e ↦ rw e v
      | inr e ↦
          let new : set_uid s.uid x s.next_uid x ≡ s.next_uid = set_uid-here s.uid x s.next_uid in
          let uids : map (set_uid s.uid x s.next_uid) (s.all_interfaces ++ (x ∷ []))
              ≡ map s.uid s.all_interfaces ++ (s.next_uid ∷ []) =
            map-append (set_uid s.uid x s.next_uid) s.all_interfaces (x ∷ [])
            ∙ (ap (λ l. l ++ (set_uid s.uid x s.next_uid x ∷ []))
                  (uid_kept s.uid x s.next_uid s.all_interfaces h)
                ∙ ap (λ k. map s.uid s.all_interfaces ++ (k ∷ [])) new) in
          rw e (record {
            bounded = omega (arith, leb→lt _ _ e, length-append s.all_interfaces (x ∷ []));
            below =
                All-append _ s.all_interfaces (x ∷ [])
                  (below_kept s.uid x s.next_uid s.all_interfaces h v.below)
                  (omega (arith, new), tt);
            distinct = rw uids (
                Distinct-snoc (map s.uid s.all_interfaces) s.next_uid v.distinct
                  (has-below s.uid s.next_uid s.all_interfaces v.below));
          })
    ]
