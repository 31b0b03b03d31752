-- ===== src/Routing/FreeId.antt =====
-- `routing_find_free_id`: the search ends, it finds a free id, and what it does at the last id.
use zejf_meteo.Common.{
  ℕ, zero, suc, ◌+◌, ◌-◌, ◌%◌, ◌≤◌, ◌<◌, ◌==◌, ◌≡◌, refl, sym, ap, ◌∙◌, ◌≢◌, ◌↔◌, true, false, inl,
  inr, List, arith, ltb, Bool-cases, ==_ne, ==→eq, ==→ne, has, if◌then◌else◌,
}
use zejf_meteo.Common.Bytes.{u16_mod}
use zejf_meteo.Defs.{reserved_device_ids}
use zejf_meteo.Routing.{
  RoutingEntry, Routing, device_ids, next_id, Probe, full, out_of_rounds, found, probe, assign_id,
  routing_find_free_id,
}

-- The ids that may be assigned.
abbrev pub IsAssignable : ℕ → Type 0
IsAssignable id = (reserved_device_ids ≤ id) × (id < u16_mod)

-- How many ids there are.
abbrev pub id_count : ℕ
id_count = 64536

-- How many steps lead from an id round to `start`.
left : ℕ → ℕ → ℕ
left start id = if ltb id start then start - id else 65536 - id + (start - 1000)

next_id-IsAssignable : (id : ℕ) → IsAssignable id → IsAssignable (next_id id)
unfolding next_id
next_id-IsAssignable id h = ground arith

left-next_id :
    (start id : ℕ)
    → IsAssignable start
    → IsAssignable id
    → next_id id ≢ start
    → left start (next_id id) + 1 ≡ left start id
unfolding next_id left
left-next_id start id hs hi ne = ground arith

left-last :
    (start id : ℕ) → IsAssignable start → IsAssignable id → next_id id ≡ start → left start id ≡ 1
unfolding next_id left
left-last start id hs hi e = ground arith

left-injective :
    (start x y : ℕ)
    → IsAssignable start
    → IsAssignable x
    → IsAssignable y
    → left start x ≡ left start y
    → x ≡ y
unfolding left
left-injective start x y hs hx hy e = ground arith

left-pos : (start x : ℕ) → IsAssignable start → IsAssignable x → 0 < left start x
unfolding left
left-pos start x hs hx = ground arith

left-le : (start x : ℕ) → IsAssignable start → IsAssignable x → left start x ≤ id_count
unfolding left
left-le start x hs hx = ground arith

left-start : (start : ℕ) → IsAssignable start → left start start ≡ id_count
unfolding left
left-start start hs = ground arith

module _ (start : ℕ) (hs : IsAssignable start) (table : List RoutingEntry) where
  probe-ends :
      (rounds id : ℕ)
      → IsAssignable id
      → left start id ≤ rounds
      → probe rounds start table id ≢ out_of_rounds
  unfolding probe
  probe-ends zero id hi h = absurd (omega (arith, left-pos start id hs hi))
  probe-ends (suc rounds) id hi h = elim (Bool-cases (has id (device_ids table))) [
    | inr free ↦ rw free (ground arith)
    | inl taken ↦ rw taken (elim (Bool-cases (next_id id == start)) [
      | inl round ↦ rw round (ground arith)
      | inr more ↦ rw more (
          probe-ends rounds (next_id id) (next_id-IsAssignable id hi)
            (omega (arith, left-next_id start id hs hi (==→ne _ _ more))))
    ])
  ]

  probe-found :
      (rounds id x : ℕ)
      → IsAssignable id
      → probe rounds start table id ≡ found x
      → (has x (device_ids table) ≡ false) × IsAssignable x
  unfolding probe
  probe-found zero id x hi e = cc
  probe-found (suc rounds) id x hi e = ground (
    arith,
    next_id-IsAssignable id hi,
    probe-found rounds (next_id id) x (next_id-IsAssignable id hi),
  )

  -- All ids behind `start` and up to `id` were seen taken.
  abbrev Seen : ℕ → Type 0
  Seen id =
      (x : ℕ) → IsAssignable x → left start id < left start x → has x (device_ids table) ≡ true

  Seen-le :
      (id : ℕ)
      → IsAssignable id
      → Seen id
      → has id (device_ids table) ≡ true
      → (x : ℕ) → IsAssignable x
      → left start id ≤ left start x
      → has x (device_ids table) ≡ true
  Seen-le id hi seen taken x hx behind = elim (Bool-cases (x == id)) [
    | inl same ↦ rw (==→eq x id same) taken
    | inr other ↦
        let apart : left start x ≢ left start id =
          λ e. ==→ne x id other (left-injective start x id hs hx hi e) in
        seen x hx (omega arith)
  ]

  probe-full :
      (rounds id : ℕ)
      → IsAssignable id
      → Seen id
      → probe rounds start table id ≡ full
      → (x : ℕ) → IsAssignable x
      → has x (device_ids table) ≡ true
  unfolding probe
  probe-full zero id hi seen e x hx = cc
  probe-full (suc rounds) id hi seen e x hx = elim (Bool-cases (has id (device_ids table))) [
    | inr free ↦ let e' = rw (free) at e in cc
    | inl taken ↦ elim (Bool-cases (next_id id == start)) [
      | inl round ↦
          Seen-le id hi seen taken x hx
            (omega (arith, left-last start id hs hi (==→eq _ _ round), left-pos start x hs hx))
      | inr more ↦
          let step = left-next_id start id hs hi (==→ne _ _ more) in
          probe-full rounds (next_id id) (next_id-IsAssignable id hi)
            (λ y hy behind. Seen-le id hi seen taken y hy (omega arith)) (ground arith) x hx
    ]
  ]

-- Every id that may be assigned is taken.
abbrev pub AllTaken : Routing → Type 0
AllTaken r = (x : ℕ) → IsAssignable x → has x (device_ids r.table) ≡ true

module _ (r : Routing) (rounds : ℕ) (hs : IsAssignable r.next_free_id)
    (enough : id_count ≤ rounds) where
  searched : Probe
  searched = probe rounds r.next_free_id r.table r.next_free_id

  none-of : (p : Probe) → searched ≡ p → ((assign_id p r).0 ≡ 0) ↔ AllTaken r
  unfolding searched assign_id
  none-of full e = (
    λ _.
        probe-full r.next_free_id hs r.table rounds r.next_free_id hs
          (λ x hx behind.
            absurd (omega (arith, left-le r.next_free_id x hs hx, left-start r.next_free_id hs)))
          e,
    λ _. refl,
  )
  none-of out_of_rounds e = absurd (
      probe-ends r.next_free_id hs r.table rounds r.next_free_id hs
        (omega (arith, left-start r.next_free_id hs)) e)
  none-of (found x) e =
      let (free, hx) = probe-found r.next_free_id hs r.table rounds r.next_free_id x hs e in
      (λ zero_id. absurd (ground arith), λ taken. let t = taken x hx in cc)

  free-of :
      (p : Probe) (id : ℕ) (r' : Routing)
      → searched ≡ p
      → assign_id p r ≡ (id, r')
      → id ≢ 0
      → r'.next_free_id ≢ 0
      → (has id (device_ids r.table) ≡ false)
        × IsAssignable id
        × (r' ≡ record r { next_free_id = id + 1 })
  unfolding searched assign_id
  free-of full id r' e a some_id no_wrap = absurd (some_id (sym (ap (λ q. q.0) a)))
  free-of out_of_rounds id r' e a some_id no_wrap = absurd (some_id (sym (ap (λ q. q.0) a)))
  free-of (found x) id r' e a some_id no_wrap =
      let (free, hx) = probe-found r.next_free_id hs r.table rounds r.next_free_id x hs e in
      let next : (x + 1) % 65536 ≡ r'.next_free_id = ap (λ q. q.1.next_free_id) a in
      let after : (x + 1) % 65536 ≡ x + 1 = omega (arith, hx.1) in
      let same : x ≡ id = rw (==_ne ((x + 1) % 65536) 0 (omega arith)) at (ap (λ q. q.0) a) in
      let state : record r { next_free_id = (x + 1) % 65536 } ≡ r' = ap (λ q. q.1) a in
      (
        rw same at free,
        rw same at hx,
        sym state
            ∙ ap (λ (n : ℕ). record r { next_free_id = n }) (after ∙ ap (λ (n : ℕ). n + 1) same),
      )

  -- From an id that may be assigned, and with as many rounds as there are ids, the search of routing_find_free_id does not run out of rounds, which is to say that it ends, and it returns 0 exactly when every id that may be assigned is taken.
  pub routing_find_free_id-none :
      (probe rounds r.next_free_id r.table r.next_free_id ≢ out_of_rounds)
      × (((routing_find_free_id rounds r).0 ≡ 0) ↔ AllTaken r)
  unfolding routing_find_free_id searched
  routing_find_free_id-none = (
    probe-ends r.next_free_id hs r.table rounds r.next_free_id hs
      (omega (arith, left-start r.next_free_id hs)),
    none-of searched refl,
  )

  -- An id that is returned is free and not reserved, and the next search starts behind it; but where
  -- the last id, 65535, is the one found.
  pub routing_find_free_id-free :
      (id : ℕ) (r' : Routing)
      → routing_find_free_id rounds r ≡ (id, r')
      → id ≢ 0
      → r'.next_free_id ≢ 0
      → (has id (device_ids r.table) ≡ false)
        × IsAssignable id
        × (r' ≡ record r { next_free_id = id + 1 })
  unfolding routing_find_free_id searched
  routing_find_free_id-free id r' e some_id no_wrap = free-of searched id r' refl e some_id no_wrap

-- When the search starts at 65535 and that id is free, `RESERVED_DEVICE_IDS` is returned instead,
-- whether it is taken or not, and the next search starts at 0: it finds 0, which says that no id is
-- free, and the search after that hands out 1, a reserved id.
pub routing_find_free_id-wraps :
    (r : Routing) (rounds : ℕ)
    → r.next_free_id ≡ 65535
    → has 65535 (device_ids r.table) ≡ false
    → has 0 (device_ids r.table) ≡ false
    → has 1 (device_ids r.table) ≡ false
    → (routing_find_free_id (suc rounds) r ≡ (reserved_device_ids, record r { next_free_id = 0 }))
      × (routing_find_free_id (suc rounds) (record r { next_free_id = 0 })
          ≡ (0, record r { next_free_id = 1 }))
      × (routing_find_free_id (suc rounds) (record r { next_free_id = 1 })
          ≡ (1, record r { next_free_id = 2 }))
unfolding routing_find_free_id
routing_find_free_id-wraps r rounds last free free0 free1 = (simp (last, free), rw free0, rw free1)
