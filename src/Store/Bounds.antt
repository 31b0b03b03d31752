-- ===== src/Store/Bounds.antt =====
-- What holds of the hours in memory through `datahour_get` of core/api/zejf_api/src/zejf_data.c.
use mathlib.Core.Option.{some-injective}
use mathlib.Core.Path.{subst}
use zejf_meteo.Common.{
  ℕ, ◌+◌, ◌==◌, ◌≤◌, ◌<◌, ◌≡◌, ap, Bool, true, false, not, Option, none, some, List, [], ◌∷◌, ◌++◌,
  if◌then◌else◌, length, take, drop, take-append-drop, length-append, All, All-append, All-take,
  All-drop, arith, inl, inr, Bool-cases, Option-cases, ==→ne,
}
use zejf_meteo.Common.Bytes.{u32_mod, IsByte}
use zejf_meteo.Defs.{Settings, is_ok}
use zejf_meteo.Hour.{DataHour, hour_create}
use zejf_meteo.Hour.Serial.{hour_deserialize}
use zejf_meteo.Hour.Valid.{HourValid, hour_create-HourValid}
use zejf_meteo.Hour.Canonical.{hour_serialize-hour_deserialize}
use zejf_meteo.Network.{Platform}
use zejf_meteo.Network.Valid.{IsPlace}
use zejf_meteo.Store.{
  Store, find_from_head, prioritise, hour_find, datahour_get, datahour_fetch, datahour_load,
  add_new, hour_add, make_room, push_hour, is_missing_file,
}

-- No more hours than the queue holds, and each of them valid.
abbrev pub StoreValid : {E : Type 0} → Settings → Store E → Type 0
StoreValid c s = (length s.hours ≤ c.hour_buffer_size) × All (HourValid c) s.hours

-- What is read from a file is bytes.
abbrev pub LoadsBytes : {E : Type 0} → Platform E → Type 0
LoadsBytes {E = E} platform =
    (hour_number : ℕ) (world : E) → All IsByte (platform.hour_load hour_number world).0.1

length-prioritise : (i : ℕ) (hs : List DataHour) → length (prioritise i hs) ≡ length hs
unfolding prioritise
length-prioritise i hs =
    let whole : length (take i hs ++ drop i hs) ≡ length hs = ap length (take-append-drop i hs) in
    omega (arith, length-append (drop i hs) (take i hs), length-append (take i hs) (drop i hs))

prioritise-All :
    (c : Settings) (i : ℕ) (hs : List DataHour)
    → All (HourValid c) hs
    → All (HourValid c) (prioritise i hs)
unfolding prioritise
prioritise-All c i hs h =
    All-append _ (drop i hs) (take i hs) (All-drop _ i hs h) (All-take _ i hs h)

find_from_head-lt :
    (n : ℕ) (hs : List DataHour) (i : ℕ) → find_from_head n hs ≡ some i → i < length hs
unfolding find_from_head
find_from_head-lt n [] i e = cc
find_from_head-lt n (x ∷ hs) i e = elim (Option-cases (find_from_head n hs)) [
  | inl f ↦ elim (Bool-cases (x.hour_id == n)) [
    | inl t ↦ let same : 0 ≡ i = some-injective 0 i (rw (f, find_from_head, t) at e) in omega arith
    | inr t ↦ let no = rw (f, find_from_head, t) at e in cc
  ]
  | inr (j, f) ↦
      let same : j + 1 ≡ i = some-injective (j + 1) i (rw (f, find_from_head) at e) in
      omega (arith, find_from_head-lt n hs j f)
]

module _ {E : Type 0} (platform : Platform E) (c : Settings) where
  -- A store that is valid, with a place in it.
  record Got (r : Option ℕ × Store E) : Type 0 where
    valid : StoreValid c r.1
    in_range : IsPlace (length r.1.hours) r.0

  stays_valid : (s : Store E) → StoreValid c s → Got (none, s)
  stays_valid s v = record { valid = v; in_range = tt }

  push_hour-StoreValid :
      (hour : DataHour) (s : Store E)
      → HourValid c hour
      → length s.hours ≤ c.hour_buffer_size
      → All (HourValid c) s.hours
      → StoreValid c (push_hour platform c hour s).1
  unfolding push_hour
  push_hour-StoreValid hour s h bound all =
      elim (Bool-cases (length s.hours == c.hour_buffer_size)) [
        | inl e ↦ rw e (bound, all)
        | inr e ↦ rw e (
          omega (arith, length-append s.hours (hour ∷ []), ==→ne _ _ e),
          All-append (HourValid c) s.hours (hour ∷ []) all (h, tt),
        )
      ]

  make_room-StoreValid :
      (hs : List DataHour) (world : E)
      → length hs ≤ c.hour_buffer_size
      → All (HourValid c) hs
      → StoreValid c (make_room platform c hs world).1
  unfolding make_room
  make_room-StoreValid [] world b h = (omega arith, tt)
  make_room-StoreValid (x ∷ hs) world b (hx, h) = (omega arith, h)

  hour_add-StoreValid :
      (hour : DataHour) (s : Store E)
      → HourValid c hour
      → StoreValid c s
      → StoreValid c (hour_add platform c hour s).1
  unfolding hour_add
  hour_add-StoreValid hour s h (bound, all) =
      let room = make_room-StoreValid s.hours s.outside bound all in
      elim (Bool-cases (length s.hours == c.hour_buffer_size)) [
        | inl e ↦ rw e (elim (Bool-cases (not (is_ok (make_room platform c s.hours s.outside).0))) [
          | inl f ↦ rw f room
          | inr f ↦ rw f (push_hour-StoreValid hour _ h room.0 room.1)
        ])
        | inr e ↦ rw e (push_hour-StoreValid hour s h bound all)
      ]

  push_hour-nonempty :
      (hour : DataHour) (s : Store E)
      → is_ok (push_hour platform c hour s).0 ≡ true
      → 0 < length (push_hour platform c hour s).1.hours
  unfolding push_hour
  push_hour-nonempty hour s r = elim (Bool-cases (length s.hours == c.hour_buffer_size)) [
    | inl e ↦ let no : false ≡ true = rw e at r in cc
    | inr e ↦ rw e (omega (arith, length-append s.hours (hour ∷ [])))
  ]

  hour_add-nonempty :
      (hour : DataHour) (s : Store E)
      → is_ok (hour_add platform c hour s).0 ≡ true
      → 0 < length (hour_add platform c hour s).1.hours
  unfolding hour_add
  hour_add-nonempty hour s r = elim (Bool-cases (length s.hours == c.hour_buffer_size)) [
    | inl e ↦ elim (Bool-cases (is_ok (make_room platform c s.hours s.outside).0)) [
      | inl f ↦ rw (e, f) (push_hour-nonempty hour _ (rw (e, f) at r))
      | inr f ↦
          let no : is_ok (make_room platform c s.hours s.outside).0 ≡ true = rw (e, f) at r in cc
    ]
    | inr e ↦ rw e (push_hour-nonempty hour s (rw e at r))
  ]

  add_new-Got :
      (hour : DataHour) (s : Store E)
      → HourValid c hour
      → StoreValid c s
      → Got (add_new platform c hour s)
  unfolding add_new
  add_new-Got hour s h v =
      let v' = hour_add-StoreValid hour s h v in
      elim (Bool-cases (is_ok (hour_add platform c hour s).0)) [
        | inl e ↦
            let n = hour_add-nonempty hour s e in
            record { valid = v'; in_range = rw e (omega arith) }
        | inr e ↦ record { valid = v'; in_range = rw e tt }
      ]

  module _ (bytes : LoadsBytes platform) (hour_number : ℕ) (small : hour_number < u32_mod) where
    create-Got :
        (create : Bool) (s : Store E)
        → StoreValid c s
        → Got (if create then add_new platform c (hour_create hour_number) s else (none, s))
    create-Got true s v =
        add_new-Got (hour_create hour_number) s (hour_create-HourValid c hour_number small) v
    create-Got false s v = stays_valid s v

    datahour_load-HourValid :
        (world : E) (hour : DataHour)
        → (datahour_load platform c hour_number world).1 ≡ some hour
        → HourValid c (record hour { flags = 0 })
    unfolding datahour_load
    datahour_load-HourValid world hour e =
        let read = platform.hour_load hour_number world in
        elim (Bool-cases (is_ok read.0.0)) [
          | inl o ↦ elim (Option-cases (hour_deserialize c read.0.1)) [
            | inl d ↦ let no = rw (o, d, datahour_load) at e in cc
            | inr (h, d) ↦
                let same : h ≡ hour = some-injective h hour (rw (o, d, datahour_load) at e) in
                let v =
                  (hour_serialize-hour_deserialize c read.0.1 h (bytes hour_number world) d).1 in
                subst (λ x. HourValid c (record x { flags = 0 })) same
                  (record {
                    hour_id_lt = v.hour_id_lt;
                    flags_lt = omega arith;
                    count_le = v.count_le;
                    each = v.each;
                    distinct = v.distinct;
                  })
          ]
          | inr o ↦ let no = rw o at e in cc
        ]

    datahour_fetch-Got :
        (load create : Bool) (s : Store E)
        → StoreValid c s
        → Got (datahour_fetch platform c hour_number load create s)
    unfolding datahour_fetch
    datahour_fetch-Got false create s v = create-Got create s v
    datahour_fetch-Got true create s v =
        let read = datahour_load platform c hour_number s.outside in
        let s' : Store E = record s { outside = read.2 } in
        elim (Option-cases read.1) [
          | inl e ↦ elim (Bool-cases (is_missing_file read.0)) [
            | inl f ↦ rw (e, datahour_fetch, f) (create-Got create s' v)
            | inr f ↦ rw (e, datahour_fetch, f) (stays_valid s' v)
          ]
          | inr (h, e) ↦
              rw (e, datahour_fetch)
                (add_new-Got (record h { flags = 0 }) s' (datahour_load-HourValid s.outside h e) v)
        ]

    datahour_get-Got :
        (load create : Bool) (s : Store E)
        → StoreValid c s
        → Got (datahour_get platform c hour_number load create s)
    unfolding datahour_get hour_find
    datahour_get-Got load create s (bound, all) =
        elim (Option-cases (find_from_head hour_number s.hours)) [
          | inl e ↦ rw (e, hour_find, datahour_get) (datahour_fetch-Got load create s (bound, all))
          | inr (i, e) ↦
              let same = length-prioritise i s.hours in
              rw (e, hour_find, datahour_get)
                (record {
                  valid = (omega arith, prioritise-All c i s.hours all);
                  in_range = omega (arith, find_from_head-lt hour_number s.hours i e);
                })
        ]

-- On a platform that reads bytes, datahour_get keeps no more hours than the queue holds and all of them valid, whether it finds, loads or creates the hour or fails, and the hour that it returns is in the queue.
pub datahour_get-StoreValid :
    {E : Type 0} (platform : Platform E) (c : Settings) (hour_number : ℕ) (load create : Bool)
    (s : Store E)
    → LoadsBytes platform
    → hour_number < u32_mod
    → StoreValid c s
    → let (place, s') = datahour_get platform c hour_number load create s in
      StoreValid c s' × IsPlace (length s'.hours) place
datahour_get-StoreValid platform c hour_number load create s bytes small v =
    let got = datahour_get-Got platform c bytes hour_number small load create s v in
    (got.valid, got.in_range)
