-- ===== src/Store/Lookup.antt =====
-- Which hour `datahour_get` of core/api/zejf_api/src/zejf_data.c returns.
use mathlib.Core.Option.{some-injective}
use mathlib.Core.List.{map-append}
use zejf_meteo.Common.{
  ℕ, ◌-◌, ◌==◌, ◌≡◌, refl, sym, ap, ◌∙◌, Bool, true, false, Option, none, some, List, [], ◌∷◌, ◌++◌,
  if◌then◌else◌, length, length-append, get_elem?, take, drop, has, Distinct-snoc, arith, inl, inr,
  Bool-cases, Option-cases, get_elem?-middle,
}
use zejf_meteo.Defs.{ZejfErr, Settings, VariableInfo, is_ok}
use zejf_meteo.Hour.{DataHour, hour_create}
use zejf_meteo.Hour.Serial.{hour_deserialize}
use zejf_meteo.Network.{Platform}
use zejf_meteo.Store.{
  Store, find_from_head, prioritise, hour_find, datahour_get, datahour_fetch, datahour_load,
  add_new, hour_add, make_room, push_hour, is_missing_file, data_get_val, read_sample,
}
use zejf_meteo.Store.Places.{
  hour_ids, UniqueHours, find_from_head-hour_id, has-find_from_head, find_from_head-place,
  prioritise-UniqueHours, get_elem?-drop,
}

-- A file of an hour holds that hour.
abbrev pub LoadsOwn : {E : Type 0} → Platform E → Settings → Type 0
LoadsOwn {E = E} platform c =
    (n : ℕ) (world : E) (h : DataHour)
    → hour_deserialize c (platform.hour_load n world).0.1 ≡ some h
    → h.hour_id ≡ n

module _ {E : Type 0} (platform : Platform E) (c : Settings) (n : ℕ) where
  -- One hour of each number, and the place, if there is one, is that of the hour asked for.
  pub record Found (r : Option ℕ × Store E) : Type 0 where
    pub unique : UniqueHours r.1.hours
    pub right :
        (i : ℕ) → r.0 ≡ some i → (h : DataHour) × (get_elem? r.1.hours i ≡ some h) × (h.hour_id ≡ n)

  nowhere : (s : Store E) → UniqueHours s.hours → Found (none, s)
  nowhere s u = record { unique = u; right = λ i e. cc }

  either : (b : Bool) {x y : Option ℕ × Store E} → Found x → Found y → Found (if b then x else y)
  either true hx hy = hx
  either false hx hy = hy

  -- What add_new makes of the result of hour_add.
  added : ZejfErr × Store E → Option ℕ × Store E
  added r = (if is_ok r.0 then some (length r.1.hours - 1) else none, r.1)

  push_hour-Found :
      (hour : DataHour) (s : Store E)
      → hour.hour_id ≡ n
      → UniqueHours s.hours
      → has n (hour_ids s.hours) ≡ false
      → Found (added (push_hour platform c hour s))
  unfolding push_hour added
  push_hour-Found hour s id u fresh = elim (Bool-cases (length s.hours == c.hour_buffer_size)) [
    | inl e ↦ rw e (nowhere s u)
    | inr e ↦
        let last : length (s.hours ++ (hour ∷ [])) - 1 ≡ length s.hours =
          omega (arith, length-append s.hours (hour ∷ [])) in
        rw e (record {
          unique =
              rw (map-append (λ (h : DataHour). h.hour_id) s.hours (hour ∷ []), id)
                (Distinct-snoc (hour_ids s.hours) n u fresh);
          right = λ i e'. (
            hour,
            ap (get_elem? (s.hours ++ (hour ∷ []))) (sym (some-injective _ i e') ∙ last)
                ∙ get_elem?-middle s.hours hour [],
            id,
          );
        })
  ]

  -- What is left after room was made.
  record Smaller (s : Store E) : Type 0 where
    unique : UniqueHours s.hours
    fresh : has n (hour_ids s.hours) ≡ false

  make_room-Smaller :
      (hs : List DataHour) (world : E)
      → UniqueHours hs
      → has n (hour_ids hs) ≡ false
      → Smaller (make_room platform c hs world).1
  unfolding make_room
  make_room-Smaller [] world u f = record { unique = tt; fresh = refl }
  make_room-Smaller (x ∷ hs) world u f = record { unique = u.1; fresh = ground arith }

  add_new-Found :
      (hour : DataHour) (s : Store E)
      → hour.hour_id ≡ n
      → UniqueHours s.hours
      → has n (hour_ids s.hours) ≡ false
      → Found (add_new platform c hour s)
  unfolding add_new hour_add added
  add_new-Found hour s id u fresh = elim (Bool-cases (length s.hours == c.hour_buffer_size)) [
    | inr e ↦ rw e (push_hour-Found hour s id u fresh)
    | inl e ↦
        let room = make_room platform c s.hours s.outside in
        let left = make_room-Smaller s.hours s.outside u fresh in
        elim (Bool-cases (is_ok room.0)) [
          | inl f ↦ rw (e, f) (push_hour-Found hour room.1 id left.unique left.fresh)
          | inr f ↦ rw (e, f) (rw f (nowhere room.1 left.unique))
        ]
  ]

  create-Found :
      (create : Bool) (s : Store E)
      → UniqueHours s.hours
      → has n (hour_ids s.hours) ≡ false
      → Found (if create then add_new platform c (hour_create n) s else (none, s))
  unfolding hour_create
  create-Found true s u fresh = add_new-Found (hour_create n) s refl u fresh
  create-Found false s u fresh = nowhere s u

  module _ (own : LoadsOwn platform c) where
    loaded-own :
        (world : E) (h : DataHour) → (datahour_load platform c n world).1 ≡ some h → h.hour_id ≡ n
    unfolding datahour_load
    loaded-own world h e =
        let read = platform.hour_load n world in
        elim (Bool-cases (is_ok read.0.0)) [
          | inl o ↦ elim (Option-cases (hour_deserialize c read.0.1)) [
            | inl d ↦ let no = rw (o, d, datahour_load) at e in cc
            | inr (g, d) ↦
                let same : g ≡ h = some-injective g h (rw (o, d, datahour_load) at e) in
                own n world h (d ∙ ap some same)
          ]
          | inr o ↦ let no = rw o at e in cc
        ]

    datahour_fetch-Found :
        (load create : Bool) (s : Store E)
        → UniqueHours s.hours
        → has n (hour_ids s.hours) ≡ false
        → Found (datahour_fetch platform c n load create s)
    unfolding datahour_fetch
    datahour_fetch-Found false create s u fresh = create-Found create s u fresh
    datahour_fetch-Found true create s u fresh =
        let read = datahour_load platform c n s.outside in
        let s' : Store E = record s { outside = read.2 } in
        elim (Option-cases read.1) [
          | inl e ↦ elim (Bool-cases (is_missing_file read.0)) [
            | inl f ↦ rw (e, datahour_fetch, f) (create-Found create s' u fresh)
            | inr f ↦ rw (e, datahour_fetch, f) (nowhere s' u)
          ]
          | inr (h, e) ↦
              rw (e, datahour_fetch)
                (add_new-Found (record h { flags = 0 }) s' (loaded-own s.outside h e) u fresh)
        ]

    pub datahour_get-Found :
        (load create : Bool) (s : Store E)
        → UniqueHours s.hours
        → Found (datahour_get platform c n load create s)
    unfolding datahour_get hour_find prioritise
    datahour_get-Found load create s u = elim (Option-cases (find_from_head n s.hours)) [
      | inl e ↦
          rw (e, hour_find, datahour_get)
            (datahour_fetch-Found load create s u (has-find_from_head n s.hours e))
      | inr (i, e) ↦
          let (h, at, id) = find_from_head-hour_id n s.hours i e in
          rw (e, hour_find, datahour_get)
            (record {
              unique = prioritise-UniqueHours i s.hours u;
              right = λ j e'. (
                h,
                ap (get_elem? (drop i s.hours ++ take i s.hours)) (sym (some-injective 0 j e'))
                    ∙ get_elem?-drop i s.hours (take i s.hours) h at,
                id,
              );
            })
    ]

-- While a file of an hour holds that hour, datahour_get keeps at most one hour of each number in memory, and the hour that it returns, whether found, loaded or new, is that of the number asked for.
pub datahour_get-hour_id :
    {E : Type 0} (platform : Platform E) (c : Settings) (n : ℕ) (load create : Bool) (s : Store E)
    → LoadsOwn platform c
    → UniqueHours s.hours
    → let (place, s') = datahour_get platform c n load create s in
      UniqueHours s'.hours
      × ((i : ℕ)
          → place ≡ some i
          → (h : DataHour) × (get_elem? s'.hours i ≡ some h) × (h.hour_id ≡ n))
datahour_get-hour_id platform c n load create s own u =
    let found = datahour_get-Found platform c n own load create s u in (found.unique, found.right)

-- With one hour of each number, data_get_val reads the sample of the hour of the number, wherever in the queue that hour is.
pub data_get_val-read_sample :
    {E : Type 0} (platform : Platform E) (c : Settings) (info : VariableInfo) (k : ℕ)
    (load create : Bool) (s : Store E) (i : ℕ) (h : DataHour)
    → UniqueHours s.hours
    → get_elem? s.hours i ≡ some h
    → (data_get_val platform c info h.hour_id k load create s).0 ≡ read_sample (some h) info k
unfolding data_get_val datahour_get hour_find prioritise
data_get_val-read_sample platform c info k load create s i h u at =
    rw (find_from_head-place s.hours i h u at, hour_find, datahour_get)
      (ap (λ o. read_sample o info k) (get_elem?-drop i s.hours (take i s.hours) h at))
