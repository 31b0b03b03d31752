-- ===== src/Store/Evict.antt =====
-- Which hour `datahour_get` of core/api/zejf_api/src/zejf_data.c finds, and which it lets go.
use zejf_meteo.Common.{
  ℕ, suc, ◌≡◌, ◌≢◌, refl, ap, Bool, true, false, none, some, List, [], ◌∷◌, ◌++◌, length,
  take-append, drop-append, length-append, All, All-append, All-split, arith, ==_ne, ==-of-eq,
}
use zejf_meteo.Defs.{err_file_doesnt_exist, Settings}
use zejf_meteo.Hour.{DataHour, hour_create}
use zejf_meteo.Network.{Platform}
use zejf_meteo.Store.{
  Store, find_from_head, prioritise, hour_find, datahour_get, datahour_fetch, datahour_load, add_new, hour_add,
  make_room, push_hour,
}

abbrev pub Lacks : ℕ → List DataHour → Type 0
Lacks hour_number = All λ h. h.hour_id ≢ hour_number

pub find_from_head-Lacks :
    (hour_number : ℕ) (hs : List DataHour)
    → Lacks hour_number hs
    → find_from_head hour_number hs ≡ none
unfolding find_from_head
find_from_head-Lacks hour_number [] h = refl
find_from_head-Lacks hour_number (x ∷ hs) (ne, h) =
    rw (find_from_head-Lacks hour_number hs h, ==_ne x.hour_id hour_number ne) refl

pub find_from_head-last :
    (hour_number : ℕ) (before : List DataHour) (h : DataHour) (after : List DataHour)
    → h.hour_id ≡ hour_number
    → Lacks hour_number after
    → find_from_head hour_number (before ++ (h ∷ after)) ≡ some (length before)
unfolding find_from_head
find_from_head-last hour_number [] h after e l =
    rw (find_from_head-Lacks hour_number after l, ==-of-eq h.hour_id hour_number e) refl
find_from_head-last hour_number (b ∷ before) h after e l =
    rw (find_from_head-last hour_number before h after e l) (ap some (omega arith))

-- The hour that is found becomes the tail.
pub hour_find-turns :
    (hour_number : ℕ) (before : List DataHour) (h : DataHour) (after : List DataHour)
    → h.hour_id ≡ hour_number
    → Lacks hour_number after
    → hour_find hour_number (before ++ (h ∷ after)) ≡ some (h ∷ after ++ before)
unfolding hour_find prioritise
hour_find-turns hour_number before h after e l =
    rw
      (
        find_from_head-last hour_number before h after e l,
        hour_find,
        drop-append before (h ∷ after) (length before) refl,
        take-append before (h ∷ after) (length before) refl,
      )
      refl

pub hour_find-Lacks :
    (hour_number : ℕ) (hs : List DataHour) → Lacks hour_number hs → hour_find hour_number hs ≡ none
unfolding hour_find
hour_find-Lacks hour_number hs l = rw (find_from_head-Lacks hour_number hs l, hour_find) refl

module _ {E : Type 0} (platform : Platform E) (c : Settings) where
  -- An hour that is there is returned at the tail, from where the next hour that needs room is dropped.
  pub datahour_get-found :
      (hour_number : ℕ) (load create : Bool) (before : List DataHour) (h : DataHour)
      (after : List DataHour) (world : E)
      → h.hour_id ≡ hour_number
      → Lacks hour_number after
      → datahour_get platform c hour_number load create
          (record { hours = before ++ (h ∷ after); outside = world })
        ≡ (some 0, record { hours = h ∷ after ++ before; outside = world })
  unfolding datahour_get
  datahour_get-found hour_number load create before h after world e l =
      rw (hour_find-turns hour_number before h after e l, datahour_get) refl

  datahour_load-missing :
      (hour_number : ℕ) (world : E)
      → (platform.hour_load hour_number world).0.0 ≡ err_file_doesnt_exist
      → datahour_load platform c hour_number world
        ≡ (err_file_doesnt_exist, none, (platform.hour_load hour_number world).1)
  unfolding datahour_load
  datahour_load-missing hour_number world e = rw (e, datahour_load) refl

  datahour_fetch-missing :
      (hour_number : ℕ) (s : Store E)
      → (platform.hour_load hour_number s.outside).0.0 ≡ err_file_doesnt_exist
      → datahour_fetch platform c hour_number true true s
        ≡ add_new platform c (hour_create hour_number)
            (record s { outside = (platform.hour_load hour_number s.outside).1 })
  unfolding datahour_fetch
  datahour_fetch-missing hour_number s e =
      let missing = datahour_load-missing hour_number s.outside e in
      rw (missing, datahour_fetch) (rw missing refl)

  full_queue :
      (hour_number : ℕ) (h : DataHour) (hs : List DataHour) (world : E)
      → Lacks hour_number (h ∷ hs)
      → suc (length hs) ≡ c.hour_buffer_size
      → (platform.hour_load hour_number world).0.0 ≡ err_file_doesnt_exist
      → (datahour_get platform c hour_number true true
          (record { hours = h ∷ hs; outside = world })).1.hours
        ≡ hs ++ (hour_create hour_number ∷ [])
  unfolding datahour_get add_new hour_add make_room push_hour
  full_queue hour_number h hs world l e no_file =
      rw
        (
          hour_find-Lacks hour_number (h ∷ hs) l,
          datahour_get,
          datahour_fetch-missing hour_number (record { hours = h ∷ hs; outside = world }) no_file,
          ==-of-eq (suc (length hs)) c.hour_buffer_size e,
          ==_ne (length hs) c.hour_buffer_size (omega arith),
        )
        refl

  -- In a full queue, the hour that datahour_get has just returned from the queue is the one that the next call of datahour_get, made to load or create as data_log does, drops to make room when it asks for an hour that is neither in the queue nor in a file: the new empty hour becomes the head, and all others stay.
  pub datahour_get-drops_last_used :
      (wanted next : ℕ) (load create : Bool) (before : List DataHour) (h : DataHour)
      (after : List DataHour) (world : E)
      → h.hour_id ≡ wanted
      → Lacks wanted after
      → Lacks next (before ++ (h ∷ after))
      → length (before ++ (h ∷ after)) ≡ c.hour_buffer_size
      → (platform.hour_load next world).0.0 ≡ err_file_doesnt_exist
      → let s : Store E = record { hours = before ++ (h ∷ after); outside = world } in
        let s' = (datahour_get platform c wanted load create s).1 in
        (datahour_get platform c next true true s').1.hours
        ≡ (after ++ before) ++ (hour_create next ∷ [])
  datahour_get-drops_last_used wanted next load create before h after world e l lacks count no_file =
      let (b, (x, a)) = All-split (λ y. y.hour_id ≢ next) before (h ∷ after) lacks in
      rw (datahour_get-found wanted load create before h after world e l) (
        full_queue next h (after ++ before) world
          (x, All-append (λ y. y.hour_id ≢ next) after before a b)
          (omega (arith, count, length-append before (h ∷ after), length-append after before))
          no_file)
