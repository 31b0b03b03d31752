-- ===== src/Device/Requests.antt =====
-- The queue of requests for samples of core/api/zejf_api/src/data_request.c.
use zejf_meteo.Common.{
  ℕ, zero, suc, ◌+◌, ◌%◌, ◌==◌, ◌≤◌, ◌≡◌, refl, true, false, not, ◌||◌, List, [], ◌∷◌, ◌++◌, ltb,
  length, length-append, arith, inl, inr, Bool-cases, ==→ne,
}
use zejf_meteo.Common.Bytes.{u32_mod}
use zejf_meteo.Defs.{Settings, VariableInfo}
use zejf_meteo.Hour.{DataHour}
use zejf_meteo.Network.{Platform, Network}
use zejf_meteo.Info.{Floats}
use zejf_meteo.Device.{
  DataRequest, Device, same_request, request_already_exists, data_request_add, request_finished,
  answer, requests_loop, data_requests_process,
}

-- No two requests of one device for one variable of one hour.
abbrev pub Unique : List DataRequest → Type 0
Unique [] = Unit
Unique (r ∷ rs) =
    (request_already_exists r.target_device r.variable r.hour_number rs ≡ false) × Unique rs

-- The queue of requests is within its capacity, and they are unique.
abbrev pub RequestsValid : {E : Type 0} → Settings → Device E → Type 0
RequestsValid c d = (length d.requests ≤ c.data_request_queue_size) × Unique d.requests

same_request-sym :
    (x r : DataRequest)
    → same_request r.target_device r.variable r.hour_number x ≡ false
    → same_request x.target_device x.variable x.hour_number r ≡ false
unfolding same_request
same_request-sym x r e = ground (arith, e)

exists-snoc :
    (to : ℕ) (info : VariableInfo) (hour : ℕ) (xs : List DataRequest) (r : DataRequest)
    → request_already_exists to info hour xs ≡ false
    → same_request to info hour r ≡ false
    → request_already_exists to info hour (xs ++ (r ∷ [])) ≡ false
unfolding request_already_exists
exists-snoc to info hour [] r e s = rw s refl
exists-snoc to info hour (x ∷ xs) r e s = elim (Bool-cases (same_request to info hour x)) [
  | inl t ↦ let no : true ≡ false = rw t at e in cc
  | inr t ↦ rw t (exists-snoc to info hour xs r (rw t at e) s)
]

Unique-snoc :
    (rs : List DataRequest) (r : DataRequest)
    → Unique rs
    → request_already_exists r.target_device r.variable r.hour_number rs ≡ false
    → Unique (rs ++ (r ∷ []))
unfolding request_already_exists
Unique-snoc [] r u e = (refl, tt)
Unique-snoc (x ∷ rs) r (fresh, u) e =
    elim (Bool-cases (same_request r.target_device r.variable r.hour_number x)) [
      | inl t ↦ let no : true ≡ false = rw t at e in cc
      | inr t ↦ (
        exists-snoc x.target_device x.variable x.hour_number rs r fresh (same_request-sym x r t),
        Unique-snoc rs r u (rw t at e),
      )
    ]

-- data_request_add keeps the queue of requests within its capacity and without a second request of one device for one variable of one hour, whatever it returns.
pub data_request_add-RequestsValid :
    {E : Type 0} (c : Settings) (to : ℕ) (info : VariableInfo) (hour start end_log : ℕ)
    (d : Device E)
    → RequestsValid c d
    → RequestsValid c (data_request_add c to info hour start end_log d).1
unfolding data_request_add
data_request_add-RequestsValid c to info hour start end_log d (bound, u) =
    elim (Bool-cases (request_already_exists to info hour d.requests)) [
      | inl e ↦ rw e (bound, u)
      | inr e ↦ rw e (elim (Bool-cases (length d.requests == c.data_request_queue_size)) [
        | inl f ↦ rw f (bound, u)
        | inr f ↦
            rw f
              (omega (arith, length-append d.requests _, ==→ne _ _ f), Unique-snoc d.requests _ u e)
      ])
    ]

module _ {E : Type 0} (platform : Platform E) (c : Settings) (floats : Floats) where
  requests_loop-RequestsValid :
      (slots count time : ℕ) (n : Network E) (hours : List DataHour) (rs : List DataRequest)
      → length rs ≤ c.data_request_queue_size
      → Unique rs
      → RequestsValid c (
          requests_loop platform c floats slots count time
            (record { network = n; hours = hours; requests = rs }))
  unfolding requests_loop
  requests_loop-RequestsValid zero count time n hours rs bound u = (bound, u)
  requests_loop-RequestsValid (suc slots) count time n hours [] bound u = (bound, u)
  requests_loop-RequestsValid (suc slots) count time n hours (r ∷ rs) bound (fresh, u) =
      let (success, d') =
        answer platform c floats r time
          (record { network = n; hours = hours; requests = r ∷ rs }) in
      elim (Bool-cases (request_finished r || ltb 50 r.errors)) [
        | inl f ↦ elim (Bool-cases ((count + 1) == 3)) [
          | inl t ↦ rw (f, t) (omega arith, u)
          | inr t ↦
              rw (f, t)
                (requests_loop-RequestsValid slots (count + 1) time n hours rs (omega arith) u)
        ]
        | inr f ↦ elim (Bool-cases (not success)) [
          | inl t ↦ rw (f, t) (bound, (fresh, u))
          | inr t ↦
              rw (f, t)
                (requests_loop-RequestsValid slots count time d'.network d'.hours
                  (record r { current_log = (r.current_log + 1) % u32_mod } ∷ rs) bound (fresh, u))
        ]
      ]

  -- data_requests_process keeps the queue of requests within its capacity and without a second request of one device for one variable of one hour.
  pub data_requests_process-RequestsValid :
      (time : ℕ) (d : Device E)
      → RequestsValid c d
      → RequestsValid c (data_requests_process platform c floats time d)
  unfolding data_requests_process
  data_requests_process-RequestsValid time d (bound, u) =
      requests_loop-RequestsValid _ 1 time d.network d.hours d.requests bound u
