-- ===== src/Device/Valid.antt =====
-- What holds of a whole device through `data_log` of core/api/zejf_api/src/zejf_data.c and the requests
-- of data_request.c.
use zejf_meteo.Common.{
  ℕ, zero, suc, ◌+◌, ◌%◌, ◌==◌, ◌<◌, Bool, true, false, not, ◌||◌, List, [], ◌∷◌, ltb,
  if◌then◌else◌, length, length-set, get_elem?, set, All, All-set, All-append, All-get_elem?, arith,
  inl, inr, Bool-cases, Option-cases,
}
use zejf_meteo.Common.Bytes.{u16_mod, u32_mod}
use zejf_meteo.Defs.{is_ok, Settings, VariableInfo}
use zejf_meteo.Hour.{DataHour}
use zejf_meteo.Hour.Valid.{HourValid}
use zejf_meteo.Network.{Platform, Network}
use zejf_meteo.Network.Valid.{NetworkValid}
use zejf_meteo.Store.{Store, datahour_get, data_get_val, flag_modified}
use zejf_meteo.Store.Bounds.{StoreValid, LoadsBytes, datahour_get-StoreValid}
use zejf_meteo.Info.{Floats, network_announce_log}
use zejf_meteo.Info.Valid.{
  network_announce_log-Kept, network_broadcast_log-Kept, data_send_log-Kept,
}
use zejf_meteo.Device.{
  DataRequest, Device, store_of, log_into, data_logged, data_log, data_request_add,
  request_already_exists, request_finished, answer, requests_loop, data_requests_process,
}
use zejf_meteo.Device.Requests.{
  RequestsValid, data_request_add-RequestsValid, data_requests_process-RequestsValid,
}
use zejf_meteo.Device.HourKept.{log_into-HourValid}

-- The hour of a request is a word of the machine.
abbrev pub RequestTyped : DataRequest → Type 0
RequestTyped r = r.hour_number < u32_mod

-- Every part of a device is valid.
pub record DeviceValid {E : Type 0} (c : Settings) (d : Device E) : Type 0 where
  pub network : NetworkValid c d.network
  pub hours : StoreValid c (record { hours = d.hours; outside = d.network.outside })
  pub requests : RequestsValid c d
  pub typed : All RequestTyped d.requests

-- An hour overwritten by a valid one.
pub set-StoreValid :
    {E : Type 0} (c : Settings) (s : Store E) (i : ℕ) (hour : DataHour)
    → StoreValid c s
    → HourValid c hour
    → StoreValid c (record s { hours = set s.hours i hour })
set-StoreValid c s i hour (bound, all) h =
    (omega (arith, length-set s.hours i hour), All-set (HourValid c) s.hours i hour all h)

module _ {E : Type 0} (c : Settings) where
  pub data_request_add-DeviceValid :
      (to : ℕ) (info : VariableInfo) (hour_number start_log end_log : ℕ) (d : Device E)
      → hour_number < u32_mod
      → DeviceValid c d
      → DeviceValid c (data_request_add c to info hour_number start_log end_log d).1
  unfolding data_request_add
  data_request_add-DeviceValid to info hour_number start_log end_log d small v =
      let unique =
        data_request_add-RequestsValid c to info hour_number start_log end_log d v.requests in
      elim (Bool-cases (request_already_exists to info hour_number d.requests)) [
        | inl e ↦ rw e v
        | inr e ↦ elim (Bool-cases (length d.requests == c.data_request_queue_size)) [
          | inl f ↦ rw (e, f) v
          | inr f ↦
              rw (e, f)
                (record {
                  network = v.network;
                  hours = v.hours;
                  requests = rw (e, f) at unique;
                  typed = All-append RequestTyped d.requests _ v.typed (small, tt);
                })
        ]
      ]

module _ {E : Type 0} (platform : Platform E) (c : Settings) (floats : Floats)
    (bytes : LoadsBytes platform) where
  announced :
      (info : VariableInfo) (hour_number k value time : ℕ) (announce : Bool) (n : Network E)
      → NetworkValid c n
      → NetworkValid c (
          if announce
          then (network_announce_log platform c floats info hour_number k value time n).1
          else n)
  announced info hour_number k value time true n v =
      (network_announce_log-Kept platform c floats info hour_number k value time n v).valid
  announced info hour_number k value time false n v = v

  data_logged-DeviceValid :
      (place : ℕ) (hour : DataHour) (info : VariableInfo) (hour_number k value time : ℕ)
      (announce : Bool) (d : Device E)
      → HourValid c hour
      → DeviceValid c d
      → DeviceValid c
          (data_logged platform c floats place hour info hour_number k value time announce d)
  unfolding data_logged
  data_logged-DeviceValid place hour info hour_number k value time announce d h v =
      let marked =
        set-StoreValid c (record { hours = d.hours; outside = d.network.outside }) place
          (record hour { flags = flag_modified }) v.hours
          (record {
            hour_id_lt = h.hour_id_lt;
            flags_lt = omega arith;
            count_le = h.count_le;
            each = h.each;
            distinct = h.distinct;
          }) in
      let n = announced info hour_number k value time announce d.network v.network in
      record {
        network =
            (network_broadcast_log-Kept platform c floats info hour_number k value time _ n).valid;
        hours = marked;
        requests = v.requests;
        typed = v.typed;
      }

  pub data_log-DeviceValid :
      (info : VariableInfo) (hour_number k value time : ℕ) (announce : Bool) (d : Device E)
      → info.id < u16_mod
      → hour_number < u32_mod
      → value < u32_mod
      → DeviceValid c d
      → DeviceValid c (data_log platform c floats info hour_number k value time announce d).1
  unfolding data_log
  data_log-DeviceValid info hour_number k value time announce d id small word v =
      let s = store_of platform c floats d in
      let (place, s') = datahour_get platform c hour_number true true s in
      let got =
        (datahour_get-StoreValid platform c hour_number true true s bytes small v.hours).0 in
      let d' = record d { hours = s'.hours; network = record d.network { outside = s'.outside } } in
      let v' : DeviceValid c d' = record {
        network = v.network;
        hours = got;
        requests = v.requests;
        typed = v.typed;
      } in
      elim (Option-cases place) [
        | inl e ↦ rw (e, data_log) v'
        | inr (i, e) ↦ elim (Option-cases (get_elem? s'.hours i)) [
          | inl f ↦ rw (e, data_log, f) v'
          | inr (hour, f) ↦
              let h = All-get_elem? (HourValid c) s'.hours i hour got.1 f in
              let h' = log_into-HourValid c k value word info hour h id in
              elim (Bool-cases (not (is_ok (log_into c hour info k value).0))) [
                | inl o ↦
                    rw (e, data_log, f, o)
                      (record {
                        network = v.network;
                        hours = set-StoreValid c s' i _ got h';
                        requests = v.requests;
                        typed = v.typed;
                      })
                | inr o ↦
                    rw (e, data_log, f, o)
                      (data_logged-DeviceValid i _ info hour_number k value time announce d' h' v')
              ]
        ]
      ]

  -- The store and the network, without the requests.
  record BodyValid (d : Device E) : Type 0 where
    network : NetworkValid c d.network
    hours : StoreValid c (record { hours = d.hours; outside = d.network.outside })

  answer-BodyValid :
      (r : DataRequest) (time : ℕ) (d : Device E)
      → RequestTyped r
      → BodyValid d
      → BodyValid (answer platform c floats r time d).1
  unfolding answer data_get_val
  answer-BodyValid r time d small v =
      let s = store_of platform c floats d in
      let ((rv, val), s') =
        data_get_val platform c r.variable r.hour_number r.current_log true false s in
      let got =
        (datahour_get-StoreValid platform c r.hour_number true false s bytes small v.hours).0 in
      elim (Bool-cases (not (is_ok rv))) [
        | inl e ↦ rw e (record { network = v.network; hours = got })
        | inr e ↦ rw e (record {
          network =
              (data_send_log-Kept platform c floats r.variable r.hour_number r.current_log val time
                r.target_device _ v.network).valid;
          hours = got;
        })
      ]

  -- The loop keeps the store and the network valid and the hours of the requests typed.
  record LoopValid (d : Device E) : Type 0 where
    body : BodyValid d
    typed : All RequestTyped d.requests

  requests_loop-LoopValid :
      (slots count time : ℕ) (n : Network E) (hours : List DataHour) (rs : List DataRequest)
      → BodyValid (record { network = n; hours = hours; requests = rs })
      → All RequestTyped rs
      → LoopValid (
          requests_loop platform c floats slots count time
            (record { network = n; hours = hours; requests = rs }))
  unfolding requests_loop
  requests_loop-LoopValid zero count time n hours rs v t = record { body = v; typed = t }
  requests_loop-LoopValid (suc slots) count time n hours [] v t = record { body = v; typed = t }
  requests_loop-LoopValid (suc slots) count time n hours (r ∷ rs) v (tr, t) =
      let d : Device E = record { network = n; hours = hours; requests = r ∷ rs } in
      let (success, d') = answer platform c floats r time d in
      let v' : BodyValid d' = answer-BodyValid r time d tr v in
      elim (Bool-cases (request_finished r || ltb 50 r.errors)) [
        | inl f ↦ elim (Bool-cases ((count + 1) == 3)) [
          | inl g ↦
              rw (f, g)
                (record { body = record { network = v.network; hours = v.hours }; typed = t })
          | inr g ↦
              rw (f, g)
                (requests_loop-LoopValid slots (count + 1) time n hours rs
                  (record { network = v.network; hours = v.hours }) t)
        ]
        | inr f ↦ elim (Bool-cases (not success)) [
          | inl g ↦
              rw (f, g)
                (record {
                  body = record { network = v'.network; hours = v'.hours };
                  typed = (tr, t);
                })
          | inr g ↦
              rw (f, g)
                (requests_loop-LoopValid slots count time d'.network d'.hours
                  (record r { current_log = (r.current_log + 1) % u32_mod } ∷ rs)
                  (record { network = v'.network; hours = v'.hours }) (tr, t))
        ]
      ]

  pub data_requests_process-DeviceValid :
      (time : ℕ) (d : Device E)
      → DeviceValid c d
      → DeviceValid c (data_requests_process platform c floats time d)
  unfolding data_requests_process
  data_requests_process-DeviceValid time d v =
      let r =
        requests_loop-LoopValid _ 1 time d.network d.hours d.requests
          (record { network = v.network; hours = v.hours }) v.typed in
      record {
        network = r.body.network;
        hours = r.body.hours;
        requests = data_requests_process-RequestsValid platform c floats time d v.requests;
        typed = r.typed;
      }
