-- ===== src/DataCheck/Valid.antt =====
-- What holds of a whole device through core/api/zejf_api/src/data_check.c.
use mathlib.Core.Option.{some-injective}
use zejf_meteo.Common.{
  ℕ, suc, ◌+◌, ◌==◌, ◌<◌, ◌≡◌, refl, sym, ap, ◌∙◌, Bool, true, false, not, ◌||◌, some, List, [],
  ◌∷◌, ltb, leb, length, get_elem?, All, All-get_elem?, arith, inl, inr, Bool-cases, Option-cases,
}
use zejf_meteo.Common.Bytes.{u32_mod}
use zejf_meteo.Defs.{is_ok, Settings, VariableInfo}
use zejf_meteo.Hour.{Variable, DataHour, get_variable}
use zejf_meteo.Hour.Valid.{VariableValid, HourValid, IsWord}
use zejf_meteo.Protocol.{Packet, message_bytes}
use zejf_meteo.Network.{Platform}
use zejf_meteo.Store.{Store, datahour_get}
use zejf_meteo.Store.Bounds.{LoadsBytes, datahour_get-StoreValid}
use zejf_meteo.Info.Valid.{network_send_packet-Kept}
use zejf_meteo.Device.{Device}
use zejf_meteo.Device.RequestText.{scan_request, scan_request-typed}
use zejf_meteo.Device.Sample.{get_variable-All}
use zejf_meteo.Device.HourKept.{Rewritten, Rewritten-cons, Rewritten-HourValid}
use zejf_meteo.Device.Valid.{DeviceValid, set-StoreValid, data_request_add-DeviceValid}
use zejf_meteo.DataCheck.{
  check_sample, check_samples, set_samples, check_hour, compare_counts, calculate_data_check,
  data_check_send, data_check_receive, is_provided,
}

-- Samples of the same number, all of them words.
record Words (xs ys : List ℕ) : Type 0 where
  count : length ys ≡ length xs
  each : All IsWord ys

check_sample-IsWord :
    (is_prov : Bool) (val values : ℕ)
    → val < u32_mod
    → (check_sample is_prov val values).1 < u32_mod
unfolding check_sample
check_sample-IsWord true val values h = ground arith
check_sample-IsWord false val values h = ground arith

check_samples-Words :
    (is_prov : Bool) (log_num rate log values : ℕ) (xs : List ℕ)
    → All IsWord xs
    → Words xs (check_samples is_prov log_num rate log values xs).1
unfolding check_samples
check_samples-Words is_prov log_num rate log values [] h = record { count = refl; each = tt }
check_samples-Words is_prov log_num rate log values (x ∷ xs) (hx, h) =
    let rest =
      check_samples-Words is_prov log_num rate (log + 1) (check_sample is_prov x values).0 xs h in
    elim (Bool-cases (ltb log_num log || leb rate log)) [
      | inl e ↦ rw e (record { count = refl; each = (hx, h) })
      | inr e ↦ rw e (record {
        count = ap suc rest.count;
        each = (check_sample-IsWord is_prov x values hx, rest.each);
      })
    ]

set_samples-Rewritten :
    (c : Settings) (id : ℕ) (vs : List Variable) (v : Variable) (samples : List ℕ)
    → get_variable vs id ≡ some v
    → Words v.samples samples
    → All (VariableValid c) vs
    → Rewritten c vs (set_samples vs id samples)
unfolding set_samples get_variable
set_samples-Rewritten c id [] v samples e w h = record { each = tt; same = refl }
set_samples-Rewritten c id (x ∷ vs) v samples e w (hx, h) =
    elim (Bool-cases (x.variable_info.id == id)) [
      | inl t ↦
          let same : x ≡ v = some-injective x v (rw t at e) in
          rw t (record {
            each = (
              record {
                rate_pos = hx.rate_pos;
                rate_le = hx.rate_le;
                id_lt = hx.id_lt;
                full = w.count ∙ (ap (λ (y : Variable). length y.samples) (sym same) ∙ hx.full);
                words = w.each;
              },
              h,
            );
            same = refl;
          })
      | inr t ↦
          rw t
            (Rewritten-cons c x vs _ hx (set_samples-Rewritten c id vs v samples (rw t at e) w h))
    ]

check_hour-HourValid :
    (c : Settings) (is_prov : Bool) (info : VariableInfo) (log_num : ℕ) (hour : DataHour)
    → HourValid c hour
    → HourValid c (check_hour is_prov info log_num hour).1
unfolding check_hour
check_hour-HourValid c is_prov info log_num hour h =
    elim (Option-cases (get_variable hour.variables info.id)) [
      | inl e ↦ rw (e, check_hour) h
      | inr (v, e) ↦
          let hv = get_variable-All (VariableValid c) hour.variables info.id v h.each e in
          elim (Bool-cases (not (info.samples_per_hour == v.variable_info.samples_per_hour))) [
            | inl f ↦ rw (e, check_hour, f) h
            | inr f ↦
                rw (e, check_hour, f)
                  (Rewritten-HourValid c hour _ h (
                    set_samples-Rewritten c info.id hour.variables v _ e
                      (check_samples-Words is_prov log_num info.samples_per_hour 0 0 v.samples
                        hv.words)
                      h.each))
          ]
    ]

module _ {E : Type 0} (platform : Platform E) (c : Settings) (bytes : LoadsBytes platform) where
  calculate_data_check-DeviceValid :
      (info : VariableInfo) (hour_num log_num : ℕ) (d : Device E)
      → hour_num < u32_mod
      → DeviceValid c d
      → DeviceValid c (calculate_data_check platform c info hour_num log_num d).1
  unfolding calculate_data_check
  calculate_data_check-DeviceValid info hour_num log_num d small v =
      let s : Store E = record { hours = d.hours; outside = d.network.outside } in
      let (place, s') = datahour_get platform c hour_num true false s in
      let got = (datahour_get-StoreValid platform c hour_num true false s bytes small v.hours).0 in
      let is_prov = is_provided (platform.get_provided_variables s'.outside) info.id in
      let d' : Device E = record d {
        hours = s'.hours;
        network = record d.network { outside = s'.outside };
      } in
      let v' : DeviceValid c d' = record {
        network = v.network;
        hours = got;
        requests = v.requests;
        typed = v.typed;
      } in
      elim (Option-cases place) [
        | inl e ↦ rw (e, calculate_data_check) v'
        | inr (i, e) ↦ elim (Option-cases (get_elem? s'.hours i)) [
          | inl f ↦ rw (e, calculate_data_check, f) v'
          | inr (hour, f) ↦
              let h =
                check_hour-HourValid c is_prov info log_num hour
                  (All-get_elem? (HourValid c) s'.hours i hour got.1 f) in
              rw (e, calculate_data_check, f)
                (record {
                  network = v.network;
                  hours = set-StoreValid c s' i _ got h;
                  requests = v.requests;
                  typed = v.typed;
                })
        ]
      ]

  pub data_check_send-DeviceValid :
      (to : ℕ) (info : VariableInfo) (hour_num log_num time : ℕ) (d : Device E)
      → hour_num < u32_mod
      → DeviceValid c d
      → DeviceValid c (data_check_send platform c to info hour_num log_num time d).1
  unfolding data_check_send
  data_check_send-DeviceValid to info hour_num log_num time d small v =
      let ((rv, number), d') = calculate_data_check platform c info hour_num log_num d in
      let v' = calculate_data_check-DeviceValid info hour_num log_num d small v in
      elim (Bool-cases (number == info.samples_per_hour)) [
        | inl e ↦ rw e v'
        | inr e ↦ elim (Bool-cases (not (is_ok rv))) [
          | inl f ↦ rw (e, f) v'
          | inr f ↦
              rw (e, f)
                (record {
                  network =
                      (network_send_packet-Kept platform c _ time d'.network v'.network).valid;
                  hours = v'.hours;
                  requests = v'.requests;
                  typed = v'.typed;
                })
        ]
      ]

  pub data_check_receive-DeviceValid :
      (p : Packet) (d : Device E)
      → DeviceValid c d
      → DeviceValid c (data_check_receive platform c p d).1
  unfolding data_check_receive compare_counts
  data_check_receive-DeviceValid p d v =
      elim (Option-cases (scan_request (message_bytes p.message))) [
        | inl e ↦ rw (e, data_check_receive) v
        | inr ((info, hour_num, log_num, theirs), e) ↦
            let small =
              scan_request-typed (message_bytes p.message) info hour_num log_num theirs e in
            let ((rv, ours), d') = calculate_data_check platform c info hour_num log_num d in
            let v' = calculate_data_check-DeviceValid info hour_num log_num d small v in
            elim (Bool-cases (not (is_ok rv))) [
              | inl f ↦ rw (e, data_check_receive, f) v'
              | inr f ↦ elim (Bool-cases (ltb theirs ours)) [
                | inl g ↦
                    rw (e, data_check_receive, f, g)
                      (data_request_add-DeviceValid c p.from info hour_num 0 log_num d' small v')
                | inr g ↦ rw (e, data_check_receive, f, g) v'
              ]
            ]
      ]
