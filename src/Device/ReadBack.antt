-- ===== src/Device/ReadBack.antt =====
-- A sample logged by `data_log` and read by `data_get_val` of core/api/zejf_api/src/zejf_data.c.
use zejf_meteo.Common.{ℕ, ◌≡◌, refl, true, Option, some, get_elem?, set}
use zejf_meteo.Defs.{ZejfErr, ok, is_ok, Settings, VariableInfo}
use zejf_meteo.Hour.{DataHour}
use zejf_meteo.Network.{Platform}
use zejf_meteo.Store.{datahour_get, flag_modified}
use zejf_meteo.Info.{Floats}
use zejf_meteo.Device.{Device, store_of, log_into}

pub is_ok-eq : (e : ZejfErr) → is_ok e ≡ true → e ≡ ok
is_ok-eq ok h = refl
is_ok-eq _ h = cc

module _ {E : Type 0} (platform : Platform E) (c : Settings) (floats : Floats) (info : VariableInfo)
    (hour_number k value : ℕ) where
  -- How data_log succeeds: in a place of the queue, with what it writes there.
  record Logged (d d' : Device E) : Type 0 where
    place : ℕ
    hour : DataHour
    at :
        get_elem?
          (datahour_get platform c hour_number true true (store_of platform c floats d)).1.hours
          place
        ≡ some hour
    got :
        (datahour_get platform c hour_number true true (store_of platform c floats d)).0
        ≡ some place
    wrote : is_ok (log_into c hour info k value).0 ≡ true
    hours :
        d'.hours
        ≡ set
            (datahour_get platform c hour_number true true (store_of platform c floats d)).1.hours
            place
            (record (log_into c hour info k value).1 { flags = flag_modified })
