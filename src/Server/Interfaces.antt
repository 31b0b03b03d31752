-- ===== src/Server/Interfaces.antt =====
-- The interfaces of the server: core/devices/ZejfMeteo/src/interface_manager.c. An interface is a
-- pointer, and its uid a map of pointers. The counter of uids is taken not to overflow.
pub mod Valid
use zejf_meteo.Common.{
  ℕ, ◌+◌, ◌-◌, ◌==◌, Bool, true, false, ◌||◌, List, [], ◌∷◌, ◌++◌, leb, if◌then◌else◌, length, take,
}

abbrev pub interfaces_max : ℕ
interfaces_max = 32

pub record Interfaces : Type 0 where
  pub all_interfaces : List ℕ
  pub next_uid : ℕ
  pub uid : ℕ → ℕ

unfoldable pub set_uid : (ℕ → ℕ) → (interface uid : ℕ) → ℕ → ℕ
set_uid f interface uid i = if i == interface then uid else f i

unfoldable pub interface_add : (interface : ℕ) → Interfaces → Bool × Interfaces
unfolding set_uid
interface_add interface s = if leb interfaces_max (length s.all_interfaces) then (false, s) else (
  true,
  record {
    all_interfaces = s.all_interfaces ++ (interface ∷ []);
    next_uid = s.next_uid + 1;
    uid = set_uid s.uid interface s.next_uid;
  },
)

unfoldable pub interfaces_init : (usb_interface_1 : ℕ) → (uid : ℕ → ℕ) → Interfaces
unfolding interface_add
interfaces_init usb_interface_1 uid =
    (interface_add usb_interface_1 (record { all_interfaces = []; next_uid = 0; uid = uid })).1

-- The loop of `interface_remove`: whether the interface was found, for which ones `interface_removed` is
-- called, and the array with what is behind the found one moved to the front.
pub record Removal : Type 0 where
  pub found : Bool
  pub removed : List ℕ
  pub array : List ℕ

unfoldable pub remove_loop : (uid : ℕ → ℕ) → (wanted : ℕ) → (found : Bool) → List ℕ → Removal
remove_loop uid wanted found [] = record { found = found; removed = []; array = [] }
remove_loop uid wanted found (x ∷ []) =
    let this = uid x == wanted in
    record { found = this || found; removed = if this then x ∷ [] else []; array = x ∷ [] }
remove_loop uid wanted found (x ∷ y ∷ ys) =
    let this = uid x == wanted in
    let found' = this || found in
    let rest = remove_loop uid wanted found' (y ∷ ys) in
    record {
      found = rest.found;
      removed = if this then x ∷ rest.removed else rest.removed;
      array = (if found' then y else x) ∷ rest.array;
    }

-- The result is false whatever happens.
unfoldable pub interface_remove : (wanted : ℕ) → Interfaces → Bool × List ℕ × Interfaces
unfolding remove_loop
interface_remove wanted s =
    let r = remove_loop s.uid wanted false s.all_interfaces in
    (
      false,
      r.removed,
      record s { all_interfaces = if r.found then take (length r.array - 1) r.array else r.array },
    )
