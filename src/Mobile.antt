-- ===== src/Mobile.antt =====
-- Devices of users, api/mobile/__init__.py, `MobileSDKSupport`: the device table, the lists of each
-- user, and the sending of push notifications. What a push service answers for a device is an
-- argument; none is an exception. Left out of a device: its platform, versions and last activity.
pub mod Owners
pub mod Sending
mod Tests
use Prim.Native.String.{String}
use consentchain.Prelude.{
  ℕ, ◌+◌, Bool, true, false, not, ◌||◌, Option, none, some, List, [], ◌∷◌, ◌++◌, length,
  if◌then◌else◌, Dict, lookup, insert, erase, contains, ◌==◌, string_eq, is_in, remove_first,
}

pub record MobileDevice : Type 0 where
  pub device_id : String
  pub push_token : Option String
  pub notification_enabled : Bool
  pub biometric_enabled : Bool

pub record Support : Type 0 where
  pub devices : Dict String MobileDevice
  pub user_devices : Dict String (List String)

abbrev pub new_support : Support
new_support = record { devices = []; user_devices = [] }

-- `self._user_devices.get(user_id, [])`
abbrev pub ids_of : String → Support → List String
ids_of user_id s = elim (lookup user_id s.user_devices) [ none ↦ [] | some ids ↦ ids ]

unfoldable pub register_device : String → MobileDevice → Support → Support
register_device user_id d s =
    let ids = ids_of user_id s in
    record {
      devices = insert d.device_id d s.devices;
      user_devices =
          insert user_id (if is_in d.device_id ids then ids else ids ++ (d.device_id ∷ []))
            s.user_devices;
    }

-- The loop over all users: `remove` where the device is in the list.
unfoldable pub remove_everywhere : String → Dict String (List String) → Dict String (List String)
remove_everywhere device_id [] = []
remove_everywhere device_id ((u, ids) ∷ d) =
    (u, remove_first device_id ids) ∷ remove_everywhere device_id d

unfoldable pub unregister_device : String → Support → Support × Bool
unregister_device device_id s =
    if contains device_id s.devices
    then (
      record {
        devices = erase device_id s.devices;
        user_devices = remove_everywhere device_id s.user_devices;
      },
      true,
    )
    else (s, false)

unfoldable pub update_push_token : String → String → Support → Support × Bool
update_push_token device_id push_token s = elim (lookup device_id s.devices) [
  | none ↦ (s, false)
  | some d ↦ (
    record s { devices = insert device_id (record d { push_token = some push_token }) s.devices },
    true,
  )
]

pub record Results : Type 0 where
  pub total : ℕ
  pub sent : ℕ
  pub failed : ℕ
  pub device_results : List (String × Bool)

-- A device that can be reached: its token is not empty and notifications are on.
abbrev pub is_reachable : Option MobileDevice → Bool
is_reachable none = false
is_reachable (some d) = elim d.push_token [
  | none ↦ false
  | some t ↦ if t == "" then false else d.notification_enabled
]

abbrev pub Push : Type 0
Push = String → Option Bool

-- One turn of the loop.
abbrev pub send_one : Push → Support → String → Results → Results
send_one push s id r =
    if is_reachable (lookup id s.devices)
    then elim (push id) [
      | none ↦ record r { failed = r.failed + 1 }
      | some true ↦ record r {
        sent = r.sent + 1;
        device_results = r.device_results ++ ((id, true) ∷ []);
      }
      | some false ↦ record r {
        failed = r.failed + 1;
        device_results = r.device_results ++ ((id, false) ∷ []);
      }
    ]
    else record r { failed = r.failed + 1 }

unfoldable pub send_all : Push → Support → List String → Results → Results
send_all push s [] r = r
send_all push s (id ∷ ids) r = send_all push s ids (send_one push s id r)

-- To the devices of a user: those named, if any are.
unfoldable pub send_push_notification : Push → String → List String → Support → Results
send_push_notification push user_id named s =
    let ids : List String = elim named [ [] ↦ ids_of user_id s | (x ∷ xs) ↦ x ∷ xs ] in
    send_all push s ids (record { total = length ids; sent = 0; failed = 0; device_results = [] })

unfoldable pub known_of : List String → Support → List MobileDevice
known_of [] s = []
known_of (id ∷ ids) s =
    let rest = known_of ids s in elim (lookup id s.devices) [ none ↦ rest | some d ↦ d ∷ rest ]

unfoldable pub get_user_devices : String → Support → List MobileDevice
get_user_devices user_id s = known_of (ids_of user_id s) s
