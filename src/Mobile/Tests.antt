-- ===== src/Mobile/Tests.antt =====
-- A phone that changes hands.
use Prim.Native.String.{String}
use consentchain.Prelude.{
  ◌≡◌, ◌≢◌, refl, true, false, none, some, arith, lookup, insert, ◌==◌, ==_iff, string_eq, is_in,
}
use consentchain.Mobile.{
  MobileDevice, Support, new_support, ids_of, register_device, unregister_device,
}
use consentchain.Mobile.Owners.{created, next, registers, unregistered_is_gone}

differ : (x y : String) → (x == y) ≡ false → x ≢ y
differ x y h e = ground (arith, ==_iff x y)

abbrev phone : MobileDevice
phone = record {
  device_id = "phone";
  push_token = some "t1";
  notification_enabled = true;
  biometric_enabled = false;
}

abbrev owned : Support
owned = register_device "ann" phone new_support

unregistered_is_gone_example :
    let s' = (unregister_device "phone" owned).0 in
    (is_in "phone" (ids_of "ann" s') ≡ false) × (lookup "phone" s'.devices ≡ none)
unfolding register_device lookup insert
unregistered_is_gone_example =
    unregistered_is_gone "phone" "ann" owned (next created (registers "ann" phone new_support)) refl
