-- ===== src/Mobile/Sending.antt =====
-- Counts of notifications.
use Prim.Native.String.{String}
use consentchain.Prelude.{◌+◌, ◌≡◌, refl, List, [], ◌∷◌, arith, length, string_eq}
use consentchain.Mobile.{Support, Results, Push, ids_of, send_one, send_all, send_push_notification}

send_one_counts :
    (push : Push) (s : Support) (id : String) (r : Results)
    → let r' = send_one push s id r in
      (r'.sent + r'.failed ≡ r.sent + r.failed + 1) × (r'.total ≡ r.total)
send_one_counts push s id r = ground arith

send_all_counts :
    (push : Push) (s : Support) (ids : List String) (r : Results)
    → let r' = send_all push s ids r in
      (r'.sent + r'.failed ≡ r.sent + r.failed + length ids) × (r'.total ≡ r.total)
unfolding send_all
send_all_counts push s [] r = (omega arith, refl)
send_all_counts push s (id ∷ ids) r =
    let one = send_one_counts push s id r in
    let ih = send_all_counts push s ids (send_one push s id r) in
    (omega (arith, one.0, ih.0), ground (arith, one.1, ih.1))

-- Every device that a notification is for is counted once, as sent or as failed, whatever the push
-- services do.
every_device_counted :
    (push : Push) (user_id : String) (named : List String) (s : Support)
    → let r = send_push_notification push user_id named s in r.sent + r.failed ≡ r.total
unfolding send_push_notification
every_device_counted push u [] s =
    let start : Results = record {
      total = length (ids_of u s);
      sent = 0;
      failed = 0;
      device_results = [];
    } in
    let c = send_all_counts push s (ids_of u s) start in omega (arith, c.0, c.1)
every_device_counted push u (x ∷ xs) s =
    let start : Results = record {
      total = length (x ∷ xs);
      sent = 0;
      failed = 0;
      device_results = [];
    } in
    let c = send_all_counts push s (x ∷ xs) start in omega (arith, c.0, c.1)
