-- ===== src/Webhooks.antt =====
-- The delivery of webhooks, api/webhooks/service.py, `WebhookService`, without a database. A Redis
-- stream is the list of its entries, the oldest first: XADD appends, XDEL takes out the entry that was
-- read. What the HTTP client answers to a call is an argument, none where it raises. Left out: the
-- signature and the headers, the texts of errors, and times.
pub mod Retries
pub mod Replays
mod Tests
use Prim.Native.String.{String}
use consentchain.Prelude.{
  ℕ, zero, suc, ◌+◌, ◌-◌, Bool, true, false, ◌&&◌, Option, none, some, List, [], ◌∷◌, ◌++◌, ltb,
  leb, if◌then◌else◌, ◌==◌, string_eq, get_elem?, or_else,
}

-- `WebhookDelivery`
pub record Delivery : Type 0 where
  pub id : String
  pub subscription_id : String
  pub event_type : String
  pub payload : String
  pub attempts : ℕ

-- The streams: pending, dead letters, and retries with the delay that names their stream.
pub record Streams : Type 0 where
  pub pending : List Delivery
  pub dead_letter : List Delivery
  pub retry : List (ℕ × Delivery)

abbrev pub no_streams : Streams
no_streams = record { pending = []; dead_letter = []; retry = [] }

abbrev pub max_retries : ℕ
max_retries = 5

abbrev pub retry_delays : List ℕ
retry_delays = 1 ∷ 5 ∷ 15 ∷ 60 ∷ 300 ∷ []

unfoldable pub queue_webhook : String → String → String → String → Streams → Streams
queue_webhook id subscription event payload s = record s {
  pending =
      s.pending
      ++ (record {
        id = id;
        subscription_id = subscription;
        event_type = event;
        payload = payload;
        attempts = 0;
      }
          ∷ []);
}

-- `200 <= response.status_code < 300`
abbrev pub is_delivered : Option ℕ → Bool
is_delivered none = false
is_delivered (some code) = leb 200 code && ltb code 300

-- `RETRY_DELAYS[min(attempts - 1, len(RETRY_DELAYS) - 1)]`
abbrev pub delay_after : ℕ → ℕ
delay_after attempts =
    or_else (get_elem? retry_delays (if leb 4 (attempts - 1) then 4 else attempts - 1)) 300

unfoldable pub deliver_webhook : Option ℕ → Delivery → Streams → Streams × Delivery × Bool
deliver_webhook response d s =
    let failed : Delivery = record d { attempts = d.attempts + 1 } in
    if is_delivered response
    then (s, d, true)
    else if leb max_retries failed.attempts
    then (record s { dead_letter = s.dead_letter ++ (failed ∷ []) }, failed, false)
    else (
      record s { retry = s.retry ++ ((delay_after failed.attempts, failed) ∷ []) },
      failed,
      false,
    )

-- The entries that are read are deleted; nothing else is done with them.
unfoldable pub process_entries : ℕ → List Delivery → List Delivery × ℕ
process_entries zero entries = (entries, 0)
process_entries (suc n) [] = ([], 0)
process_entries (suc n) (d ∷ entries) =
    let (rest, processed) = process_entries n entries in (rest, processed + 1)

unfoldable pub process_pending_webhooks : ℕ → Streams → Streams × ℕ
process_pending_webhooks batch_size s =
    let (rest, processed) = process_entries batch_size s.pending in
    (record s { pending = rest }, processed)

-- The first dead letter of a delivery, and the others.
unfoldable pub take_dead : String → List Delivery → Option (Delivery × List Delivery)
take_dead id [] = none
take_dead id (d ∷ ds) =
    let rest = take_dead id ds in
    if d.id == id
    then some (d, ds)
    else elim rest [ none ↦ none | some found ↦ some (found.0, d ∷ found.1) ]

unfoldable pub replay_dead_letter : String → Streams → Streams × Bool
replay_dead_letter id s = elim (take_dead id s.dead_letter) [
  | none ↦ (s, false)
  | some found ↦ (
    record s {
      pending = s.pending ++ (record (found.0) { attempts = 0 } ∷ []);
      dead_letter = found.1;
    },
    true,
  )
]
