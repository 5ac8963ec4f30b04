-- ===== src/Webhooks/Tests.antt =====
-- A delivery to a receiver that is down.
use consentchain.Prelude.{
  ℕ, ◌≡◌, ◌≤◌, ◌<◌, refl, true, none, some, List, [], ◌∷◌, ◌++◌, arith, Option, inr, take, eqb,
  if◌then◌else◌,
}
use consentchain.Webhooks.{Delivery, Streams, no_streams, deliver_webhook}
use consentchain.Webhooks.Retries.{Attempts, untried, failed, tried, waits, failing_waits}

abbrev news : Delivery
news = record {
  id = "d1";
  subscription_id = "s1";
  event_type = "CONSENT_REVOKED";
  payload = "p";
  attempts = 0;
}

-- The streams after answers one after another, each to the delivery as the last one left it.
abbrev after : List (Option ℕ) → Delivery → Streams → Streams × Delivery
after [] d s = (s, d)
after (r ∷ rs) d s = let (s', d', delivered) = deliver_webhook r d s in after rs d' s'

abbrev answers : List (Option ℕ)
answers = none ∷ some 500 ∷ some 404 ∷ some 302 ∷ none ∷ []

abbrev given_up : Streams × Delivery
given_up = after answers news no_streams

given_up_lem :
    given_up
    ≡ (record no_streams { retry = waits news; dead_letter = tried 5 news ∷ [] }, tried 5 news)
unfolding deliver_webhook
given_up_lem = refl

abbrev twice : Streams × Delivery
twice = after (none ∷ some 500 ∷ []) news no_streams

twice-Attempts : Attempts news no_streams 2 twice.1 twice.0
twice-Attempts = failed (some 500) (failed none untried tt) (inr (omega arith))

failing_waits_example :
    (twice.0.retry ≡ no_streams.retry ++ take 2 (waits news))
    × (twice.0.dead_letter ≡ no_streams.dead_letter ++ (if eqb 2 5 then tried 5 news ∷ [] else []))
    × (twice.0.pending ≡ no_streams.pending)
    × ((code : ℕ)
        → 200 ≤ code
        → code < 300
        → deliver_webhook (some code) twice.1 twice.0 ≡ (twice.0, twice.1, true))
failing_waits_example = failing_waits news no_streams refl twice-Attempts (omega arith)
