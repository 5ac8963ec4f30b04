-- ===== src/Webhooks/Retries.antt =====
-- Failing deliveries: when they are tried again, and when they are given up.
use consentchain.Prelude.{
  ℕ, zero, suc, ◌≤◌, ◌<◌, ◌≡◌, ◌⊎◌, inl, inr, refl, ap, ◌∙◌, true, false, Option, none, some, List,
  [], ◌∷◌, ◌++◌, arith, append_nil, take, eqb, if◌then◌else◌,
}
use consentchain.Webhooks.{Delivery, Streams, is_delivered, deliver_webhook}

-- What counts as a failure: no answer, or one that is not from 200 to 299.
abbrev pub IsFailure : Option ℕ → Type 0
IsFailure none = Unit {0}
IsFailure (some code) = (code < 200) ⊎ (300 ≤ code)

-- What is left of a delivery and of the streams after some failing attempts at it, one after another.
pub data Attempts (d : Delivery) (s : Streams) : ℕ → Delivery → Streams → Type 0 where
  untried : Attempts d s 0 d s
  failed :
      {n : ℕ} {d' : Delivery} {s' : Streams} (r : Option ℕ)
      → Attempts d s n d' s'
      → IsFailure r
      → Attempts d s (suc n) (deliver_webhook r d' s').1 (deliver_webhook r d' s').0

abbrev pub tried : ℕ → Delivery → Delivery
tried n d = record d { attempts = n }

-- The seconds before each retry.
abbrev pub waits : Delivery → List (ℕ × Delivery)
waits d = (1, tried 1 d) ∷ (5, tried 2 d) ∷ (15, tried 3 d) ∷ (60, tried 4 d) ∷ []

IsFailure-is_delivered : (r : Option ℕ) → IsFailure r → is_delivered r ≡ false
IsFailure-is_delivered none h = refl
IsFailure-is_delivered (some code) (inl h) = ground arith
IsFailure-is_delivered (some code) (inr h) = ground arith

module _ (r : Option ℕ) (d : Delivery) (s : Streams) (refused : is_delivered r ≡ false) where
  first_lem :
      deliver_webhook r (tried 0 d) s
      ≡ (record s { retry = s.retry ++ ((1, tried 1 d) ∷ []) }, tried 1 d, false)
  unfolding deliver_webhook
  first_lem = rw refused refl

  second_lem :
      deliver_webhook r (tried 1 d) s
      ≡ (record s { retry = s.retry ++ ((5, tried 2 d) ∷ []) }, tried 2 d, false)
  unfolding deliver_webhook
  second_lem = rw refused refl

  third_lem :
      deliver_webhook r (tried 2 d) s
      ≡ (record s { retry = s.retry ++ ((15, tried 3 d) ∷ []) }, tried 3 d, false)
  unfolding deliver_webhook
  third_lem = rw refused refl

  fourth_lem :
      deliver_webhook r (tried 3 d) s
      ≡ (record s { retry = s.retry ++ ((60, tried 4 d) ∷ []) }, tried 4 d, false)
  unfolding deliver_webhook
  fourth_lem = rw refused refl

  fifth_lem :
      deliver_webhook r (tried 4 d) s
      ≡ (record s { dead_letter = s.dead_letter ++ (tried 5 d ∷ []) }, tried 5 d, false)
  unfolding deliver_webhook
  fifth_lem = rw refused refl

-- What the streams hold after so many failures.
abbrev pub Fell : ℕ → Delivery → Streams → Delivery → Streams → Type 0
Fell n d s d' s' =
    (d' ≡ tried n d)
    × (s'.retry ≡ s.retry ++ take n (waits d))
    × (s'.dead_letter ≡ s.dead_letter ++ (if eqb n 5 then tried 5 d ∷ [] else []))
    × (s'.pending ≡ s.pending)

module _ {A : Type 0} where
  append_lists : (xs ys zs : List A) → (xs ++ ys) ++ zs ≡ xs ++ (ys ++ zs)
  append_lists [] ys zs = refl
  append_lists (x ∷ xs) ys zs = ap (λ rest. x ∷ rest) (append_lists xs ys zs)

  append_more : {rs : List A} (xs ys zs : List A) → rs ≡ xs ++ ys → rs ++ zs ≡ xs ++ (ys ++ zs)
  append_more xs ys zs e = ap (λ ws. ws ++ zs) e ∙ append_lists xs ys zs

-- One more failure after some: the next wait is added, or the delivery is a dead letter.
fail_once :
    (n : ℕ) (r : Option ℕ) (d d' : Delivery) (s s' : Streams)
    → n < 5
    → is_delivered r ≡ false
    → Fell n d s d' s'
    → Fell (suc n) d s (deliver_webhook r d' s').1 (deliver_webhook r d' s').0
fail_once zero r d d' s s' few bad (at, retried, dead, same) =
    rw (at, first_lem r d s' bad)
      (refl, append_more s.retry (take 0 (waits d)) _ retried, dead, same)
fail_once (suc zero) r d d' s s' few bad (at, retried, dead, same) =
    rw (at, second_lem r d s' bad)
      (refl, append_more s.retry (take 1 (waits d)) _ retried, dead, same)
fail_once (suc (suc zero)) r d d' s s' few bad (at, retried, dead, same) =
    rw (at, third_lem r d s' bad)
      (refl, append_more s.retry (take 2 (waits d)) _ retried, dead, same)
fail_once (suc (suc (suc zero))) r d d' s s' few bad (at, retried, dead, same) =
    rw (at, fourth_lem r d s' bad)
      (refl, append_more s.retry (take 3 (waits d)) _ retried, dead, same)
fail_once (suc (suc (suc (suc zero)))) r d d' s s' few bad (at, retried, dead, same) =
    rw (at, fifth_lem r d s' bad) (refl, retried, append_more s.dead_letter [] _ dead, same)
fail_once (suc (suc (suc (suc (suc n))))) r d d' s s' few bad h = absurd (omega arith)

Attempts-Fell :
    (d : Delivery) (s : Streams)
    → d.attempts ≡ 0
    → {n : ℕ} {d' : Delivery} {s' : Streams} → Attempts d s n d' s'
    → n ≤ 5
    → Fell n d s d' s'
Attempts-Fell d s new untried few =
    (ap (λ n. tried n d) new, append_nil s.retry, append_nil s.dead_letter, refl)
Attempts-Fell d s new (failed {n = n} {d' = d'} {s' = s'} r before bad) few =
    fail_once n r d d' s s' (omega arith) (IsFailure-is_delivered r bad)
      (Attempts-Fell d s new before (omega arith))

-- A new delivery that failed some times, at most five, without an answer or with one that is not from
-- 200 to 299: the retries that were added wait for 1, 5, 15 and 60 seconds, one for each of the first
-- four failures, and it is a new dead letter after the fifth and not before. A next answer from 200 to
-- 299 delivers it, and leaves the streams as they are.
pub failing_waits :
    (d : Delivery) (s : Streams) {n : ℕ} {d' : Delivery} {s' : Streams}
    → d.attempts ≡ 0
    → Attempts d s n d' s'
    → n ≤ 5
    → (s'.retry ≡ s.retry ++ take n (waits d))
      × (s'.dead_letter ≡ s.dead_letter ++ (if eqb n 5 then tried 5 d ∷ [] else []))
      × (s'.pending ≡ s.pending)
      × ((code : ℕ) → 200 ≤ code → code < 300 → deliver_webhook (some code) d' s' ≡ (s', d', true))
unfolding deliver_webhook
failing_waits d s {d' = d'} {s' = s'} new before few =
    let (at, retried, dead, same) = Attempts-Fell d s new before few in
    (retried, dead, same, λ code low high. ground arith)
