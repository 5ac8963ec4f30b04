-- ===== src/Webhooks/Replays.antt =====
-- What becomes of pending deliveries and of dead letters.
use Prim.Native.String.{String}
use consentchain.Prelude.{
  ℕ, zero, suc, ◌+◌, ◌≤◌, ◌≡◌, ◌↔◌, refl, true, none, some, List, [], ◌∷◌, ◌++◌, arith, length,
  keep, ◌==◌, ==_iff, string_eq, Bool-cases, Option-cases, inl, inr,
}
use consentchain.Webhooks.{
  Delivery, Streams, process_entries, process_pending_webhooks, take_dead, replay_dead_letter,
}

-- How many entries of a stream are of a delivery.
abbrev pub count : String → List Delivery → ℕ
count id ds = length (keep (λ d. d.id == id) ds)

count-append :
    (id : String) (ds es : List Delivery) → count id (ds ++ es) ≡ count id ds + count id es
count-append id [] es = omega arith
count-append id (d ∷ ds) es = let ih = count-append id ds es in ground arith

taken :
    (id x : String) (ds : List Delivery) {found : Delivery × List Delivery}
    → take_dead id ds ≡ some found
    → (found.0.id ≡ id) × (count x ds ≡ count x (found.0 ∷ found.1))
unfolding take_dead
taken id x [] e = absurd (ground arith)
taken id x (d ∷ ds) {found} e = elim (Bool-cases (d.id == id)) [
  | inl same ↦ (ground (arith, ==_iff d.id id), ground arith)
  | inr other ↦ elim (Option-cases (take_dead id ds)) [
    | inl absent ↦ absurd (ground arith)
    | inr (f, there) ↦ let (named, counted) = taken id x ds there in (ground arith, ground arith)
  ]
]

absent_count : (id : String) (ds : List Delivery) → take_dead id ds ≡ none → count id ds ≡ 0
unfolding take_dead
absent_count id [] e = refl
absent_count id (d ∷ ds) e = elim (Option-cases (take_dead id ds)) [
  | inl absent ↦ let ih = absent_count id ds absent in ground arith
  | inr (f, there) ↦ absurd (ground arith)
]

-- A replay is true exactly when the delivery is among the dead letters. It then moves one of its
-- entries to the pending ones; no entry is lost or doubled, of this delivery or of any other, and the
-- retries stay.
pub replay_moves :
    (id x : String) (s : Streams)
    → let (s', found) = replay_dead_letter id s in
      ((found ≡ true) ↔ (1 ≤ count id s.dead_letter))
      × (found ≡ true → count id s.dead_letter ≡ suc (count id s'.dead_letter))
      × (count x s'.pending + count x s'.dead_letter ≡ count x s.pending + count x s.dead_letter)
      × (s'.retry ≡ s.retry)
unfolding replay_dead_letter
replay_moves id x s = elim (Option-cases (take_dead id s.dead_letter)) [
  | inl absent ↦
      let none_there = absent_count id s.dead_letter absent in
      rw (replay_dead_letter, absent)
        (
          (λ h. absurd (ground arith), λ h. absurd (omega (arith, none_there))),
          (λ h. absurd (ground arith)),
          refl,
          refl,
        )
  | inr (f, there) ↦
      let own = taken id id s.dead_letter there in
      let all = taken id x s.dead_letter there in
      let here : count id s.dead_letter ≡ suc (count id f.1) =
        ground (arith, own.1, ==_iff f.0.id id, own.0) in
      rw (replay_dead_letter, there)
        (
          (λ h. omega (arith, here), λ h. refl),
          (λ h. here),
          ground (arith, count-append x s.pending (record (f.0) { attempts = 0 } ∷ []), all.1),
          refl,
        )
]

process-length :
    (n : ℕ) (ds : List Delivery)
    → let (rest, processed) = process_entries n ds in
      (processed + length rest ≡ length ds) × (length ds ≤ n → rest ≡ [])
unfolding process_entries
process-length zero [] = (omega arith, λ h. refl)
process-length zero (d ∷ ds) = (omega arith, λ h. absurd (omega arith))
process-length (suc n) [] = (omega arith, λ h. refl)
process-length (suc n) (d ∷ ds) =
    let ih = process-length n ds in (omega (arith, ih.0), λ h. ih.1 (omega arith))

-- The processing of pending webhooks counts those that it takes from the stream, and takes all when
-- they are no more than the batch. It tries no delivery: no retry and no dead letter comes of them, and
-- nothing else is stored.
pub pending_are_dropped :
    (batch : ℕ) (s : Streams)
    → let (s', processed) = process_pending_webhooks batch s in
      (processed + length s'.pending ≡ length s.pending)
      × (length s.pending ≤ batch → s'.pending ≡ [])
      × (s'.retry ≡ s.retry)
      × (s'.dead_letter ≡ s.dead_letter)
unfolding process_pending_webhooks
pending_are_dropped batch s = let h = process-length batch s.pending in (h.0, h.1, refl, refl)
