-- ===== src/Trail/Access.antt =====
-- Who may write the audit trail, and what a call leaves alone.
use consentchain.Prelude.{
  ℕ, ◌+◌, ◌<◌, ◌≡◌, ◌≢◌, ◌↔◌, true, arith, ok, err, after, BoxStore, word, Option-cases, inl, inr,
}
use consentchain.Trail.{
  AuditEvent, Trail, Txn, Entry, only_admin, event_not_found, set_registry, log_event,
  batch_log_events, get_event, verify_event, batch_log_events, get_event_count, get_merkle_root,
}
use consentchain.Trail.Chain.{event_of}

module _ (B : BoxStore AuditEvent) where
  -- `verify_event` answers true exactly when `get_event` returns an event.
  pub verify_iff_get :
      (h : ℕ) (s : Trail B.Store)
      → (verify_event B h s ≡ true) ↔ ((ev : AuditEvent) × (get_event B h s ≡ ok ev))
  unfolding verify_event get_event
  verify_iff_get h s = elim (Option-cases (B.get h s.boxes)) [
    | inl missing ↦ (λ e. ground arith, λ (ev, e). ground arith)
    | inr (ev, found) ↦ (λ e. (ev, ground arith), λ (ev', e). ground arith)
  ]

  -- Only the admin sets the registry; a failing call says so.
  pub set_registry_guarded :
      (t : Txn) (app : ℕ) (s : Trail B.Store)
      → t.sender ≢ s.admin_address
      → set_registry B t app s ≡ err only_admin
  unfolding set_registry
  set_registry_guarded t app s other = ground arith

  -- Nothing guards the trail itself: for every sender, `log_event` on a hash that is taken replaces
  -- the event under it, its actor, statuses and round, as long as the counter has room, and every
  -- other event stays.
  pub log_event_rewrites :
      (t : Txn) (e : Entry) (s : Trail B.Store) {old : AuditEvent} (k : ℕ)
      → get_event B e.event_hash s ≡ ok old
      → k ≢ e.event_hash
      → s.event_counter + 1 < word
      → let s' = after s (log_event B t e s) in
        (get_event B e.event_hash s' ≡ ok (event_of s.last_event_hash t e))
        × (get_event B k s' ≡ get_event B k s)
  unfolding log_event get_event
  log_event_rewrites t e s k taken other room =
      let ev = event_of s.last_event_hash t e in
      (
        ground (arith, B.get-put e.event_hash e.event_hash ev s.boxes),
        ground (arith, B.get-put k e.event_hash ev s.boxes),
      )

  -- A batch replaces the root and the end of the chain and adds its count, for any caller; it stores
  -- no event, so that a last hash that was never logged leaves the trail without a readable end.
  pub batch_unlinks :
      (root count last : ℕ) (s : Trail B.Store)
      → get_event B last s ≡ err event_not_found
      → s.event_counter + count < word
      → let s' = after s (batch_log_events B root count last s) in
        (get_event B s'.last_event_hash s' ≡ err event_not_found)
        × (get_event_count B s' ≡ get_event_count B s + count)
        × (get_merkle_root B s' ≡ root)
  unfolding batch_log_events get_event get_event_count get_merkle_root
  batch_unlinks root count last s missing room = (ground arith, ground arith, ground arith)
