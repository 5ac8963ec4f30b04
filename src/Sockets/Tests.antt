-- ===== src/Sockets/Tests.antt =====
-- A principal's socket and an administrator's.
use consentchain.Prelude.{
  ℕ, ◌≡◌, refl, true, false, Bool, ◌||◌, ◌&&◌, none, some, [], ◌∷◌, Dict, lookup, insert, string_eq,
  nat_eq, is_in,
}
use consentchain.Sockets.{
  Message, new_manager, connect, Manager, broadcast_consent_event, broadcast_to_admins,
  broadcast_all,
}
use consentchain.Sockets.Sessions.{Session, Reach, started, next, opens, names, is_open}
use consentchain.Sockets.Broadcasts.{receivers, reaches_sessions}

abbrev alice : Session
alice = record { principal_id = some "p1"; fiduciary_id = none; is_admin = false }

abbrev root : Session
root = record { principal_id = none; fiduciary_id = none; is_admin = true }

abbrev one : Manager
one = connect 1 (some "p1") none false new_manager

abbrev two : Manager
two = connect 2 none none true one

abbrev sessions : Dict ℕ Session
sessions = (1, alice) ∷ (2, root) ∷ []

two-Reach : Reach (sessions, two)
unfolding lookup insert
two-Reach = next (next started (opens 1 alice [] new_manager refl)) (opens 2 root _ one refl)

abbrev notice : Message
notice = record {
  type = "system_announcement";
  content = "{}";
  principal_id = none;
  fiduciary_id = none;
}

abbrev everyone : ℕ → Bool
everyone x = true

reaches_sessions_example :
    (is_in 1 (receivers (broadcast_consent_event everyone "consent_revoked" "{}" "p1" "f1" two)) ≡ (
      (is_open (λ σ. names "p1" σ.principal_id) 1 sessions
        || is_open (λ σ. names "f1" σ.fiduciary_id) 1 sessions)
      && true))
    × (is_in 1 (receivers (broadcast_to_admins everyone notice two))
        ≡ (is_open (λ σ. σ.is_admin) 1 sessions && true))
    × (is_in 1 (receivers (broadcast_all everyone notice two))
        ≡ (is_open (λ σ. true) 1 sessions && true))
reaches_sessions_example =
    reaches_sessions everyone "consent_revoked" "{}" "p1" "f1" notice 1 two-Reach
