-- ===== src/Consents/Tests.antt =====
-- One consent of one principal, from its creation to its revocation.
use Prim.Native.String.{String}
use consentchain.Prelude.{
  ℕ, ◌^◌, ◌+◌, ◌*◌, ◌≡◌, ◌≢◌, ◌↔◌, ◌≤◌, refl, true, false, none, some, List, [], ◌∷◌, map, arith,
  ok, err, pos, lookup, insert, ==_iff, string_eq, nat_eq, list_eq, length, get_elem?,
  if◌then◌else◌, is_in,
}
use consentchain.Dpdp.{validate_consent_purpose, validate_consent_duration, has_sensitive}
use consentchain.Merkle.{Text, ProofStep, get_proof, verify_proof}
use consentchain.Consents.{
  consent_revoked, granted, revoked, Fiduciary, Consent, Event, Db, empty_db, Env, Request, Changes,
  by_wallet, after_days, create_consent, revoke_consent, modify_consent, verify_consent, valid,
  was_revoked, already_revoked, cannot_modify_revoked, attribute_error, integrity_error, Verdict,
  new_consent, revoked_as, day, max_time, characters, database_error,
}
use consentchain.Consents.Accounts.{register_principal, register_fiduciary, has_number, has_wallet}
use consentchain.Consents.Runs.{
  Op, registers_principal, registers_fiduciary, creates, revokes, verifies, step, here, next, Reach,
  Effect, status_of, step-Effect,
}
use consentchain.Consents.History.{
  last_status, Follows, IsChained, history_IsChained, event_actions, audit_actions, events_audited,
}
use consentchain.Consents.Finality.{revocation_is_final}
use consentchain.Consents.Validity.{IsValid, verify_iff_IsValid}
use consentchain.Consents.Soundness.{calls_answer}
use consentchain.Consents.Creation.{IsAllowed, IsServed, creates_iff, modify_ignores_rules}
use consentchain.Consents.Queries.{Filter}
use consentchain.Consents.Reports.{
  Report, generate_compliance_report, calculate_compliance_score, latest_score,
}
use consentchain.Consents.Scores.{report_bounds}
use consentchain.Consents.Roots.{
  found, find_event, first_of, last_of, has_root, leaf_of, generate_merkle_root,
}
use consentchain.Consents.Anchors.{root_proves_events}

abbrev acme : Fiduciary
acme = record {
  name = "Acme";
  registration_number = "R1";
  wallet_address = "ACME";
  api_key_hash = "h";
}

abbrev env : ℕ → String → Env
env now id = record {
  now = now;
  new_id = "c1";
  event_id = id;
  audit_id = id;
  new_hash = "hash";
  tx = some "tx";
}

abbrev request : Request
request = record {
  principal_wallet = "W";
  fiduciary_id = "f1";
  purpose = "RESEARCH";
  data_types = "HEALTH_DATA" ∷ [];
  duration_days = pos 30;
}

abbrev signs_up : Op
signs_up = registers_principal "p1" "W" "mail" none

abbrev registers : Op
registers = registers_fiduciary "f1" acme

abbrev creation : Op
creation = creates (env 1000 "e1") request

abbrev revocation : Op
revocation = revokes (env 2000 "e2") "c1"

abbrev founded : Db
founded = step registers (step signs_up empty_db)

abbrev opened : Db
opened = step creation founded

abbrev closed : Db
closed = step revocation opened

founded-Reach : Reach founded
founded-Reach = next registers (next signs_up here tt) tt

opened-Reach : Reach opened
unfolding lookup step register_principal register_fiduciary by_wallet has_number has_wallet
opened-Reach = next creation founded-Reach refl

closed-Reach : Reach closed
closed-Reach = next revocation opened-Reach tt

step-Effect_example : Effect opened closed
step-Effect_example = step-Effect revocation opened tt

history_IsChained_example :
    Follows (last_status "c1" closed.events) (status_of "c1" closed.consents)
    × IsChained "c1" closed.events
history_IsChained_example = history_IsChained closed-Reach "c1"

events_audited_example : event_actions closed.events ≡ audit_actions closed.audits
events_audited_example = events_audited closed-Reach

abbrev first_consent : Consent
first_consent = new_consent (env 1000 "e1") request "p1" (1000 + 30 * day) "tx"

abbrev last_consent : Consent
last_consent = revoked_as 2000 "tx" first_consent

opened_has : lookup "c1" opened.consents ≡ some first_consent
unfolding lookup insert step register_principal register_fiduciary by_wallet has_number has_wallet
    create_consent characters validate_consent_purpose validate_consent_duration has_sensitive is_in
    after_days revoke_consent
opened_has = refl

revoked_there : revoke_consent (env 2000 "e2") "c1" opened ≡ ok (closed, last_consent)
unfolding lookup insert step register_principal register_fiduciary by_wallet has_number has_wallet
    create_consent characters validate_consent_purpose validate_consent_duration has_sensitive is_in
    after_days revoke_consent
revoked_there = refl

abbrev no_changes : Changes
no_changes = record { new_purpose = none; new_data_types = none; new_duration_days = none }

revocation_is_final_example :
    let later = step (verifies 3000 "c1") closed in
    (lookup "c1" later.consents ≡ some last_consent)
    × (verify_consent 4000 "c1" later ≡ ok (later, was_revoked 2000))
    × (revoke_consent (env 5000 "e3") "c1" later ≡ err already_revoked)
    × (modify_consent (env 5000 "e3") "c1" no_changes later ≡ err cannot_modify_revoked)
revocation_is_final_example =
    revocation_is_final (env 2000 "e2") (env 5000 "e3") "c1" no_changes 4000 opened closed
      (step (verifies 3000 "c1") closed) last_consent revoked_there
      (next (verifies 3000 "c1") here tt)

verify_iff_IsValid_example :
    (((db : Db) × (verify_consent 1500 "c1" opened ≡ ok (db, valid first_consent)))
      ↔ ((lookup "c1" opened.consents ≡ some first_consent) × IsValid 1500 first_consent))
    × ((db : Db) → verify_consent 1500 "c1" opened ≡ ok (db, valid first_consent) → db ≡ opened)
verify_iff_IsValid_example = verify_iff_IsValid 1500 "c1" first_consent opened

calls_answer_example :
    ((d : Db × Verdict) × (verify_consent 1500 "c1" opened ≡ ok d))
    × (revoke_consent (env 1500 "e3") "c1" opened ≢ err attribute_error)
    × (modify_consent (env 1500 "e3") "c1" no_changes opened ≢ err attribute_error)
calls_answer_example = calls_answer 1500 (env 1500 "e3") "c1" no_changes opened-Reach

creates_iff_example :
    ((d : Db × Consent) × (create_consent (env 1000 "e1") request founded ≡ ok d)) ↔ (
      IsAllowed 30 request
      × IsServed (env 1000 "e1") request founded
      × (1000 + 30 * day ≤ max_time))
creates_iff_example = creates_iff (env 1000 "e1") request founded 30 refl

-- The purpose that a creation with these data types may not have.
abbrev changes : Changes
changes = record {
  new_purpose = some "MARKETING";
  new_data_types = some ("HEALTH_DATA" ∷ []);
  new_duration_days = some (pos 3000);
}

p1_known :
    lookup "p1" opened.principals
    ≡ some (record { wallet_address = "W"; email_hash = "mail"; phone_hash = none })
unfolding lookup insert step register_principal register_fiduciary by_wallet has_number has_wallet
    create_consent characters validate_consent_purpose validate_consent_duration has_sensitive is_in
    after_days revoke_consent
p1_known = refl

abbrev marketing : String
marketing = "MARKETING"

named : marketing ≢ ""
named e = let same = (==_iff marketing "").1 e in ground arith

short : characters marketing ≤ 50
unfolding characters
short = omega arith

no_event : is_in "e3" (map (λ x. x.id) opened.events) ≡ false
unfolding lookup insert step register_principal register_fiduciary by_wallet has_number has_wallet
    create_consent characters validate_consent_purpose validate_consent_duration has_sensitive is_in
    after_days
no_event = refl

no_log : is_in "e3" (map (λ a. a.id) opened.audits) ≡ false
unfolding lookup insert step register_principal register_fiduciary by_wallet has_number has_wallet
    create_consent characters validate_consent_purpose validate_consent_duration has_sensitive is_in
    after_days
no_log = refl

-- A purpose of 51 characters is refused by the database.
long_refused :
    create_consent
      (env 1000 "e1")
      (record request { purpose = "a purpose that the columns of the table do not hold" })
      founded
    ≡ err database_error
unfolding lookup insert step register_principal register_fiduciary by_wallet has_number has_wallet
    create_consent characters validate_consent_purpose validate_consent_duration has_sensitive is_in
    after_days
long_refused = refl

modify_ignores_rules_example :
    (db : Db) × (c : Consent) × (modify_consent (env 1500 "e3") "c1" changes opened ≡ ok (db, c))
    × (c.purpose ≡ "MARKETING")
    × (c.data_types ≡ "HEALTH_DATA" ∷ [])
    × (verify_consent 2000 "c1" db ≡ ok (db, valid c))
modify_ignores_rules_example =
    modify_ignores_rules (env 1500 "e3") "c1" "MARKETING" "HEALTH_DATA" [] 3000 2000 opened
      opened_has refl p1_known named short no_event no_log (omega arith) (omega arith) (omega arith)

abbrev everything : Filter
everything = record {
  principal_id = none;
  fiduciary_id = some "f1";
  status = some "GRANTED";
  purpose = none;
  from_date = none;
  to_date = none;
}

abbrev report : Report
report = record {
  fiduciary_id = "f1";
  period_start = 0;
  period_end = 5000;
  total_consents = 1;
  active_consents = 0;
  revoked_consents = 1;
  expired_consents = 0;
  sensitive_data_consents = 1;
  third_party_sharing_count = 0;
  audit_events = 2;
  compliance_score = 85;
}

reported : generate_compliance_report "f1" 0 5000 closed [] ≡ ok (report ∷ [], report)
unfolding lookup insert step register_principal register_fiduciary by_wallet has_number has_wallet
    create_consent characters validate_consent_purpose validate_consent_duration has_sensitive is_in
    after_days revoke_consent generate_compliance_report calculate_compliance_score
reported = refl

report_bounds_example :
    (report.active_consents + report.revoked_consents + report.expired_consents
      ≤ report.total_consents)
    × (70 ≤ report.compliance_score)
    × (report.compliance_score ≤ 100)
    × (latest_score "f1" (report ∷ []) ≡ some report.compliance_score)
report_bounds_example = report_bounds "f1" 0 5000 closed [] (report ∷ []) report reported

-- A digest that keeps its text, and the text of an event from its time.
abbrev id_hash : Text → Text
id_hash t = t

abbrev line : Event → Text
line e = e.created_at ∷ []

abbrev wanted : List String
wanted = "e1" ∷ "e2" ∷ []

abbrev second : Event
second = record {
  id = "e2";
  consent_id = "c1";
  event_type = consent_revoked;
  actor = "W";
  previous_status = some granted;
  new_status = revoked;
  tx_id = some "tx";
  created_at = 2000;
}

two_found : length (found wanted closed.events) ≡ 2 ^ 1
unfolding lookup insert step register_principal register_fiduciary by_wallet has_number has_wallet
    create_consent characters validate_consent_purpose validate_consent_duration has_sensitive is_in
    after_days revoke_consent found find_event
two_found = refl

second-found : get_elem? (found wanted closed.events) 1 ≡ some second
unfolding lookup insert step register_principal register_fiduciary by_wallet has_number has_wallet
    create_consent characters validate_consent_purpose validate_consent_duration has_sensitive is_in
    after_days revoke_consent found find_event
second-found = refl

root_proves_events_example :
    (r : Text) × (proof : List ProofStep) × (get_proof id_hash
        (map (leaf_of id_hash line) (found wanted closed.events))
        1
      ≡ ok proof)
    × (verify_proof id_hash (leaf_of id_hash line second) proof r ≡ true)
    × (generate_merkle_root id_hash line wanted (some "t") closed.events [] ≡ (
        if has_root r []
        then err integrity_error
        else ok (
          record {
            root_hash = r;
            event_count = 2 ^ 1;
            first_event_id = first_of wanted;
            last_event_id = last_of wanted;
            on_chain_tx_id = "t";
          }
              ∷ [],
          (r, "t"),
        )))
root_proves_events_example =
    root_proves_events id_hash line wanted "t" closed.events [] 1 1 two_found second-found
