-- ===== src/Consents/Scores.antt =====
-- What a compliance report can say.
use Prim.Native.String.{String}
use consentchain.Prelude.{
  ℕ, suc, ◌+◌, ◌≡◌, ◌≤◌, refl, true, false, some, List, [], ◌∷◌, arith, ok, length, Bool-cases, inl,
  inr, contains, ==-self, ◌==◌, ◌&&◌, keep, subst, string_eq, Bool,
}
use consentchain.Consents.{Status, modified, pending, Consent, Db}
use consentchain.Consents.Reports.{
  revoked_penalty, calculate_compliance_score, Report, is_active, is_expired, is_withdrawn, count,
  report_of, generate_compliance_report, latest_score, is_of_period, is_between,
}

penalty_bound : (total revocations : ℕ) → revoked_penalty total revocations ≤ 20
penalty_bound total revocations = ground arith

score_bounds :
    (total revocations sensitive audits : ℕ)
    → (70 ≤ calculate_compliance_score total revocations sensitive audits)
      × (calculate_compliance_score total revocations sensitive audits ≤ 100)
      × (calculate_compliance_score total revocations 0 audits
          ≤ calculate_compliance_score total revocations sensitive audits)
unfolding calculate_compliance_score
score_bounds total revocations sensitive audits =
    let low = penalty_bound total revocations in
    (ground (arith, low), ground (arith, low), ground (arith, low))

-- Modified, and pending.
abbrev is_other : Status → Bool
is_other modified = true
is_other pending = true
is_other s = false

one_status :
    (s : Status) (rows : List (String × Consent)) (row : String × Consent)
    → row.1.status ≡ s
    → count (λ c. is_active c.status) rows
        + count (λ c. is_withdrawn c.status) rows
        + count (λ c. is_expired c.status) rows
        + count (λ c. is_other c.status) rows
      ≡ length rows
    → count (λ c. is_active c.status) (row ∷ rows)
        + count (λ c. is_withdrawn c.status) (row ∷ rows)
        + count (λ c. is_expired c.status) (row ∷ rows)
        + count (λ c. is_other c.status) (row ∷ rows)
      ≡ suc (length rows)
one_status s rows row e ih = ground arith

by_status :
    (rows : List (String × Consent))
    → count (λ c. is_active c.status) rows
        + count (λ c. is_withdrawn c.status) rows
        + count (λ c. is_expired c.status) rows
        + count (λ c. is_other c.status) rows
      ≡ length rows
by_status [] = refl
by_status (row ∷ rows) = one_status row.1.status rows row refl (by_status rows)

report_holds :
    (fid : String) (start end audits : ℕ) (rows : List (String × Consent))
    → let r = report_of fid start end rows audits in
      (r.active_consents + r.revoked_consents + r.expired_consents ≤ r.total_consents)
      × (70 ≤ r.compliance_score)
      × (r.compliance_score ≤ 100)
report_holds fid start end audits rows =
    let r = report_of fid start end rows audits in
    let bounds =
      score_bounds r.total_consents r.revoked_consents r.sensitive_data_consents audits in
    (omega (arith, by_status rows), bounds.0, bounds.1)

-- A report that is made counts no consent as two of active, revoked and expired, has a score from 70
-- to 100, whatever was revoked and however little was logged, and is the one whose score the status
-- of the fiduciary then shows.
pub report_bounds :
    (fid : String) (start end : ℕ) (db : Db) (reports reports' : List Report) (r : Report)
    → generate_compliance_report fid start end db reports ≡ ok (reports', r)
    → (r.active_consents + r.revoked_consents + r.expired_consents ≤ r.total_consents)
      × (70 ≤ r.compliance_score)
      × (r.compliance_score ≤ 100)
      × (latest_score fid reports' ≡ some r.compliance_score)
unfolding generate_compliance_report latest_score
report_bounds fid start end db reports reports' r done =
    elim (Bool-cases (contains fid db.fiduciaries)) [
      | inr e ↦ absurd (ground arith)
      | inl e ↦
          let rows = keep (is_of_period fid start end) db.consents in
          let logs =
            keep (λ a. a.fiduciary_id == fid && is_between start end a.created_at) db.audits in
          let made = report_of fid start end rows (length logs) in
          let h = report_holds fid start end (length logs) rows in
          let same : made ≡ r = ground arith in
          let kept : reports' ≡ made ∷ reports = ground arith in
          let shown : latest_score fid reports' ≡ some made.compliance_score =
            rw (kept, ==-self fid) refl in
          subst
            (λ x.
              (x.active_consents + x.revoked_consents + x.expired_consents ≤ x.total_consents)
              × (70 ≤ x.compliance_score)
              × (x.compliance_score ≤ 100)
              × (latest_score fid reports' ≡ some x.compliance_score))
            same (h.0, h.1, h.2, shown)
    ]
