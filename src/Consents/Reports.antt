-- ===== src/Consents/Reports.antt =====
-- Compliance reports, api/services.py, `ComplianceService`. The score is computed there with floating
-- point; what it compares and rounds are fractions of small numbers, for which that is exact.
use Prim.Native.String.{String}
use consentchain.Prelude.{
  ℕ, ◌+◌, ◌-◌, ◌*◌, ◌/◌, Bool, true, false, ◌&&◌, Option, none, some, List, [], ◌∷◌, ltb, leb, eqb,
  if◌then◌else◌, ◌==◌, string_eq, contains, length, keep, Result, ok, err,
}
use consentchain.Dpdp.{has_sensitive}
use consentchain.Consents.{Status, granted, revoked, expired, Consent, Db, Error, integrity_error}

abbrev pub min : ℕ → ℕ → ℕ
min a b = if leb a b then a else b

-- `min(20, int(revoked / total * 50))`, where more than three tenths were revoked.
abbrev pub revoked_penalty : ℕ → ℕ → ℕ
revoked_penalty total revocations =
    if ltb (3 * total) (10 * revocations) then min 20 (50 * revocations / total) else 0

-- The score is at least 70 before the bonus, so that `max(0, ...)` and subtraction on ℕ change
-- nothing.
unfoldable pub calculate_compliance_score : ℕ → ℕ → ℕ → ℕ → ℕ
calculate_compliance_score total revocations sensitive_count audit_count =
    if eqb total 0
    then 100
    else min 100 (
        100
        - revoked_penalty total revocations
        - (if ltb (2 * audit_count) total then 10 else 0)
        + (if ltb 0 sensitive_count then 5 else 0))

pub record Report : Type 0 where
  pub fiduciary_id : String
  pub period_start : ℕ
  pub period_end : ℕ
  pub total_consents : ℕ
  pub active_consents : ℕ
  pub revoked_consents : ℕ
  pub expired_consents : ℕ
  pub sensitive_data_consents : ℕ
  pub third_party_sharing_count : ℕ
  pub audit_events : ℕ
  pub compliance_score : ℕ

abbrev pub is_active : Status → Bool
is_active granted = true
is_active s = false

abbrev pub is_expired : Status → Bool
is_expired expired = true
is_expired s = false

abbrev pub is_withdrawn : Status → Bool
is_withdrawn revoked = true
is_withdrawn s = false

abbrev pub is_between : ℕ → ℕ → ℕ → Bool
is_between start end t = leb start t && leb t end

abbrev pub is_of_period : String → ℕ → ℕ → String × Consent → Bool
is_of_period fid start end row = row.1.fiduciary_id == fid && is_between start end row.1.created_at

abbrev pub count : (Consent → Bool) → List (String × Consent) → ℕ
count p rows = length (keep (λ row. p row.1) rows)

abbrev pub report_of : String → ℕ → ℕ → List (String × Consent) → ℕ → Report
report_of fid start end rows audit_count =
    let total = length rows in
    let withdrawn = count (λ c. is_withdrawn c.status) rows in
    let sensitive = count (λ c. has_sensitive c.data_types) rows in
    record {
      fiduciary_id = fid;
      period_start = start;
      period_end = end;
      total_consents = total;
      active_consents = count (λ c. is_active c.status) rows;
      revoked_consents = withdrawn;
      expired_consents = count (λ c. is_expired c.status) rows;
      sensitive_data_consents = sensitive;
      third_party_sharing_count = count (λ c. c.purpose == "THIRD_PARTY_SHARING") rows;
      audit_events = audit_count;
      compliance_score = calculate_compliance_score total withdrawn sensitive audit_count;
    }

-- The report goes before the earlier ones; its fiduciary has to be in the table.
unfoldable pub generate_compliance_report :
    String → ℕ → ℕ → Db → List Report → Result Error (List Report × Report)
generate_compliance_report fid start end db reports =
    let rows = keep (is_of_period fid start end) db.consents in
    let logs = keep (λ a. a.fiduciary_id == fid && is_between start end a.created_at) db.audits in
    let report = report_of fid start end rows (length logs) in
    if contains fid db.fiduciaries then ok (report ∷ reports, report) else err integrity_error

-- The score in `get_fiduciary_compliance_status`, of the latest report.
unfoldable pub latest_score : String → List Report → Option ℕ
latest_score fid [] = none
latest_score fid (r ∷ rs) =
    if r.fiduciary_id == fid then some r.compliance_score else latest_score fid rs
