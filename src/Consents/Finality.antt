-- ===== src/Consents/Finality.antt =====
-- What stays once a consent is revoked.
use Prim.Native.String.{String}
use consentchain.Prelude.{
  ℕ, ◌≡◌, sym, ap, ◌∙◌, inl, inr, some, arith, lookup, lookup-insert, lookup-insert_self, ◌==◌,
  ==_iff, string_eq, Bool-cases, ok, err,
}
use consentchain.Consents.{
  revoked, expired, Consent, Db, Env, Changes, revoke_consent, modify_consent, verify_consent,
  already_revoked, cannot_modify_revoked, was_revoked, revoked_as,
}
use consentchain.Consents.Runs.{
  Steps, here, next, status_of, Effect, rests, moves, lapses, step-Effect, not_revoked, before_is,
}
use consentchain.Consents.Cases.{revoke_cases}

Effect-keeps :
    {db db' : Db} (id : String) (c : Consent)
    → Effect db db'
    → lookup id db.consents ≡ some c
    → c.status ≡ revoked
    → lookup id db'.consents ≡ some c
Effect-keeps id c (rests {db = db} ps fs) there st = there
Effect-keeps id c (moves {db = db} now k c' ty action actor before tx ref was m) there st =
    elim (Bool-cases (k == id)) [
      | inr other ↦ ground (arith, lookup-insert id k c' db.consents)
      | inl same ↦
          let now_revoked : before ≡ some revoked =
            sym was
            ∙ ap (λ x. status_of x db.consents) ((==_iff k id).0 same)
            ∙ before_is id db there
            ∙ ap some st in
          absurd (not_revoked m now_revoked)
    ]
Effect-keeps id c (lapses {db = db} k c' known live) there st = elim (Bool-cases (k == id)) [
  | inr other ↦ ground (arith, lookup-insert id k (record c' { status = expired }) db.consents)
  | inl same ↦
      let equal : c' ≡ c =
        let both : some c' ≡ some c =
          sym known ∙ ap (λ x. lookup x db.consents) ((==_iff k id).0 same) ∙ there in
        ground arith in
      absurd (ground arith)
]

Steps-keep :
    {db db' : Db} (id : String) (c : Consent)
    → Steps db db'
    → lookup id db.consents ≡ some c
    → c.status ≡ revoked
    → lookup id db'.consents ≡ some c
Steps-keep id c here there st = there
Steps-keep id c (next op s fresh) there st =
    Effect-keeps id c (step-Effect op _ fresh) (Steps-keep id c s there st) st

-- A revoked consent is refused everything.
refuses :
    (id : String) (c : Consent) (db : Db) (e : Env) (ch : Changes) (now t : ℕ)
    → lookup id db.consents ≡ some c
    → c.status ≡ revoked
    → c.revoked_at ≡ some t
    → (verify_consent now id db ≡ ok (db, was_revoked t))
      × (revoke_consent e id db ≡ err already_revoked)
      × (modify_consent e id ch db ≡ err cannot_modify_revoked)
unfolding verify_consent revoke_consent modify_consent
refuses id c db e ch now t there st at = (ground arith, ground arith, ground arith)

abbrev Leaves : Env → String → Db → Consent → Type 0
Leaves e id db c =
    (lookup id db.consents ≡ some c) × (c.status ≡ revoked) × (c.revoked_at ≡ some e.now)

revoke-Leaves :
    (e : Env) (id : String) (db db' : Db) (c : Consent)
    → revoke_consent e id db ≡ ok (db', c)
    → Leaves e id db' c
revoke-Leaves e id db db' c =
    revoke_cases (λ r. r ≡ ok (db', c) → Leaves e id db' c) e id db (λ x h. absurd (ground arith))
      λ old p tx there live known answered h.
        let c' = revoked_as e.now tx old in
        (ground (arith, lookup-insert_self id c' db.consents), ground arith, ground arith)

-- The revocation of a consent by the service is final: whatever calls come later, with fresh
-- identifiers, the row of the consent stays as the revocation left it, a check answers with the time
-- of the revocation, and another revocation and any modification are refused.
pub revocation_is_final :
    (e e' : Env) (id : String) (ch : Changes) (now : ℕ) (db db' db'' : Db) (c : Consent)
    → revoke_consent e id db ≡ ok (db', c)
    → Steps db' db''
    → (lookup id db''.consents ≡ some c)
      × (verify_consent now id db'' ≡ ok (db'', was_revoked e.now))
      × (revoke_consent e' id db'' ≡ err already_revoked)
      × (modify_consent e' id ch db'' ≡ err cannot_modify_revoked)
revocation_is_final e e' id ch now db db' db'' c done later =
    let (there, st, at) = revoke-Leaves e id db db' c done in
    let kept = Steps-keep id c later there st in
    let refused = refuses id c db'' e' ch now e.now kept st at in
    (kept, refused.0, refused.1, refused.2)
