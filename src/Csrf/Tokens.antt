-- ===== src/Csrf/Tokens.antt =====
-- Tokens in the table of the process.
use Prim.Native.String.{String}
use consentchain.Prelude.{
  ℕ, ◌+◌, ◌≤◌, ◌<◌, ◌≡◌, ◌≢◌, false, none, arith, lookup-insert, lookup-insert_self, ◌==◌, ==_iff,
  string_eq,
}
use consentchain.Csrf.{
  Redis, Store, remember, generate_csrf_token, verify_in_memory, verify_csrf_token,
}

-- Without Redis: from the time that a session is given a token until its expiry, exactly that token
-- is accepted for the session; afterwards none is. Other sessions are not affected.
pub token_accepted_until_expiry :
    (R : Redis) (now later : ℕ) (token sent sid other : String) (s : Store R.State)
    → s.redis_client ≡ none
    → now ≤ later
    → sid ≢ other
    → let s' = generate_csrf_token R now token sid s in
      (later ≤ now + 3600 → (verify_csrf_token R later sid sent s').1 ≡ (token == sent))
      × (now + 3600 < later → (verify_csrf_token R later sid sent s').1 ≡ false)
      × ((verify_csrf_token R later other sent s').1 ≡ (verify_csrf_token R later other sent s).1)
unfolding generate_csrf_token verify_csrf_token verify_in_memory remember
token_accepted_until_expiry R now later token sent sid o s alone since ne =
    let here = lookup-insert_self sid (token, now) s.csrf_tokens in
    let there = lookup-insert o sid (token, now) s.csrf_tokens in
    (
      λ fresh. ground (arith, here, alone),
      λ old. ground (arith, here, alone),
      ground (arith, there, alone, ==_iff sid o),
    )
