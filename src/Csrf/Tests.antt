-- ===== src/Csrf/Tests.antt =====
-- The guards on requests, with a Redis that always raises.
use Prim.Native.String.{String}
use consentchain.Prelude.{
  ℕ, ◌+◌, ◌≤◌, ◌<◌, ◌≡◌, ◌≢◌, refl, false, none, [], arith, ◌==◌, ==_iff, string_eq,
}
use consentchain.Csrf.{Redis, Store, generate_csrf_token, verify_csrf_token}
use consentchain.Csrf.Tokens.{token_accepted_until_expiry}

abbrev down : Redis
down = record { State = ℕ; setex = λ k ttl t r. none; get = λ k r. none }

abbrev token : String
token = "token"

abbrev store : Store ℕ
store = record { redis_client = none; csrf_tokens = [] }

differ : (x y : String) → (x == y) ≡ false → x ≢ y
differ x y h e = ground (arith, ==_iff x y)

token_accepted_until_expiry_example :
    let s' = generate_csrf_token down 10 "token" "s1" store in
    (500 ≤ 10 + 3600 → (verify_csrf_token down 500 "s1" "token" s').1 ≡ (token == token))
    × (10 + 3600 < 500 → (verify_csrf_token down 500 "s1" "token" s').1 ≡ false)
    × ((verify_csrf_token down 500 "s2" "token" s').1
        ≡ (verify_csrf_token down 500 "s2" "token" store).1)
token_accepted_until_expiry_example =
    token_accepted_until_expiry down 10 500 "token" "token" "s1" "s2" store refl (omega arith)
      (differ "s1" "s2" refl)
