-- ===== src/Csrf.antt =====
-- CSRF tokens, api/middleware/csrf.py. Redis is a parameter: what the client's two calls do to its
-- state, none being an exception. Tokens and readings of the clock, in seconds, are arguments.
pub mod Tokens
pub mod Bypass
mod Tests
use Prim.Native.String.{String, ◌++◌ as concat}
use text.Mathlib.Text.{starts_with}
use consentchain.Prelude.{
  ℕ, ◌+◌, ◌-◌, Bool, true, false, not, ◌&&◌, ◌||◌, Option, none, some, List, [], ◌∷◌, ◌++◌, ltb,
  if◌then◌else◌, Dict, lookup, insert, erase, ◌==◌, string_eq, Result, ok, err, is_in, truthy,
}

pub record Redis : Type 1 where
  pub State : Type 0
  pub setex : String → ℕ → String → State → Option State
  pub get : String → State → Option (Option String)

pub record Store (S : Type 0) : Type 0 where
  pub redis_client : Option S
  pub csrf_tokens : Dict String (String × ℕ)

abbrev pub csrf_token_expiry : ℕ
csrf_token_expiry = 3600

pub record Request : Type 0 where
  pub method : String
  pub path : String
  pub token_header : Option String
  pub session_header : Option String
  pub session_cookie : Option String

-- An or that takes the first text that is there.
abbrev pub or_text : Option String → Option String → Option String
or_text a b = elim (truthy a) [ none ↦ truthy b | some x ↦ some x ]

-- `get_session_id`; the drawn session is the one of a request that brings none.
abbrev pub session_of : String → Request → String
session_of drawn q = elim (or_text q.session_header q.session_cookie) [ none ↦ drawn | some x ↦ x ]

abbrev pub safe_methods : List String
safe_methods = "GET" ∷ "HEAD" ∷ "OPTIONS" ∷ []

-- The defaults of `CSRFProtection`, and the prefix that it names itself.
abbrev pub exempt_paths : List String
exempt_paths = "/health" ∷ "/docs" ∷ "/openapi.json" ∷ "/redoc" ∷ "/api/v1/public/" ∷ []

unfoldable pub is_exempt : String → List String → Bool
is_exempt path [] = false
is_exempt path (p ∷ ps) = starts_with path p || is_exempt path ps

-- The sessions whose token is too old.
unfoldable pub drop_expired : ℕ → Dict String (String × ℕ) → Dict String (String × ℕ)
drop_expired now [] = []
drop_expired now ((sid, (t, created)) ∷ d) =
    let rest = drop_expired now d in
    if ltb csrf_token_expiry (now - created) then rest else (sid, (t, created)) ∷ rest

pub data Error : Type 0 where
  token_missing invalid_token : Error

-- What the middleware answers: it lets the request through, or responds 403.
pub data Answer : Type 0 where
  call_next missing_403 invalid_403 : Answer

module _ (R : Redis) where
  -- `csrf_tokens[session_id] = (token, time.time())`
  unfoldable pub remember : ℕ → String → String → Store R.State → Store R.State
  remember now sid token s = record s { csrf_tokens = insert sid (token, now) s.csrf_tokens }

  unfoldable pub generate_csrf_token : ℕ → String → String → Store R.State → Store R.State
  generate_csrf_token now token sid s = elim s.redis_client [
    | none ↦ remember now sid token s
    | some r ↦ elim (R.setex (concat "csrf:" sid) csrf_token_expiry token r) [
      | none ↦ remember now sid token s
      | some r' ↦ record s { redis_client = some r' }
    ]
  ]

  -- The table of the process.
  unfoldable pub verify_in_memory : ℕ → String → String → Store R.State → Store R.State × Bool
  verify_in_memory now sid token s = elim (lookup sid s.csrf_tokens) [
    | none ↦ (s, false)
    | some stored ↦
        if ltb csrf_token_expiry (now - stored.1)
        then (record s { csrf_tokens = erase sid s.csrf_tokens }, false)
        else (s, stored.0 == token)
  ]

  -- Redis decides where it answers; the table decides where there is no client or it raises.
  unfoldable pub verify_csrf_token : ℕ → String → String → Store R.State → Store R.State × Bool
  verify_csrf_token now sid token s = elim s.redis_client [
    | none ↦ verify_in_memory now sid token s
    | some r ↦ elim (R.get (concat "csrf:" sid) r) [
      | none ↦ verify_in_memory now sid token s
      | some stored ↦ elim (truthy stored) [ none ↦ (s, false) | some t ↦ (s, t == token) ]
    ]
  ]

  pub cleanup_expired_tokens : ℕ → Store R.State → Store R.State
  cleanup_expired_tokens now s = elim s.redis_client [
    | some r ↦ s
    | none ↦ record s { csrf_tokens = drop_expired now s.csrf_tokens }
  ]

  -- The value of a call of `verify_csrf_token` that is not awaited is a coroutine: the body does not
  -- run, and under `not` it counts as true.
  unfoldable pub verify_not_awaited : ℕ → String → String → Store R.State → Store R.State × Bool
  verify_not_awaited now sid token s = (s, true)

  -- `verify_csrf`
  unfoldable pub verify_csrf :
      ℕ → String → Request → Store R.State → Store R.State × Result Error Bool
  verify_csrf now drawn q s =
      let sid = session_of drawn q in
      if is_in q.method safe_methods then (s, ok true) else elim (truthy q.token_header) [
        | none ↦ (s, err token_missing)
        | some token ↦
            let checked = verify_not_awaited now sid token s in
            if not checked.1 then (checked.0, err invalid_token) else (checked.0, ok true)
      ]

  -- `CSRFProtection.__call__` with the default exemptions.
  unfoldable pub protect : Bool → ℕ → Request → Store R.State → Store R.State × Answer
  protect testing now q s =
      if is_in q.method safe_methods || is_exempt q.path exempt_paths
      then (s, call_next)
      else elim (truthy q.token_header) [
        | none ↦ (s, if testing then call_next else missing_403)
        | some token ↦ elim (or_text q.session_header q.session_cookie) [
          | none ↦ (s, if testing then call_next else missing_403)
          | some sid ↦
              let checked = verify_not_awaited now sid token s in
              if not checked.1
              then (checked.0, if testing then call_next else invalid_403)
              else (checked.0, call_next)
        ]
      ]
