-- ===== src/Rates.antt =====
-- The limits by tier, api/middleware/rate_limiting.py, `TieredRateLimiter`. Redis holds the tiers and
-- the counters; a counter may have a time at which it expires, and a key that expired counts as none.
-- Times are seconds. A limit "50/minute" is the pair of its parts.
pub mod Windows
mod Tests
use Prim.Native.String.{String}
use consentchain.Prelude.{
  ℕ, ◌+◌, ◌-◌, Bool, true, false, Option, none, some, List, [], ◌∷◌, ltb, leb, eqb, if◌then◌else◌,
  Dict, lookup, insert, ◌==◌, string_eq, list_eq, or_else, truthy,
}

abbrev pub Limit : Type 0
Limit = ℕ × String

abbrev pub tiers : Dict String (Dict String Limit)
tiers =
    (
      "free",
      ("consent_create", (50, "minute"))
          ∷ ("consent_verify", (100, "minute"))
          ∷ ("consent_query", (100, "minute"))
          ∷ [],
    )
    ∷ (
      "basic",
      ("consent_create", (200, "minute"))
          ∷ ("consent_verify", (500, "minute"))
          ∷ ("consent_query", (300, "minute"))
          ∷ [],
    )
    ∷ (
      "enterprise",
      ("consent_create", (1000, "minute"))
          ∷ ("consent_verify", (2000, "minute"))
          ∷ ("consent_query", (1000, "minute"))
          ∷ [],
    )
    ∷ []

-- `TIERS.get(tier, TIERS["free"])` and `.get(endpoint, "100/minute")`
unfoldable pub get_limit_for_endpoint : String → String → Limit
get_limit_for_endpoint tier endpoint =
    let free = or_else (lookup "free" tiers) [] in
    or_else (lookup endpoint (or_else (lookup tier tiers) free)) (100, "minute")

abbrev pub window_seconds : String → ℕ
window_seconds window =
    if window == "second"
    then 1
    else if window == "minute"
    then 60
    else if window == "hour"
    then 3600
    else if window == "day"
    then 86400
    else 60

-- A counter, and when it expires.
pub record Counter : Type 0 where
  pub value : ℕ
  pub expires : Option ℕ

pub record Store : Type 0 where
  pub tier_of : Dict String String
  pub counters : Dict (List String) Counter

unfoldable pub get_tier : String → Store → String
get_tier fiduciary_id s = or_else (truthy (lookup fiduciary_id s.tier_of)) "free"

unfoldable pub set_tier : String → String → Store → Store
set_tier fiduciary_id tier s = record s { tier_of = insert fiduciary_id tier s.tier_of }

-- The counter that is there at a time.
abbrev pub current : ℕ → Option Counter → Counter
current now none = record { value = 0; expires = none }
current now (some c) = elim c.expires [
  | none ↦ c
  | some t ↦ if leb t now then record { value = 0; expires = none } else c
]

-- INCRBY, and EXPIRE where the result is the cost itself.
abbrev pub count_up : ℕ → ℕ → ℕ → Counter → Counter
count_up now cost seconds c =
    let n = c.value + cost in
    record { value = n; expires = if eqb n cost then some (now + seconds) else c.expires }

pub record Answer : Type 0 where
  pub allowed : Bool
  pub limit : ℕ
  pub remaining : ℕ
  pub tier : String

unfoldable pub check_rate_limit : ℕ → String → String → ℕ → Store → Store × Answer
check_rate_limit now fiduciary_id endpoint cost s =
    let tier = get_tier fiduciary_id s in
    let limit = get_limit_for_endpoint tier endpoint in
    let key : List String = "ratelimit" ∷ fiduciary_id ∷ endpoint ∷ [] in
    let c = count_up now cost (window_seconds limit.1) (current now (lookup key s.counters)) in
    (
      record s { counters = insert key c s.counters },
      record {
        allowed = leb c.value limit.0;
        limit = limit.0;
        remaining = limit.0 - c.value;
        tier = tier;
      },
    )
