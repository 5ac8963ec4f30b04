-- ===== src/Rates/Windows.antt =====
-- What a fiduciary is allowed in one window.
use Prim.Native.String.{String}
use consentchain.Prelude.{
  ℕ, suc, ◌+◌, ◌≡◌, ◌<◌, refl, ap, sym, or_else, truthy, ◌∙◌, Bool, false, none, some, List, [],
  ◌∷◌, arith, leb, eqb, lookup, lookup-insert_self, string_eq, list_eq,
}
use consentchain.Rates.{
  Store, get_tier, get_limit_for_endpoint, current, count_up, window_seconds, check_rate_limit,
}

abbrev pub key_of : String → String → List String
key_of fiduciary_id endpoint = "ratelimit" ∷ fiduciary_id ∷ endpoint ∷ []

-- The answers to requests of cost 1 at some times, one after another.
unfoldable pub answers : String → String → List ℕ → Store → List Bool
answers fid endpoint [] s = []
answers fid endpoint (t ∷ ts) s =
    let (s', a) = check_rate_limit t fid endpoint 1 s in a.allowed ∷ answers fid endpoint ts s'

-- The requests that are let through: as long as the count is within the limit.
abbrev pub first_of : ℕ → ℕ → List ℕ → List Bool
first_of limit before [] = []
first_of limit before (t ∷ ts) = leb (before + 1) limit ∷ first_of limit (before + 1) ts

-- Each time is before the end of the window.
abbrev pub Before : ℕ → List ℕ → Type 0
Before end [] = Unit {0}
Before end (t ∷ ts) = (t < end) × Before end ts

abbrev pub limit_of : String → String → Store → ℕ
limit_of fid endpoint s = (get_limit_for_endpoint (get_tier fid s) endpoint).0

abbrev pub window_of : String → String → Store → ℕ
window_of fid endpoint s = window_seconds (get_limit_for_endpoint (get_tier fid s) endpoint).1

check_counts :
    (t n end : ℕ) (fid endpoint : String) (s : Store)
    → lookup (key_of fid endpoint) s.counters ≡ some (record { value = suc n; expires = some end })
    → t < end
    → let (s', a) = check_rate_limit t fid endpoint 1 s in
      (a.allowed ≡ leb (suc n + 1) (limit_of fid endpoint s))
      × (lookup (key_of fid endpoint) s'.counters
          ≡ some (record { value = suc n + 1; expires = some end }))
      × (s'.tier_of ≡ s.tier_of)
unfolding check_rate_limit
check_counts t n end fid endpoint s there early =
    let limit = get_limit_for_endpoint (get_tier fid s) endpoint in
    let open_window : leb end t ≡ false = ground arith in
    let later : eqb (suc n + 1) 1 ≡ false = ground arith in
    let counted : count_up t 1 (window_seconds limit.1)
          (current t (lookup (key_of fid endpoint) s.counters))
        ≡ record { value = suc n + 1; expires = some end } =
      rw (there, open_window, later) refl in
    (
      ap (λ c. leb c.value limit.0) counted,
      lookup-insert_self (key_of fid endpoint) _ s.counters ∙ ap some counted,
      refl,
    )

check_starts :
    (t : ℕ) (fid endpoint : String) (s : Store)
    → current t (lookup (key_of fid endpoint) s.counters) ≡ record { value = 0; expires = none }
    → let (s', a) = check_rate_limit t fid endpoint 1 s in
      (a.allowed ≡ leb 1 (limit_of fid endpoint s))
      × (lookup (key_of fid endpoint) s'.counters
          ≡ some (record { value = 1; expires = some (t + window_of fid endpoint s) }))
      × (s'.tier_of ≡ s.tier_of)
unfolding check_rate_limit
check_starts t fid endpoint s fresh =
    let limit = get_limit_for_endpoint (get_tier fid s) endpoint in
    let counted : count_up t 1 (window_seconds limit.1)
          (current t (lookup (key_of fid endpoint) s.counters))
        ≡ record { value = 1; expires = some (t + window_seconds limit.1) } =
      rw fresh refl in
    (
      ap (λ c. leb c.value limit.0) counted,
      lookup-insert_self (key_of fid endpoint) _ s.counters ∙ ap some counted,
      refl,
    )

same_limit :
    (fid endpoint : String) (s s' : Store)
    → s.tier_of ≡ s'.tier_of
    → limit_of fid endpoint s ≡ limit_of fid endpoint s'
unfolding get_tier
same_limit fid endpoint s s' same =
    ap (λ d. (get_limit_for_endpoint (or_else (truthy (lookup fid d)) "free") endpoint).0) same

answers_from :
    (ts : List ℕ) (n end : ℕ) (fid endpoint : String) (s : Store)
    → lookup (key_of fid endpoint) s.counters ≡ some (record { value = suc n; expires = some end })
    → Before end ts
    → answers fid endpoint ts s ≡ first_of (limit_of fid endpoint s) (suc n) ts
unfolding answers
answers_from [] n end fid endpoint s there early = refl
answers_from (t ∷ ts) n end fid endpoint s there early =
    let s' = (check_rate_limit t fid endpoint 1 s).0 in
    let (answer, counted, same) = check_counts t n end fid endpoint s there early.0 in
    let one_more : suc n + 1 ≡ suc (n + 1) = omega arith in
    let counted' : lookup (key_of fid endpoint) s'.counters
        ≡ some (record { value = suc (n + 1); expires = some end }) =
      counted ∙ ap (λ k. some (record { value = k; expires = some end })) one_more in
    let rest = answers_from ts (n + 1) end fid endpoint s' counted' early.1 in
    let limit = limit_of fid endpoint s in
    let rest' : answers fid endpoint ts s' ≡ first_of limit (suc n + 1) ts =
      rest
      ∙ ap (λ l. first_of l (suc (n + 1)) ts) (same_limit fid endpoint s' s same)
      ∙ ap (λ k. first_of limit k ts) (sym one_more) in
    ap (λ b. b ∷ answers fid endpoint ts s') answer ∙ ap (λ bs. leb (suc n + 1) limit ∷ bs) rest'

-- In a window that begins with a request, the requests of cost 1 of a fiduciary to an endpoint are
-- allowed up to the limit of its tier, and those above it are not, as long as no other call comes
-- between; the window ends its seconds after the first request.
pub window_allows_limit :
    (t : ℕ) (ts : List ℕ) (fid endpoint : String) (s : Store)
    → current t (lookup (key_of fid endpoint) s.counters) ≡ record { value = 0; expires = none }
    → Before (t + window_of fid endpoint s) ts
    → answers fid endpoint (t ∷ ts) s ≡ first_of (limit_of fid endpoint s) 0 (t ∷ ts)
unfolding answers
window_allows_limit t ts fid endpoint s fresh early =
    let s' = (check_rate_limit t fid endpoint 1 s).0 in
    let (answer, counted, same) = check_starts t fid endpoint s fresh in
    let limit = limit_of fid endpoint s in
    let rest : answers fid endpoint ts s' ≡ first_of limit 1 ts =
      answers_from ts 0 (t + window_of fid endpoint s) fid endpoint s' counted early
      ∙ ap (λ l. first_of l 1 ts) (same_limit fid endpoint s' s same) in
    ap (λ b. b ∷ answers fid endpoint ts s') answer ∙ ap (λ bs. leb 1 limit ∷ bs) rest
