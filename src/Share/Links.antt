-- ===== src/Share/Links.antt =====
-- A shared link leads to its configuration.
use socket_tester.Base.{
  timer_delay, ◌<◌, ◌⊎◌, ℕ, suc, zero, ◌≤◌, ◌+◌, ◌≢◌, ◌≡◌, refl, ◌∙◌, ap, none, some, List, [], ◌∷◌,
  true, not, ◌||◌, ◌==◌, Text, All, filter, take, lit, ◌++◌, arith,
}
use socket_tester.Json.{Fields}
use socket_tester.Share.{ShareState, token_of, create_share, get_share, run_timers, sanitize}
use socket_tester.Share.Lifetime.{Event, IsBefore, run, create_share_lifetime}
use socket_tester.Share.Routes.{post_config, is_hex, sanitize_token, found, not_found, get_token}

-- The units of a UUID: hexadecimal digits and dashes.
abbrev pub IsUuid : Text → Type 0
IsUuid = All (λ c. (is_hex c || c == 45) ≡ true)

abbrev IsHex : Text → Type 0
IsHex = All (λ c. is_hex c ≡ true)

without_dashes-IsHex : (s : Text) → IsUuid s → IsHex (filter (λ c. not (c == 45)) s)
without_dashes-IsHex [] h = tt
without_dashes-IsHex (c ∷ s) (p, h) = ground (arith, without_dashes-IsHex s h)

take-IsHex : (n : ℕ) (s : Text) → IsHex s → IsHex (take n s)
take-IsHex zero s h = tt
take-IsHex (suc n) [] h = tt
take-IsHex (suc n) (c ∷ s) (p, h) = (p, take-IsHex n s h)

filter-IsHex : (s : Text) → IsHex s → filter is_hex s ≡ s
filter-IsHex [] h = refl
filter-IsHex (c ∷ s) (p, h) = ground (arith, filter-IsHex s h)

take-take : (m n : ℕ) (s : Text) → n ≤ m → take m (take n s) ≡ take n s
take-take zero zero s h = refl
take-take zero (suc n) s h = ground arith
take-take (suc m) zero s h = refl
take-take (suc m) (suc n) [] h = refl
take-take (suc m) (suc n) (c ∷ s) h = ap (λ xs. c ∷ xs) (take-take m n s (omega arith))

sanitize_token-token_of :
    (uuid : Text) → IsUuid uuid → sanitize_token (token_of uuid) ≡ token_of uuid
unfolding sanitize_token token_of
sanitize_token-token_of uuid h =
    let hex = filter (λ c. not (c == 45)) uuid in
    ap (take 32) (filter-IsHex (take 12 hex) (take-IsHex 12 hex (without_dashes-IsHex uuid h)))
    ∙ take-take 32 12 hex (omega arith)

-- The answer of the route is that of the service, as the token stays whole.
get_token-token_of :
    (uuid : Text) (st : ShareState)
    → IsUuid uuid
    → get_token (token_of uuid) st
      ≡ elim (get_share (token_of uuid) st) [ none ↦ not_found | some c ↦ found c ]
unfolding get_token
get_token-token_of uuid st h = rw (get_token, sanitize_token-token_of uuid h) refl

-- The delay of a timer for a lifetime.
abbrev pub IsDelay : ℕ → ℕ → Type 0
IsDelay ttl delay =
    (1 ≤ ttl) × (ttl ≤ 2147483647) × (delay ≡ ttl) ⊎ ((ttl < 1) ⊎ (2147483647 < ttl)) × (delay ≡ 1)

timer_delay-IsDelay : (ttl : ℕ) → IsDelay ttl (timer_delay ttl)
unfolding timer_delay
timer_delay-IsDelay ttl = ground arith

-- A link made from a fresh UUID answers with the sanitized configuration, through every later event
-- before its timer is due, and is not found once the runtime has run the timers then or later. The
-- timer is due at the expiry that the answer names if the lifetime is from 1 to 2147483647
-- milliseconds; the runtime runs a longer one after a millisecond.
pub post_config_lifetime :
    (ttl : ℕ) (uuid : Text) (config : Fields) (now late : ℕ) (st : ShareState) (es : List Event)
    → IsUuid uuid
    → All (λ x. x.token ≢ token_of uuid) st.expiries
    → All (IsBefore (token_of uuid) (now + timer_delay ttl)) es
    → now + timer_delay ttl ≤ late
    → let r = post_config ttl uuid config now st in
      let later = run ttl r.0 es in
      (r.1.share_url ≡ lit "/share/" ++ token_of uuid)
      × (r.1.shared.expires_at ≡ now + ttl)
      × IsDelay ttl (timer_delay ttl)
      × (get_token r.1.shared.token later ≡ found (sanitize config))
      × (get_token r.1.shared.token (run_timers late later) ≡ not_found)
unfolding post_config create_share
post_config_lifetime ttl uuid config now late st es u fresh before h =
    let v = create_share_lifetime ttl uuid config now late st es fresh before h in
    let later = run ttl (create_share ttl uuid config now st).0 es in
    (
      refl,
      refl,
      timer_delay-IsDelay ttl,
      get_token-token_of uuid later u ∙ rw v.0 refl,
      get_token-token_of uuid (run_timers late later) u ∙ rw v.1 refl,
    )
