-- ===== src/Share.antt =====
-- src/share/share.service.ts: shared configurations, kept without credentials until they expire.
pub mod Sanitize
pub mod Lifetime
pub mod Routes
pub mod Links
use mathlib.Core.Option
use socket_tester.Base.{
  decimal, timer_delay, ℕ, suc, zero, ◌+◌, ◌*◌, ◌%◌, ◌/◌, Bool, true, false, not, Option, none,
  some, List, [], ◌∷◌, ◌++◌, filter, take, Text, lit, Map, lookup, insert, delete, if◌then◌else◌,
  ◌==◌, leb, default, truthy,
}
use socket_tester.Json.{
  Value, null, bool, num, str, arr, obj, Items, nil, cons, Fields, end, field, get_field,
  delete_field, set_field,
}

indexed : ℕ → Items → Fields
indexed i nil = end
indexed i (cons v vs) = field (decimal i) v (indexed (i + 1) vs)

-- `{ ...v }` where `typeof v === 'object' && v !== null`, which holds of arrays too.
pub spread : Value → Option Fields
unfolding indexed
spread (obj fs) = some fs
spread (arr vs) = some (indexed 0 vs)
spread v = none

pub without_auth_secrets : Fields → Fields
without_auth_secrets auth =
    delete_field (lit "apiKeyValue")
      (delete_field (lit "password") (delete_field (lit "token") auth))

-- `if (inner.auth && typeof inner.auth === 'object')`: objects and arrays are truthy.
pub sanitize_auth : Fields → Fields
unfolding spread without_auth_secrets
sanitize_auth inner = elim (Option.bind (get_field (lit "auth") inner) spread) [
  | none ↦ inner
  | some auth ↦ set_field (lit "auth") (obj (without_auth_secrets auth)) inner
]

pub sanitize_inner : Fields → Fields
unfolding sanitize_auth
sanitize_inner inner =
    sanitize_auth (delete_field (lit "apiKeyValue") (delete_field (lit "password") inner))

pub sanitize : Fields → Fields
unfolding spread sanitize_inner
sanitize config = elim (Option.bind (get_field (lit "config") config) spread) [
  | none ↦ config
  | some inner ↦ set_field (lit "config") (obj (sanitize_inner inner)) config
]

pub record ShareEntry : Type 0 where
  pub config : Fields
  pub created_at : ℕ

-- A pending `setTimeout` that deletes its token.
pub record Expiry : Type 0 where
  pub token : Text
  pub due : ℕ

pub record ShareState : Type 0 where
  pub shares : Map ShareEntry
  -- the runtime's timers
  pub expiries : List Expiry

-- `uuidv4().replace(/-/g, '').slice(0, 12)`, of the UUID that the library made.
unfoldable pub token_of : Text → Text
token_of uuid = take 12 (filter (λ c. not (c == 45)) uuid)

-- `TTL_MS`, of the variable SHARE_CONFIG_TTL_SECONDS as a number.
abbrev ttl_ms : Option ℕ → ℕ
ttl_ms seconds = default 604800 seconds * 1000

pub record Shared : Type 0 where
  pub token : Text
  pub expires_at : ℕ

pub create_share : ℕ → Text → Fields → ℕ → ShareState → ShareState × Shared
create_share ttl uuid config now st =
    let token = token_of uuid in
    (
      record {
        shares = insert token (record { config = sanitize config; created_at = now }) st.shares;
        expiries = st.expiries ++ record { token = token; due = now + timer_delay ttl } ∷ [];
      },
      record { token = token; expires_at = now + ttl },
    )

pub get_share : Text → ShareState → Option Fields
get_share token st = Option.map (λ e. e.config) (lookup token st.shares)

pub drop_expired : ℕ → List Expiry → Map ShareEntry → Map ShareEntry
drop_expired now [] shares = shares
drop_expired now (x ∷ xs) shares =
    drop_expired now xs (if leb x.due now then delete x.token shares else shares)

-- The runtime at time `now` runs the callbacks that are due.
pub run_timers : ℕ → ShareState → ShareState
unfolding drop_expired
run_timers now st = record {
  shares = drop_expired now st.expiries st.shares;
  expiries = filter (λ x. not (leb x.due now)) st.expiries;
}
