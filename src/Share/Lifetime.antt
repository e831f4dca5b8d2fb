-- ===== src/Share/Lifetime.antt =====
-- How long a share can be read.
use mathlib.Core.Option
use socket_tester.Base.{
  ℕ, timer_delay, ◌+◌, ◌≡◌, ◌≢◌, ◌⊎◌, ◌≤◌, ◌<◌, refl, inl, inr, ◌∙◌, ap, some, none, List, [], ◌∷◌,
  ◌++◌, Bool, true, not, ◌&&◌, Text, text_eq, text_eq_iff, lookup, delete, lookup-insert,
  lookup-insert_self, lookup-delete, All, All-append, filter, filter-All, any, Map, if◌then◌else◌,
  arith, leb, ◌==◌,
}
use socket_tester.Json.{Fields}
use socket_tester.Share.{
  Expiry, ShareEntry, ShareState, token_of, create_share, get_share, drop_expired, run_timers,
  sanitize,
}

-- What happens later: other shares are made, and the runtime runs the timers at some time.
pub data Event : Type 0 where
  shares : Text → Fields → ℕ → Event
  passes : ℕ → Event

unfoldable pub step : ℕ → ShareState → Event → ShareState
step ttl st (shares uuid config now) = (create_share ttl uuid config now st).0
step ttl st (passes now) = run_timers now st

unfoldable pub run : ℕ → ShareState → List Event → ShareState
run ttl st [] = st
run ttl st (e ∷ es) = run ttl (step ttl st e) es

-- Before `due`, and under other tokens.
abbrev pub IsBefore : Text → ℕ → Event → Type 0
IsBefore token due (shares uuid config now) = token_of uuid ≢ token
IsBefore token due (passes now) = now < due

abbrev Later : Text → ℕ → List Expiry → Type 0
Later token due = All (λ x. (x.token ≢ token) ⊎ (due ≤ x.due))

lookup-drop_expired :
    (token : Text) (due now : ℕ) (xs : List Expiry) (m : Map ShareEntry)
    → now < due
    → Later token due xs
    → lookup token (drop_expired now xs m) ≡ lookup token m
unfolding drop_expired
lookup-drop_expired token due now [] m h l = refl
lookup-drop_expired token due now (x ∷ xs) m h (p, l) = ground (
  arith,
  lookup-drop_expired token due now xs (if leb x.due now then delete x.token m else m) h l,
  lookup-delete x.token token m,
  text_eq_iff x.token token,
)

drop_expired_absent :
    (token : Text) (now : ℕ) (xs : List Expiry) (m : Map ShareEntry)
    → lookup token m ≡ none
    → lookup token (drop_expired now xs m) ≡ none
unfolding drop_expired
drop_expired_absent token now [] m h = h
drop_expired_absent token now (x ∷ xs) m h = ground (
  arith,
  drop_expired_absent token now xs (if leb x.due now then delete x.token m else m),
  lookup-delete x.token token m,
)

-- The timer of the share is pending.
abbrev is_timer : Text → ℕ → Expiry → Bool
is_timer token due x = text_eq x.token token && x.due == due

drop_expired_due :
    (token : Text) (due now : ℕ) (xs : List Expiry) (m : Map ShareEntry)
    → due ≤ now
    → any (is_timer token due) xs ≡ true
    → lookup token (drop_expired now xs m) ≡ none
unfolding drop_expired
drop_expired_due token due now [] m h k = cc
drop_expired_due token due now (x ∷ xs) m h k = ground (
  arith,
  drop_expired_due token due now xs (if leb x.due now then delete x.token m else m) h,
  drop_expired_absent token now xs (delete x.token m),
  lookup-delete x.token token m,
  text_eq_iff x.token token,
)

any-filter :
    (token : Text) (due now : ℕ) (xs : List Expiry)
    → now < due
    → any (is_timer token due) xs ≡ true
    → any (is_timer token due) (filter (λ x. not (leb x.due now)) xs) ≡ true
any-filter token due now [] h k = k
any-filter token due now (x ∷ xs) h k = ground (arith, any-filter token due now xs h)

any-append_left :
    (p : Expiry → Bool) (xs ys : List Expiry) → any p xs ≡ true → any p (xs ++ ys) ≡ true
any-append_left p [] ys h = cc
any-append_left p (x ∷ xs) ys h = ground (arith, any-append_left p xs ys)

any-concat :
    (p : Expiry → Bool) (xs : List Expiry) (x : Expiry) → p x ≡ true → any p (xs ++ x ∷ []) ≡ true
any-concat p [] x h = ground arith
any-concat p (y ∷ xs) x h = ground (arith, any-concat p xs x h)

record IsAlive (token : Text) (due : ℕ) (config : Fields) (st : ShareState) : Type 0 where
  readable : get_share token st ≡ some config
  later : Later token due st.expiries
  pending : any (is_timer token due) st.expiries ≡ true

step-IsAlive :
    (ttl : ℕ) (token : Text) (due : ℕ) (config : Fields) (st : ShareState) (e : Event)
    → IsBefore token due e
    → IsAlive token due config st
    → IsAlive token due config (step ttl st e)
unfolding step create_share run_timers get_share
step-IsAlive ttl token due config st (shares uuid c now) b v = record {
  readable = ground (
    arith,
    lookup-insert (token_of uuid) token (record { config = sanitize c; created_at = now })
        st.shares,
    text_eq_iff (token_of uuid) token,
    v.readable,
  );
  later = All-append (λ x. (x.token ≢ token) ⊎ (due ≤ x.due)) st.expiries _ v.later (inl b, tt);
  pending = any-append_left (is_timer token due) st.expiries _ v.pending;
}
step-IsAlive ttl token due config st (passes now) b v = record {
  readable =
      ap (Option.map (λ e. e.config))
        (lookup-drop_expired token due now st.expiries st.shares b v.later)
      ∙ v.readable;
  later = filter-All (λ x. (x.token ≢ token) ⊎ (due ≤ x.due)) _ st.expiries v.later;
  pending = any-filter token due now st.expiries b v.pending;
}

run-IsAlive :
    (ttl : ℕ) (token : Text) (due : ℕ) (config : Fields) (es : List Event) (st : ShareState)
    → All (IsBefore token due) es
    → IsAlive token due config st
    → IsAlive token due config (run ttl st es)
unfolding run
run-IsAlive ttl token due config [] st b v = v
run-IsAlive ttl token due config (e ∷ es) st (b, bs) v =
    run-IsAlive ttl token due config es (step ttl st e) bs
      (step-IsAlive ttl token due config st e b v)

create_share-IsAlive :
    (ttl : ℕ) (uuid : Text) (config : Fields) (now : ℕ) (st : ShareState)
    → All (λ x. x.token ≢ token_of uuid) st.expiries
    → IsAlive
        (token_of uuid)
        (now + timer_delay ttl)
        (sanitize config)
        (create_share ttl uuid config now st).0
unfolding create_share get_share
create_share-IsAlive ttl uuid config now st fresh = record {
  readable = rw (lookup-insert_self, Option.map);
  later =
      All-append (λ x. (x.token ≢ token_of uuid) ⊎ (now + timer_delay ttl ≤ x.due)) st.expiries _
        (go st.expiries fresh) (inr (omega arith), tt);
  pending =
      any-concat (is_timer (token_of uuid) (now + timer_delay ttl)) st.expiries _
        (ground (arith, text_eq_iff (token_of uuid) (token_of uuid)));
}
  where
    go :
        (xs : List Expiry)
        → All (λ x. x.token ≢ token_of uuid) xs
        → Later (token_of uuid) (now + timer_delay ttl) xs
    go [] h = tt
    go (x ∷ xs) (p, h) = (inl p, go xs h)

-- A share under a new token can be read, sanitized, through every later event before its timer is due,
-- and can no longer be read once the runtime has run the timers then or later.
pub create_share_lifetime :
    (ttl : ℕ) (uuid : Text) (config : Fields) (now late : ℕ) (st : ShareState) (es : List Event)
    → All (λ x. x.token ≢ token_of uuid) st.expiries
    → All (IsBefore (token_of uuid) (now + timer_delay ttl)) es
    → now + timer_delay ttl ≤ late
    → let later = run ttl (create_share ttl uuid config now st).0 es in
      (get_share (token_of uuid) later ≡ some (sanitize config))
      × (get_share (token_of uuid) (run_timers late later) ≡ none)
unfolding run_timers get_share
create_share_lifetime ttl uuid config now late st es fresh before h =
    let token = token_of uuid in
    let st' = run ttl (create_share ttl uuid config now st).0 es in
    let v =
      run-IsAlive ttl token (now + timer_delay ttl) (sanitize config) es _ before
        (create_share-IsAlive ttl uuid config now st fresh) in
    (
      v.readable,
      ap (Option.map (λ e. e.config))
          (drop_expired_due token (now + timer_delay ttl) late st'.expiries st'.shares h v.pending),
    )
