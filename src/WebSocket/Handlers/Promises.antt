-- ===== src/WebSocket/Handlers/Promises.antt =====
-- The bookkeeping of the promises of `pingAsync`: what their timers and resolvers say of each other.
use mathlib.Core.Path.{subst}
use native.Mathlib.Decide.{ℕ_discrete}
use socket_tester.Base.{
  ℕ, ◌+◌, ◌≤◌, ◌≡◌, ◌≢◌, refl, sym, ap, ◌∙◌, some, List, [], ◌∷◌, ◌++◌, Bool, ◌&&◌, Text, text_eq,
  text_eq_iff, lookup, All, filter-All, count, count-append, Map, if◌then◌else◌, arith, ltb, ◌==◌,
}
use socket_tester.App.{WsPart, PingResolver, PingTimer, Settled, resolved, rejected}
use socket_tester.WebSocket.Pinging.{clear_ping_timer}

abbrev promise_of : Settled → ℕ
promise_of (resolved p latency) = p
promise_of (rejected p message) = p

-- The promise is settled by this, or still has this timer.
abbrev pub settles : ℕ → Settled → Bool
settles p s = promise_of s == p

abbrev pub waits : ℕ → PingTimer → Bool
waits p t = t.promise == p

-- The same, for a connection.
abbrev pub waits_for : Text → ℕ → PingTimer → Bool
waits_for id p t = text_eq t.owner id && t.promise == p

-- Every promise that was handed out is settled, or waits with a timer, once.
abbrev IsBalanced : List PingTimer → List Settled → ℕ → Type 0
IsBalanced timers settled next =
    (p : ℕ) → count (waits p) timers + count (settles p) settled ≡ (if ltb p next then 1 else 0)

abbrev pub HaveHandles : List PingTimer → Type 0
HaveHandles = All (λ t. t.handle ≡ t.promise)

abbrev IsKnown : Text → PingResolver → List PingTimer → Type 0
IsKnown id r timers = (r.timer ≡ r.promise) × (count (waits_for id r.promise) timers ≡ 1)

count-clear :
    (p q : ℕ) (ts : List PingTimer)
    → HaveHandles ts
    → count (waits q) (clear_ping_timer p ts) ≡ (if p == q then 0 else count (waits q) ts)
count-clear p q [] h = ground arith
count-clear p q (t ∷ ts) (e, h) = ground (arith, count-clear p q ts h)

count-clear_for :
    (id : Text) (p q : ℕ) (ts : List PingTimer)
    → HaveHandles ts
    → p ≢ q
    → count (waits_for id q) (clear_ping_timer p ts) ≡ count (waits_for id q) ts
count-clear_for id p q [] h n = refl
count-clear_for id p q (t ∷ ts) (e, h) n = ground (arith, count-clear_for id p q ts h n)

pub waits_for-le :
    (id : Text) (p : ℕ) (ts : List PingTimer) → count (waits_for id p) ts ≤ count (waits p) ts
waits_for-le id p [] = omega arith
waits_for-le id p (t ∷ ts) = ground (arith, waits_for-le id p ts)

-- Two connections do not wait for one promise.
waits_for-add-le :
    (id k : Text) (p : ℕ) (ts : List PingTimer)
    → k ≢ id
    → count (waits_for id p) ts + count (waits_for k p) ts ≤ count (waits p) ts
waits_for-add-le id k p [] h = omega arith
waits_for-add-le id k p (t ∷ ts) h =
    ground (arith, waits_for-add-le id k p ts h, text_eq_iff t.owner id, text_eq_iff t.owner k)

module _ (timers : List PingTimer) (settled : List Settled) (next : ℕ)
    (handles : HaveHandles timers) (balanced : IsBalanced timers settled next) where
  -- Settling a promise that waits, with its timer cleared.
  settle-IsBalanced :
      (s : Settled)
      → count (waits (promise_of s)) timers ≡ 1
      → IsBalanced (clear_ping_timer (promise_of s) timers) (settled ++ s ∷ []) next
  settle-IsBalanced s h p = ground (
    arith,
    balanced p,
    count-clear (promise_of s) p timers handles,
    count-append (settles p) settled (s ∷ []),
  )

  known-waits :
      (id : Text) (r : PingResolver) → IsKnown id r timers → count (waits r.promise) timers ≡ 1
  known-waits id r k = ground (arith, balanced r.promise, waits_for-le id r.promise timers)

  -- The other connections' promises stay known.
  clear-IsKnown :
      (id k : Text) (r q : PingResolver)
      → k ≢ id
      → IsKnown id r timers
      → IsKnown k q timers
      → IsKnown k q (clear_ping_timer r.timer timers)
  clear-IsKnown id k r q h kr kq = (
    kq.0,
    elim (ℕ_discrete r.timer q.promise) [
      | yes same ↦ absurd (clash (sym kr.0 ∙ same))
      | no other ↦ count-clear_for k r.timer q.promise timers handles other ∙ kq.1
    ],
  )
    where
      clash : r.promise ≡ q.promise → ⊥
      clash e = ground (
        arith,
        subst (λ p. count (waits_for id p) timers ≡ 1) e kr.1,
        waits_for-add-le id k q.promise timers h,
        balanced q.promise,
      )

-- Every resolver's promise waits for its own connection.
abbrev pub AreKnown : Map PingResolver → List PingTimer → Type 0
AreKnown rs ts = (k : Text) (q : PingResolver) → lookup k rs ≡ some q → IsKnown k q ts

abbrev pub AreKnownBut : Text → Map PingResolver → List PingTimer → Type 0
AreKnownBut id rs ts =
    (k : Text) (q : PingResolver) → k ≢ id → lookup k rs ≡ some q → IsKnown k q ts

-- The bookkeeping of pings, possibly without the resolver of one connection.
abbrev Tracks : Type 0 → List PingTimer → List Settled → ℕ → Type 0
Tracks known timers settled next = HaveHandles timers × IsBalanced timers settled next × known

abbrev pub IsTracked : WsPart → Type 0
IsTracked w = Tracks (AreKnown w.ping_resolvers w.ping_timers) w.ping_timers w.settled w.next_handle

abbrev pub IsTrackedBut : Text → WsPart → Type 0
IsTrackedBut id w =
    Tracks (AreKnownBut id w.ping_resolvers w.ping_timers) w.ping_timers w.settled w.next_handle

-- Settling the promise of `id`, in whatever way.
pub settle-Tracks :
    (id : Text) (w : WsPart) (r : PingResolver) (s : Settled)
    → IsTracked w
    → IsKnown id r w.ping_timers
    → promise_of s ≡ r.promise
    → Tracks
        (AreKnownBut id w.ping_resolvers (clear_ping_timer r.timer w.ping_timers))
        (clear_ping_timer r.timer w.ping_timers)
        (w.settled ++ s ∷ [])
        w.next_handle
settle-Tracks id w r s (handles, balanced, known) kr same =
    let one = known-waits w.ping_timers w.settled w.next_handle handles balanced id r kr in
    (
      filter-All (λ t. t.handle ≡ t.promise) _ w.ping_timers handles,
      subst (λ p. IsBalanced (clear_ping_timer p w.ping_timers) (w.settled ++ s ∷ []) w.next_handle)
          (same ∙ sym kr.0)
          (settle-IsBalanced w.ping_timers w.settled w.next_handle handles balanced s
            (ap (λ p. count (waits p) w.ping_timers) same ∙ one)),
      (λ k q other f.
          clear-IsKnown w.ping_timers w.settled w.next_handle handles balanced id k r q other kr
            (known k q f)),
    )
