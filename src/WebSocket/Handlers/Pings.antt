-- ===== src/WebSocket/Handlers/Pings.antt =====
-- The promises of `pingAsync` over all that happens to them.
use mathlib.Core.List.{Memᴰ}
use socket_tester.Base.{
  ◌-◌, ℕ, ◌+◌, ◌<◌, ◌≡◌, refl, inl, inr, List, [], ◌∷◌, Text, text_eq, text_eq_iff, lookup, delete,
  lookup-insert, lookup-delete, All-append, count, count-append, Map, if◌then◌else◌, arith, ltb,
  Option-cases, Bool-cases, lit,
}
use socket_tester.App.{
  WsPart, WsCall, Delivery, empty_app, PingResolver, PingTimer, resolved, rejected, ReadyState,
}
use socket_tester.WebSocket.Pinging.{reject_pending, start_ping, ping_async, is_open}
use socket_tester.WebSocket.Handlers.{resolve_ping, closed_part, ping_timeout}
use socket_tester.WebSocket.Handlers.Promises.{
  settles, waits, waits_for, HaveHandles, waits_for-le, AreKnown, AreKnownBut, IsTracked,
  IsTrackedBut, settle-Tracks,
}

reject_pending-IsTrackedBut :
    (id message : Text) (w : WsPart)
    → IsTracked w
    → IsTrackedBut id (reject_pending message (lookup id w.ping_resolvers) w)
unfolding reject_pending
reject_pending-IsTrackedBut id message w v = elim (Option-cases (lookup id w.ping_resolvers)) [
  | inl e ↦ rw (e, reject_pending) (v.0, v.1, (λ k q other f. v.2 k q f))
  | inr (r, e) ↦
      rw (e, reject_pending) (settle-Tracks id w r (rejected r.promise message) v (v.2 id r e) refl)
]

start_ping-IsTracked :
    (id : Text) (handle now : ℕ) (w : WsPart)
    → IsTrackedBut id w
    → IsTracked (start_ping id handle now w)
unfolding start_ping
start_ping-IsTracked id handle now w (handles, balanced, known) = (
  All-append (λ t. t.handle ≡ t.promise) w.ping_timers _ handles (refl, tt),
  (λ p. ground (
    arith,
    balanced p,
    count-append (waits p) w.ping_timers
        (record { handle = w.next_handle; owner = id; promise = w.next_handle } ∷ []),
  )),
  (λ k q f.
      let new : PingResolver = record {
        start_ts = now;
        promise = w.next_handle;
        timer = w.next_handle;
      } in
      let timer : PingTimer = record {
        handle = w.next_handle;
        owner = id;
        promise = w.next_handle;
      } in
      let all = count-append (waits_for k q.promise) w.ping_timers (timer ∷ []) in
      let bound = waits_for-le k q.promise w.ping_timers in
      elim (Bool-cases (text_eq id k)) [
        | inl same ↦ ground (
          arith,
          f,
          lookup-insert id k new w.ping_resolvers,
          all,
          bound,
          balanced q.promise,
          same,
        )
        | inr other ↦
            let old =
              known k q (λ e. ground (arith, text_eq_iff id k))
                (ground (arith, lookup-insert id k new w.ping_resolvers)) in
            ground (arith, old, all, bound, balanced q.promise)
      ]),
)

delete-IsKnown :
    (id : Text) (rs : Map PingResolver) (ts : List PingTimer)
    → AreKnownBut id rs ts
    → AreKnown (delete id rs) ts
delete-IsKnown id rs ts known k q f = elim (Bool-cases (text_eq id k)) [
  | inl same ↦ ground (arith, lookup-delete id k rs)
  | inr other ↦
      known k q (λ e. ground (arith, text_eq_iff id k)) (ground (arith, lookup-delete id k rs))
]

ping_async-IsTracked :
    (ready : ℕ → ReadyState) (id : Text) (now : ℕ) (w : WsPart)
    → IsTracked w
    → IsTracked (ping_async ready id now w).0
unfolding ping_async
ping_async-IsTracked ready id now w v = elim (Option-cases (lookup id w.sockets)) [
  | inl e ↦ rw (e, ping_async) v
  | inr (handle, e) ↦
      rw (e, ping_async)
        (elim (Bool-cases (is_open (ready handle))) [
          | inl up ↦ rw up (
              start_ping-IsTracked id handle now _
                (reject_pending-IsTrackedBut id (lit "Superseded by new ping") w v))
          | inr down ↦ rw down v
        ])
]

resolve_ping-IsTracked :
    (id : Text) (now : ℕ) (w : WsPart) → IsTracked w → IsTracked (resolve_ping id now w)
unfolding resolve_ping
resolve_ping-IsTracked id now w v = elim (Option-cases (lookup id w.ping_resolvers)) [
  | inl e ↦ rw (e, resolve_ping) v
  | inr (r, e) ↦
      let (h, b, k) =
        settle-Tracks id w r (resolved r.promise (now - r.start_ts)) v (v.2 id r e) refl in
      rw (e, resolve_ping) (h, b, delete-IsKnown id w.ping_resolvers _ k)
]

closed_part-IsTracked : (id : Text) (w : WsPart) → IsTracked w → IsTracked (closed_part id w)
unfolding closed_part reject_pending
closed_part-IsTracked id w v = elim (Option-cases (lookup id w.ping_resolvers)) [
  | inl e ↦
      rw (e, reject_pending)
        (v.0, v.1, delete-IsKnown id w.ping_resolvers w.ping_timers (λ k q other f. v.2 k q f))
  | inr (r, e) ↦
      let (h, b, k) =
        settle-Tracks id w r (rejected r.promise (lit "Connection closed")) v (v.2 id r e) refl in
      rw (e, reject_pending) (h, b, delete-IsKnown id w.ping_resolvers _ k)
]

-- The timer is pending.
abbrev IsArmed : PingTimer → WsPart → Type 0
IsArmed t w = Memᴰ t w.ping_timers

armed_handle :
    (t : PingTimer) (ts : List PingTimer) → Memᴰ t ts → HaveHandles ts → t.handle ≡ t.promise
armed_handle t [] m h = elim m [ ]
armed_handle t (x ∷ ts) (Memᴰ.head e) (h, hs) = ground arith
armed_handle t (x ∷ ts) (Memᴰ.tail m) (h, hs) = armed_handle t ts m hs

armed_count :
    (t : PingTimer) (ts : List PingTimer) → Memᴰ t ts → 0 < count (waits_for t.owner t.promise) ts
armed_count t [] m = elim m [ ]
armed_count t (x ∷ ts) (Memᴰ.head e) = ground (arith, text_eq_iff x.owner t.owner)
armed_count t (x ∷ ts) (Memᴰ.tail m) = ground (arith, armed_count t ts m)

ping_timeout-IsTracked :
    (t : PingTimer) (w : WsPart) → IsArmed t w → IsTracked w → IsTracked (ping_timeout t w)
unfolding ping_timeout
ping_timeout-IsTracked t w armed v =
    let r : PingResolver = record { start_ts = 0; promise = t.promise; timer = t.handle } in
    let (h, b, k) =
      settle-Tracks t.owner w r (rejected t.promise (lit "Ping timeout")) v
        (
          armed_handle t w.ping_timers armed v.0,
          ground (
            arith,
            armed_count t w.ping_timers armed,
            waits_for-le t.owner t.promise w.ping_timers,
            v.1 t.promise,
          ),
        )
        refl in
    (h, b, delete-IsKnown t.owner w.ping_resolvers _ k)

-- What can happen to the service's part: a ping is asked for, a pong or a close comes, a pending timer
-- runs out, or something changes only sockets, timestamps, messages and calls.
pub data Step : WsPart → WsPart → Type 0 where
  asks :
      (ready : ℕ → ReadyState) (id : Text) (now : ℕ) (w : WsPart)
      → Step w (ping_async ready id now w).0
  pongs : (id : Text) (now : ℕ) (w : WsPart) → Step w (resolve_ping id now w)
  closes : (id : Text) (w : WsPart) → Step w (closed_part id w)
  times_out : (t : PingTimer) (w : WsPart) → IsArmed t w → Step w (ping_timeout t w)
  other :
      (sockets stamps : Map ℕ) (calls : List WsCall) (deliveries : List Delivery) (w : WsPart)
      → Step w (record w {
        sockets = sockets;
        ping_timestamps = stamps;
        calls = calls;
        deliveries = deliveries;
      })

pub data Reach : WsPart → Type 0 where
  start : Reach empty_app.ws
  next : {w w' : WsPart} → Reach w → Step w w' → Reach w'

Step-IsTracked : {w w' : WsPart} → Step w w' → IsTracked w → IsTracked w'
Step-IsTracked (asks ready id now w) v = ping_async-IsTracked ready id now w v
Step-IsTracked (pongs id now w) v = resolve_ping-IsTracked id now w v
Step-IsTracked (closes id w) v = closed_part-IsTracked id w v
Step-IsTracked (times_out t w armed) v = ping_timeout-IsTracked t w armed v
Step-IsTracked (other sockets stamps calls deliveries w) v = v

Reach-IsTracked : {w : WsPart} → Reach w → IsTracked w
unfolding lookup
Reach-IsTracked start = (tt, (λ p. ground arith), (λ k q f. cc))
Reach-IsTracked (next r s) = Step-IsTracked s (Reach-IsTracked r)

-- In every state that pings, pongs, closes and timeouts lead to, in any order, each promise that
-- `pingAsync` handed out is either settled once and has no timer, or not settled and has one pending
-- timer; a promise that was not handed out is neither.
pub Reach-IsBalanced :
    {w : WsPart} (r : Reach w) (p : ℕ)
    → count (waits p) w.ping_timers + count (settles p) w.settled
      ≡ (if ltb p w.next_handle then 1 else 0)
Reach-IsBalanced r p = (Reach-IsTracked r).1 p
