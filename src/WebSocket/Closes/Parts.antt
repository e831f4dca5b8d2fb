-- ===== src/WebSocket/Closes/Parts.antt =====
-- What a close of the socket does to the maps and timers of the service.
use socket_tester.Base.{
  lookup-insert, insert, ℕ, ◌==◌, ◌++◌, ◌∷◌, [], List, not, filter, ◌≡◌, ◌≢◌, refl, sym, ap, Option,
  none, some, Option-cases, inl, inr, Text, lit, text_eq_iff, Map, lookup, delete, lookup-delete,
  arith,
}
use mathlib.Core.List.{append-nil}
use socket_tester.Network.{NetworkState, Timer, clear_condition}
use socket_tester.App.{WsPart, PingResolver, PingTimer, Settled, rejected}
use socket_tester.WebSocket.Pinging.{reject_pending}
use socket_tester.WebSocket.Handlers.{closed_part}

pub lookup-delete_other {ℓ} :
    {V : Type ℓ} (id k : Text) (m : Map V) → k ≢ id → lookup k (delete id m) ≡ lookup k m
lookup-delete_other id k m h = ground (arith, lookup-delete id k m, text_eq_iff id k)

pub lookup-insert_other {ℓ} :
    {V : Type ℓ} (id k : Text) (v : V) (m : Map V) → k ≢ id → lookup k (insert id v m) ≡ lookup k m
lookup-insert_other id k v m h = ground (arith, lookup-insert id k v m, text_eq_iff id k)

-- The pending ping of a connection, settled or not there.
abbrev pub rejection : Option PingResolver → List Settled
rejection none = []
rejection (some r) = rejected r.promise (lit "Connection closed") ∷ []

-- Only the timer of that ping is cleared.
abbrev pub other_ping_timers : Option PingResolver → List PingTimer → List PingTimer
other_ping_timers none ts = ts
other_ping_timers (some r) ts = filter (λ t. not (t.handle == r.timer)) ts

-- The timers but the one with this handle.
abbrev pub other_timers : Option ℕ → List Timer → List Timer
other_timers none ts = ts
other_timers (some handle) ts = filter (λ t. not (t.handle == handle)) ts

pub closed_part_lem :
    (id : Text) (w : WsPart)
    → closed_part id w ≡ record w {
      sockets = delete id w.sockets;
      ping_timestamps = delete id w.ping_timestamps;
      ping_resolvers = delete id w.ping_resolvers;
      ping_timers = other_ping_timers (lookup id w.ping_resolvers) w.ping_timers;
      settled = w.settled ++ rejection (lookup id w.ping_resolvers);
    }
unfolding closed_part
closed_part_lem id w = go (lookup id w.ping_resolvers)
  where
    go :
        (o : Option PingResolver)
        → let cut = record w {
          sockets = delete id w.sockets;
          ping_timestamps = delete id w.ping_timestamps;
          ping_resolvers = delete id w.ping_resolvers;
        } in
          reject_pending (lit "Connection closed") o cut ≡ record cut {
            ping_timers = other_ping_timers o w.ping_timers;
            settled = w.settled ++ rejection o;
          }
    go none =
        unfold reject_pending in
        ap
          (λ l. record w {
            sockets = delete id w.sockets;
            ping_timestamps = delete id w.ping_timestamps;
            ping_resolvers = delete id w.ping_resolvers;
            settled = l;
          })
          (sym (append-nil w.settled))
    go (some r) = unfold reject_pending in refl

pub clear_condition_lem :
    (id : Text) (st : NetworkState)
    → ((clear_condition id st).conditions ≡ delete id st.conditions)
      × ((clear_condition id st).armed ≡ other_timers (lookup id st.timers) st.armed)
      × ((k : Text) → k ≢ id → lookup k (clear_condition id st).timers ≡ lookup k st.timers)
unfolding clear_condition
clear_condition_lem id st = elim (Option-cases (lookup id st.timers)) [
  | inl e ↦ rw (e, clear_condition) (refl, refl, (λ k h. refl))
  | inr (handle, e) ↦
      rw (e, clear_condition) (refl, refl, (λ k h. lookup-delete_other id k st.timers h))
]
