-- ===== src/WebSocket/Closes.antt =====
-- Closing a connection from either side.
pub mod Parts
use socket_tester.Base.{
  lookup-insert, insert, default, has, Bool-cases, ℕ, ◌+◌, ◌==◌, ◌++◌, ◌∷◌, [], List, not, filter,
  ◌≡◌, ◌≢◌, refl, sym, ap, ◌∙◌, Option, none, some, Option-cases, inl, inr, lookup-modify, length,
  length-append, Text, lit, text_eq_iff, Map, lookup, delete, modify, lookup-modify_self,
  lookup-delete, lookup-delete_self, arith,
}
use socket_tester.Session.{
  ConnectionSession, disconnected, get, update_status, with_status, CloseCallback, close_websocket,
}
use mathlib.Core.List.{append-nil}
use socket_tester.Gateway.{Emission, room_of, emit_to_connection}
use socket_tester.Log.{LogInput, LogState, log, get_by_connection}
use socket_tester.Network.{NetworkState, Timer, get_condition, clear_condition}
use socket_tester.App.{App, ok, ReadyState, WsPart, PingResolver, PingTimer, Settled, rejected}
use socket_tester.Closing.{ping_key, run_close, close_session}
use socket_tester.WebSocket.{close_connection}
use socket_tester.WebSocket.Pinging.{reject_pending}
use socket_tester.WebSocket.Handlers.{on_close, closed_part}
use socket_tester.WebSocket.Closes.Parts.{
  lookup-delete_other, lookup-insert_other, rejection, other_ping_timers, other_timers,
  closed_part_lem, clear_condition_lem,
}

ping_key-ne : (id : Text) → ping_key id ≢ id
unfolding ping_key lit
ping_key-ne id e = absurd (omega (arith, ap length e, length-append (lit "ping:") id))

run_close-sessions :
    (ready : ℕ → ReadyState) (id : Text) (c : Option CloseCallback) (app : App)
    → (close_session ready id c app).sessions ≡ app.sessions
unfolding close_session run_close
run_close-sessions ready id none app = refl
run_close-sessions ready id (some (close_websocket h)) app = refl
run_close-sessions ready id (some c) app = refl

-- Closing a connection that has a session, in whatever state it is, succeeds, marks that session
-- as disconnected, and keeps that session with all else it holds: it is not removed.
pub close_connection_lem :
    (ready : ℕ → ReadyState) (id : Text) (now : ℕ) (app : App) (s : ConnectionSession)
    → get id app.sessions ≡ some s
    → let r = close_connection ready id now app in
      (r.1 ≡ ok tt) × (get id r.0.sessions ≡ some (record s { status = disconnected }))
unfolding close_connection update_status get with_status
close_connection_lem ready id now app s e =
    rw (e, close_connection)
      (
        refl,
        ap (λ m. lookup id (modify id (with_status disconnected none now) m))
              (run_close-sessions ready id s.close app)
            ∙ lookup-modify_self id (with_status disconnected none now) app.sessions s e,
      )

-- What another connection has in the state: its session, log, condition, forced disconnect, socket,
-- time of the last message and pending ping.
pub record SameOf (k : Text) (app app' : App) : Type 0 where
  pub session : get k app'.sessions ≡ get k app.sessions
  pub entries : get_by_connection k none app'.logs ≡ get_by_connection k none app.logs
  pub condition : get_condition k app'.network ≡ get_condition k app.network
  pub timer : lookup k app'.network.timers ≡ lookup k app.network.timers
  pub socket : lookup k app'.ws.sockets ≡ lookup k app.ws.sockets
  pub stamp : lookup k app'.ws.ping_timestamps ≡ lookup k app.ws.ping_timestamps
  pub resolver : lookup k app'.ws.ping_resolvers ≡ lookup k app.ws.ping_resolvers

-- One event goes to the room of the connection.
abbrev pub EmitsOne : Text → Text → App → App → Type 0
EmitsOne id event app app' =
    (e : Emission) × (app'.emitted ≡ app.emitted ++ e ∷ [])
    × (e.room ≡ room_of id)
    × (e.event ≡ event)

-- The rest of the state.
pub record KeepsRest (app app' : App) : Type 0 where
  pub calls : app'.ws.calls ≡ app.ws.calls
  pub deliveries : app'.ws.deliveries ≡ app.ws.deliveries
  pub sio : app'.sio ≡ app.sio
  pub mqtt : app'.mqtt ≡ app.mqtt
  pub amqp : app'.amqp ≡ app.amqp

log_other :
    (e : LogInput) (k : Text) (now : ℕ) (st : LogState)
    → k ≢ e.connection_id
    → get_by_connection k none (log e now st) ≡ get_by_connection k none st
unfolding log get_by_connection
log_other e k now st h = elim (Bool-cases (has e.connection_id st.logs)) [
  | inl there ↦ rw there (ap (default []) (lookup-insert_other e.connection_id k _ st.logs h))
  | inr absent ↦ rw absent (
      ap (default []) (
        lookup-insert_other e.connection_id k _ (insert e.connection_id [] st.logs) h
        ∙ lookup-insert_other e.connection_id k [] st.logs h))
]

on_close-SameOf :
    (id k : Text) (status_code : ℕ) (reason : Text) (now : ℕ) (app : App)
    → k ≢ id
    → SameOf k app (on_close id status_code reason now app)
unfolding on_close get_condition get update_status
on_close-SameOf id k status_code reason now app h =
    let part = closed_part_lem id app.ws in
    let network = clear_condition_lem id app.network in
    record {
      session = ground (
        arith,
        lookup-modify id k (with_status disconnected none now) app.sessions,
        text_eq_iff id k,
      );
      entries = log_other _ k now app.logs h;
      condition = ap (lookup k) network.0 ∙ lookup-delete_other id k app.network.conditions h;
      timer = network.2 k h;
      socket = ap (λ w. lookup k w.sockets) part ∙ lookup-delete_other id k app.ws.sockets h;
      stamp =
          ap (λ w. lookup k w.ping_timestamps) part
          ∙ lookup-delete_other id k app.ws.ping_timestamps h;
      resolver =
          ap (λ w. lookup k w.ping_resolvers) part
          ∙ lookup-delete_other id k app.ws.ping_resolvers h;
    }

-- When the socket closes, the service marks the session as disconnected, forgets the socket, the time
-- of the last message, the pending ping and the network condition of the connection, rejects that
-- ping, clears its timer and that of the forced disconnect and no timer of another handle, and emits
-- one event to the room. The time of a ping that was sent through the REST endpoint stays, and so do
-- the session, log, condition, socket, times and pending ping of another connection `k`, the calls and
-- waiting messages, and the state of the other proxies.
pub on_close_lem :
    (id k : Text) (status_code : ℕ) (reason : Text) (now : ℕ) (app : App) (s : ConnectionSession)
    → get id app.sessions ≡ some s
    → k ≢ id
    → let app' = on_close id status_code reason now app in
      (get id app'.sessions ≡ some (record s { status = disconnected }))
      × (lookup id app'.ws.sockets ≡ none)
      × (lookup id app'.ws.ping_timestamps ≡ none)
      × (lookup id app'.ws.ping_resolvers ≡ none)
      × (get_condition id app'.network ≡ none)
      × (app'.ws.ping_timers
          ≡ other_ping_timers (lookup id app.ws.ping_resolvers) app.ws.ping_timers)
      × (app'.network.armed ≡ other_timers (lookup id app.network.timers) app.network.armed)
      × (app'.ws.settled ≡ app.ws.settled ++ rejection (lookup id app.ws.ping_resolvers))
      × EmitsOne id (lit "connection:close") app app'
      × (lookup (ping_key id) app'.ws.ping_timestamps ≡ lookup (ping_key id) app.ws.ping_timestamps)
      × SameOf k app app'
      × KeepsRest app app'
unfolding on_close get_condition get update_status with_status emit_to_connection
on_close_lem id k status_code reason now app s e h =
    let part = closed_part_lem id app.ws in
    let network = clear_condition_lem id app.network in
    (
      lookup-modify_self id (with_status disconnected none now) app.sessions s e,
      ap (λ w. lookup id w.sockets) part ∙ lookup-delete_self id app.ws.sockets,
      ap (λ w. lookup id w.ping_timestamps) part ∙ lookup-delete_self id app.ws.ping_timestamps,
      ap (λ w. lookup id w.ping_resolvers) part ∙ lookup-delete_self id app.ws.ping_resolvers,
      ap (lookup id) network.0 ∙ lookup-delete_self id app.network.conditions,
      ap (λ w. w.ping_timers) part,
      network.1,
      ap (λ w. w.settled) part,
      (_, refl, refl, refl),
      ap (λ w. lookup (ping_key id) w.ping_timestamps) part
          ∙ lookup-delete_other id (ping_key id) app.ws.ping_timestamps (ping_key-ne id),
      on_close-SameOf id k status_code reason now app h,
      record {
        calls = ap (λ w. w.calls) part;
        deliveries = ap (λ w. w.deliveries) part;
        sio = refl;
        mqtt = refl;
        amqp = refl;
      },
    )
