-- ===== src/SocketIo/Subscriptions.antt =====
-- The clients and their sets of subscribed events.
use mathlib.Core.Path.{subst}
use socket_tester.Base.{
  ℕ, zero, suc, ◌∷◌, ◌≡◌, refl, sym, ap, ◌∙◌, Option, none, some, List, [], Bool, true, any,
  is_some, Text, text_eq, text_eq_iff, Map, lookup, insert, delete, lookup-insert, lookup-delete,
  lookup-insert_self, arith, Option-cases, Bool-cases, inl, inr,
}
use socket_tester.Json.{Value}
use socket_tester.Session.{get, CloseCallback, close_socketio}
use socket_tester.App.{App, ReadyState, ok, Cleanup, empty_app}
use socket_tester.Closing.{close_session, run_close, close_sio}
use socket_tester.Mqtt.{add_to_set}
use socket_tester.SocketIo.{
  CreateSocketIoConnectionDto, create_connection, send_message, subscribe_event, close_connection,
  on_connect, on_disconnect, on_reconnect_attempt, on_ack, on_any, on_subscribed,
}
use socket_tester.SocketIo.Refusals.{ConnectError, on_connect_error, is_failed, clean_up}
use socket_tester.SocketIo.Listeners.{listeners, on_listeners, on_event}
use socket_tester.SocketIo.Errors.{any-add_to_set}

-- A connection has a client and a set, or neither.
abbrev pub ArePaired : Map ℕ → Map (List Text) → Type 0
ArePaired clients events = (k : Text) → is_some (lookup k clients) ≡ is_some (lookup k events)

abbrev IsPaired : App → Type 0
IsPaired app = ArePaired app.sio.clients app.sio.subscribed_events

module _ (origin_of : Text → Option Text) (stringify : Value → Text) where
  -- What happens in the proxy: a request, what the client library reports, or a clean-up.
  pub data Step : App → App → Type 0 where
    creates :
        (dto : CreateSocketIoConnectionDto) (id : Text) (client now : ℕ) (app : App)
        → Step app (create_connection origin_of dto id client now app).0
    sends :
        (is_up : ℕ → Bool) (id event : Text) (payload : Value) (ack : Bool) (now : ℕ) (app : App)
        → Step app (send_message stringify is_up id event payload ack now app).0
    subscribes : (id event : Text) (app : App) → Step app (subscribe_event id event app).0
    fails :
        (id url : Text) (client : ℕ) (e : ConnectError) (now : ℕ) (app : App)
        → Step app (on_connect_error id url client e now app)
    opens :
        (id transport namespace : Text) (now : ℕ) (app : App)
        → Step app (on_connect id transport namespace now app)
    drops : (id reason : Text) (now : ℕ) (app : App) → Step app (on_disconnect id reason now app)
    reconnects :
        (id : Text) (attempt now : ℕ) (app : App)
        → Step app (on_reconnect_attempt id attempt now app)
    hears :
        (client : ℕ) (id event : Text) (args : List Value) (now : ℕ) (app : App)
        → Step app (on_event stringify client id event args now app).0
    acks :
        (id event : Text) (payload : Value) (now : ℕ) (app : App)
        → Step app (on_ack id event payload now app)
    cleans : (c : Cleanup) (app : App) → Step app (clean_up c app)
    closes :
        (ready : ℕ → ReadyState) (id : Text) (now : ℕ) (app : App)
        → Step app (close_connection ready id now app).0

  pub data Reach : App → Type 0 where
    start : Reach empty_app
    next : {app app' : App} → Reach app → Step app app' → Reach app'

insert-ArePaired :
    (id : Text) (client : ℕ) (new : List Text) (clients : Map ℕ) (events : Map (List Text))
    → ArePaired clients events
    → ArePaired (insert id client clients) (insert id new events)
insert-ArePaired id client new clients events v k = elim (Bool-cases (text_eq id k)) [
  | inl e ↦ ground (arith, lookup-insert id k client clients, lookup-insert id k new events)
  | inr e ↦ ground (arith, lookup-insert id k client clients, lookup-insert id k new events, v k)
]

delete-ArePaired :
    (id : Text) (clients : Map ℕ) (events : Map (List Text))
    → ArePaired clients events
    → ArePaired (delete id clients) (delete id events)
delete-ArePaired id clients events v k = elim (Bool-cases (text_eq id k)) [
  | inl e ↦ ground (arith, lookup-delete id k clients, lookup-delete id k events)
  | inr e ↦ ground (arith, lookup-delete id k clients, lookup-delete id k events, v k)
]

-- A set that is there is replaced.
replace-ArePaired :
    (id : Text) (old new : List Text) (clients : Map ℕ) (events : Map (List Text))
    → lookup id events ≡ some old
    → ArePaired clients events
    → ArePaired clients (insert id new events)
replace-ArePaired id old new clients events e v k = elim (Bool-cases (text_eq id k)) [
  | inl same ↦
      let there : lookup k events ≡ some old =
        ap (λ x. lookup x events) (sym ((text_eq_iff id k).0 same)) ∙ e in
      ground (arith, lookup-insert id k new events, v k, there)
  | inr other ↦ ground (arith, lookup-insert id k new events, v k)
]

subscribe_event-IsPaired :
    (id event : Text) (app : App) → IsPaired app → IsPaired (subscribe_event id event app).0
unfolding subscribe_event
subscribe_event-IsPaired id event app v = elim (Option-cases (lookup id app.sio.clients)) [
  | inl e ↦ rw (e, subscribe_event) v
  | inr (client, e) ↦
      rw (e, subscribe_event)
        (elim (Option-cases (lookup id app.sio.subscribed_events)) [
          | inl f ↦ rw f v
          | inr (old, f) ↦ rw f (elim (Bool-cases (any (text_eq event) old)) [
            | inl there ↦ rw there v
            | inr absent ↦ rw absent (
                replace-ArePaired id old (add_to_set event old) app.sio.clients
                  app.sio.subscribed_events f v)
          ])
        ])
]

close_session-IsPaired :
    (ready : ℕ → ReadyState) (id : Text) (c : Option CloseCallback) (app : App)
    → IsPaired app
    → IsPaired (close_session ready id c app)
unfolding close_session run_close close_sio
close_session-IsPaired ready id none app v = v
close_session-IsPaired ready id (some (close_socketio client)) app v =
    delete-ArePaired id app.sio.clients app.sio.subscribed_events v
close_session-IsPaired ready id (some c) app v = v

module _ (origin_of : Text → Option Text) (stringify : Value → Text) where
  -- Hearing an event leaves the clients and the sets alone.
  on_listeners-sio :
      (n : ℕ) (id event : Text) (args : List Value) (now : ℕ) (app : App)
      → (on_listeners stringify n id event args now app).0.sio ≡ app.sio
  unfolding on_listeners on_subscribed
  on_listeners-sio zero id event args now app = refl
  on_listeners-sio (suc n) id event [] now app = refl
  on_listeners-sio (suc n) id event (v ∷ args) now app =
      on_listeners-sio n id event (v ∷ args) now (on_subscribed stringify id event v now app)

  Step-IsPaired :
      {app app' : App} → Step origin_of stringify app app' → IsPaired app → IsPaired app'
  unfolding create_connection send_message on_connect_error clean_up close_connection on_connect
      on_disconnect on_reconnect_attempt on_event on_any on_ack
  Step-IsPaired (creates dto id client now app) v =
      insert-ArePaired id client [] app.sio.clients app.sio.subscribed_events v
  Step-IsPaired (sends is_up id event payload ack now app) v =
      elim (Option-cases (lookup id app.sio.clients)) [
        | inl e ↦ rw (e, send_message) v
        | inr (client, e) ↦
            rw (e, send_message)
              (elim (Bool-cases (is_up client)) [ inl up ↦ rw up v | inr down ↦ rw down v ])
      ]
  Step-IsPaired (subscribes id event app) v = subscribe_event-IsPaired id event app v
  Step-IsPaired (fails id url client e now app) v = elim (Bool-cases (is_failed id app)) [
    | inl h ↦ rw (h, on_connect_error) v
    | inr h ↦ rw (h, on_connect_error) v
  ]
  Step-IsPaired (opens id transport namespace now app) v = v
  Step-IsPaired (drops id reason now app) v = v
  Step-IsPaired (reconnects id attempt now app) v = v
  Step-IsPaired (hears client id event args now app) v =
      subst (λ p. ArePaired p.clients p.subscribed_events)
        (sym (
          on_listeners-sio (listeners client event app.sio.calls) id event args now
            (on_any stringify id event args now app)))
        v
  Step-IsPaired (acks id event payload now app) v = v
  Step-IsPaired (cleans c app) v =
      delete-ArePaired c.owner app.sio.clients app.sio.subscribed_events v
  Step-IsPaired (closes ready id now app) v = elim (Option-cases (get id app.sessions)) [
    | inl e ↦ rw (e, close_connection) v
    | inr (s, e) ↦ rw (e, close_connection) (close_session-IsPaired ready id s.close app v)
  ]

  Reach-IsPaired : {app : App} → Reach origin_of stringify app → IsPaired app
  unfolding lookup
  Reach-IsPaired start = λ k. refl
  Reach-IsPaired (next r s) = Step-IsPaired s (Reach-IsPaired r)

  -- In every state that the Socket.IO proxy reaches, subscribing to an event of a connection that has
  -- a client succeeds, and the event is then in the connection's set.
  pub subscribe_event-Reach :
      (id event : Text) (client : ℕ) (app : App)
      → Reach origin_of stringify app
      → lookup id app.sio.clients ≡ some client
      → let r = subscribe_event id event app in
        (r.1 ≡ ok tt)
        × ((events : List Text) × (lookup id r.0.sio.subscribed_events ≡ some events)
            × (any (text_eq event) events ≡ true))
  unfolding subscribe_event
  subscribe_event-Reach id event client app r e =
      elim (Option-cases (lookup id app.sio.subscribed_events)) [
        | inl f ↦ ground (arith, Reach-IsPaired r id)
        | inr (old, f) ↦
            rw (e, subscribe_event)
              (rw f (elim (Bool-cases (any (text_eq event) old)) [
                | inl there ↦ rw there (refl, (old, f, there))
                | inr absent ↦ rw absent (
                  refl,
                  (
                    add_to_set event old,
                    lookup-insert_self id (add_to_set event old) app.sio.subscribed_events,
                    any-add_to_set event old,
                  ),
                )
              ]))
      ]
