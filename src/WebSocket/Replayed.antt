-- ===== src/WebSocket/Replayed.antt =====
-- What a client that joins again is told of the messages that arrived since it joined first.
use socket_tester.Base.{
  ℕ, ◌≤◌, ◌≡◌, refl, sym, ap, ◌∙◌, some, List, [], ◌∷◌, ◌++◌, map, length, Text, lit, All, arith,
}
use mathlib.Core.List.{append-nil, append_assoc}
use socket_tester.Session.{ConnectionSession, connected, get, topics_of, Buffered, buffer_message}
use socket_tester.Gateway.{
  Emission, Reply, room_of, emit_to_connection, open_reply, topic_reply, replay,
  handle_join_connection,
}
use socket_tester.Gateway.Replay.{buffer_all, handle_join_connection_again}
use socket_tester.App.{App, Delivery}
use socket_tester.WebSocket.Handlers.{forward, received_data}

-- What forwarding a message at a time emits, and what it buffers.
abbrev pub emission_of : Delivery → ℕ → Emission
emission_of d now = record {
  room = room_of d.owner;
  event = lit "connection:message";
  sent = received_data d now;
}

abbrev buffered_of : Delivery × ℕ → Buffered
buffered_of (d, now) = record { event = lit "connection:message"; data_sent = received_data d now }

-- The messages that are forwarded in turn, each with its time.
unfoldable pub forward_all : List (Delivery × ℕ) → App → App
forward_all [] app = app
forward_all ((d, now) ∷ ds) app = forward_all ds (forward d now app)

abbrev pub emissions : List (Delivery × ℕ) → List Emission
emissions ds = map (λ x. emission_of x.0 x.1) ds

abbrev pub reply_of : Emission → Reply
reply_of e = record { event = e.event; sent = e.sent }

forward_all-emitted :
    (ds : List (Delivery × ℕ)) (app : App)
    → (forward_all ds app).emitted ≡ app.emitted ++ emissions ds
unfolding forward_all forward emit_to_connection
forward_all-emitted [] app = sym (append-nil app.emitted)
forward_all-emitted ((d, now) ∷ ds) app =
    forward_all-emitted ds (forward d now app)
    ∙ append_assoc app.emitted (emission_of d now ∷ []) (emissions ds)

forward_all-sessions :
    (id : Text) (ds : List (Delivery × ℕ)) (app : App)
    → All (λ x. x.0.owner ≡ id) ds
    → (forward_all ds app).sessions ≡ buffer_all id (map buffered_of ds) app.sessions
unfolding forward_all forward
forward_all-sessions id [] app h = refl
forward_all-sessions id ((d, now) ∷ ds) app (e, h) =
    forward_all-sessions id ds (forward d now app) h
    ∙ ap
        (λ i.
          buffer_all id (map buffered_of ds)
            (buffer_message i (lit "connection:message") (received_data d now) app.sessions))
        e

replays : (ds : List (Delivery × ℕ)) → map replay (map buffered_of ds) ≡ map reply_of (emissions ds)
replays [] = refl
replays ((d, now) ∷ ds) = ap (λ l. reply_of (emission_of d now) ∷ l) (replays ds)

length-buffered : (ds : List (Delivery × ℕ)) → length (map buffered_of ds) ≡ length ds
length-buffered [] = refl
length-buffered (x ∷ ds) = omega (arith, length-buffered ds)

-- The buffer fills again after a client has joined: each of the up to 100 messages that arrive for the
-- connection from then on is emitted to its room at once, where that client hears it, and the next join
-- replays all of them again, in order and with the same contents.
pub forward_all-replayed :
    (id : Text) (now later : ℕ) (app : App) (s : ConnectionSession) (ds : List (Delivery × ℕ))
    → get id app.sessions ≡ some s
    → s.status ≡ connected
    → All (λ x. x.0.owner ≡ id) ds
    → length ds ≤ 100
    → let joined = record app {
      sessions = (handle_join_connection id now app.sessions).sessions;
    } in
      let app' = forward_all ds joined in
      (app'.emitted ≡ app.emitted ++ emissions ds)
      × ((handle_join_connection id later app'.sessions).replies
          ≡ open_reply id later s
            ∷ (map reply_of (emissions ds) ++ map (topic_reply id later s) (topics_of s)))
forward_all-replayed id now later app s ds e c own few =
    let joined = record app { sessions = (handle_join_connection id now app.sessions).sessions } in
    (
      forward_all-emitted ds joined,
      ap (λ m. (handle_join_connection id later m).replies) (forward_all-sessions id ds joined own)
          ∙ handle_join_connection_again id now later app.sessions s (map buffered_of ds) e c
              (omega (arith, length-buffered ds))
          ∙ ap (λ l. open_reply id later s ∷ (l ++ map (topic_reply id later s) (topics_of s)))
              (replays ds),
    )
