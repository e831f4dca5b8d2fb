-- ===== src/SocketIo/Heard.antt =====
-- How often an incoming event of Socket.IO is counted and shown.
use socket_tester.Base.{ℕ, ◌+◌, ◌≡◌, some, List, [], ◌∷◌, ◌++◌, Text, insert, length}
use socket_tester.Session.{ConnectionSession, get}
use socket_tester.App.{App, SioCall}
use socket_tester.Mqtt.{add_to_set}

-- The session counts `n` messages more, and `n` events were emitted.
abbrev pub HeardBy : ℕ → Text → ConnectionSession → App → App → Type 0
HeardBy n id s app app' =
    (t : ConnectionSession) × (get id app'.sessions ≡ some t)
    × (t.stats.messages_received ≡ s.stats.messages_received + n)
    × (length app'.emitted ≡ length app.emitted + n)

-- The state after the first subscription to an event.
abbrev subscribed_app : ℕ → Text → Text → List Text → App → App
subscribed_app client id event events app = record app {
  sio = record app.sio {
    subscribed_events = insert id (add_to_set event events) app.sio.subscribed_events;
    calls = app.sio.calls ++ SioCall.listens client event ∷ [];
  };
}
