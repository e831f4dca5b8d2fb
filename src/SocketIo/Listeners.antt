-- ===== src/SocketIo/Listeners.antt =====
-- src/socketio/socketio.service.ts: which listeners an incoming event reaches. The library runs the
-- listener of every event, then each listener that was registered for this event on the client.
use socket_tester.Base.{ℕ, zero, suc, Bool, false, ◌&&◌, ◌==◌, List, [], ◌∷◌, count, Text, text_eq}
use socket_tester.Json.{Value}
use socket_tester.App.{App, SioCall, Result, ok, err, thrown}
use socket_tester.SocketIo.{on_any, on_subscribed}

-- `client.on(event, …)`
unfoldable pub is_listener : ℕ → Text → SioCall → Bool
is_listener client event (SioCall.listens c e) = (c == client) && text_eq e event
is_listener client event _ = false

abbrev pub listeners : ℕ → Text → List SioCall → ℕ
listeners client event calls = count (is_listener client event) calls

module _ (stringify : Value → Text) where
  -- The registered listeners in turn. Without an argument `JSON.stringify` gives undefined, which
  -- `Buffer.byteLength` throws on, and the library runs no further listener.
  unfoldable pub on_listeners : ℕ → Text → Text → List Value → ℕ → App → App × Result (Unit {0})
  on_listeners zero id event args now app = (app, ok tt)
  on_listeners (suc n) id event [] now app = (app, err thrown)
  on_listeners (suc n) id event (v ∷ args) now app =
      on_listeners n id event (v ∷ args) now (on_subscribed stringify id event v now app)

  unfoldable pub on_event : ℕ → Text → Text → List Value → ℕ → App → App × Result (Unit {0})
  unfolding on_listeners
  on_event client id event args now app =
      on_listeners (listeners client event app.sio.calls) id event args now
        (on_any stringify id event args now app)
