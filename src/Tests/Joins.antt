-- ===== src/Tests/Joins.antt =====
-- Joining the room of a connection.
use socket_tester.Base.{
  ◌≡◌, ◌≢◌, refl, ℕ, List, none, some, [], ◌∷◌, ◌++◌, map, default, Text, lit, text_eq, lookup,
  ne_of_text_eq, arith,
}
use socket_tester.Session.{
  ConnectionSession, connected, websocket, Sessions, new_session, get, topics_of, with_topic,
  with_status, Buffered,
}
use socket_tester.Gateway.{open_reply, replay, topic_reply, handle_join_connection}
use socket_tester.Gateway.Replay.{IsEmptied, handle_join_connection_lem}
use socket_tester.App.{App, Delivery, empty_app}
use socket_tester.WebSocket.Replayed.{emissions, reply_of, forward_all, forward_all-replayed}

abbrev joined : Text
joined = lit "a"

abbrev other : Text
other = lit "b"

abbrev hello : Buffered
hello = record { event = lit "connection:message"; data_sent = [] }

-- A connected session with two buffered messages and a topic.
abbrev busy : ConnectionSession
busy = with_topic (lit "t") (
    with_status connected none 1010 (record (new_session joined (lit "ws://h") websocket 1000) {
      buffered_messages = some (hello ∷ hello ∷ []);
    }))

abbrev one_session : Sessions
one_session = (joined, busy) ∷ []

found_busy : get joined one_session ≡ some busy
unfolding get lookup text_eq lit
found_busy = refl

busy_connected : busy.status ≡ connected
unfolding with_topic with_status
busy_connected = refl

other-ne-joined : other ≢ joined
unfolding text_eq lit
other-ne-joined = ne_of_text_eq other joined refl

handle_join_connection_lem_example :
    let j = handle_join_connection joined 1020 one_session in
    (j.replies
      ≡ open_reply joined 1020 busy
        ∷ (map replay (default [] busy.buffered_messages)
            ++ map (topic_reply joined 1020 busy) (topics_of busy)))
    × IsEmptied joined busy j.sessions
    × (get other j.sessions ≡ get other one_session)
handle_join_connection_lem_example =
    handle_join_connection_lem joined other 1020 one_session busy found_busy busy_connected
      other-ne-joined

abbrev app : App
app = record empty_app { sessions = one_session }

abbrev arrived : List (Delivery × ℕ)
arrived =
    (record { owner = joined; payload = lit "hi"; size = 2; latency = none; wait = none }, 1030)
    ∷ []

forward_all-replayed_example :
    let rejoined = record app {
      sessions = (handle_join_connection joined 1020 app.sessions).sessions;
    } in
    let app' = forward_all arrived rejoined in
    (app'.emitted ≡ app.emitted ++ emissions arrived)
    × ((handle_join_connection joined 1040 app'.sessions).replies
        ≡ open_reply joined 1040 busy
          ∷ (map reply_of (emissions arrived)
              ++ map (topic_reply joined 1040 busy) (topics_of busy)))
forward_all-replayed_example =
    forward_all-replayed joined 1020 1040 app busy arrived found_busy busy_connected (refl, tt)
      (omega arith)
