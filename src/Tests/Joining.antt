-- ===== src/Tests/Joining.antt =====
-- What the browser shows after a join.
use socket_tester.Base.{
  ◌≡◌, ◌++◌, arith, refl, Option, none, some, true, [], ◌∷◌, find, is_some, Text, lit, text_eq,
  lookup,
}
use socket_tester.Json.{Value, str}
use socket_tester.Session.{
  ConnectionSession, connected, connecting, websocket, error, Sessions, new_session, get,
  with_topic, with_status, Buffered,
}
use socket_tester.Gateway.{handle_join_connection}
use socket_tester.Client.Tabs.{ConnectionTab, is_connection}
use socket_tester.Client.Tabs.Found.{shows}
use socket_tester.Client.Series.{incoming, no_stats, record_message}
use socket_tester.Client.Messages.{no_messages}
use socket_tester.Client.Entries.{no_entries}
use socket_tester.Client.Notifications.{no_toasts}
use socket_tester.Client.ControlSocket.Stores.{Browser, Stamp}
use socket_tester.Client.ControlSocket.Decode.{hear, hear_reply}
use socket_tester.Client.ControlSocket.{add_delayed}
use socket_tester.Client.ControlSocket.Delivery.{feed_message, with_room, deliver_reaches_feed}
use socket_tester.App.{App, Delivery, empty_app}
use socket_tester.WebSocket.Handlers.{deliver}
use socket_tester.WebSocket.Replayed.{emission_of, reply_of}
use socket_tester.Client.ControlSocket.Joining.{is_told, told, join_tells_status}

abbrev hello : Buffered
hello = record {
  event = lit "connection:message";
  data_sent =
      (lit "connectionId", str (lit "c"))
      ∷ (lit "payload", str (lit "hi"))
      ∷ (lit "direction", str (lit "received"))
      ∷ [];
}

-- A connected session with a buffered message and a topic.
abbrev busy : ConnectionSession
busy = with_topic (lit "t") (
    with_status connected none 1010 (record (new_session (lit "c") (lit "ws://h") websocket 1000) {
      buffered_messages = some (hello ∷ []);
    }))

abbrev sessions : Sessions
sessions = (lit "c", busy) ∷ []

found_busy : get (lit "c") sessions ≡ some busy
unfolding get lookup text_eq lit
found_busy = refl

abbrev tab : ConnectionTab
tab = record {
  id = lit "a";
  label = lit "h";
  protocol = websocket;
  color = [];
  connection = some (record {
    connection_id = lit "c";
    url = lit "ws://h";
    protocol = websocket;
    status = connecting;
    connected_at = none;
    mqtt_topics = none;
    socketio_events = none;
  });
}

abbrev browser : Browser
browser = record {
  tabs = record { tabs = tab ∷ []; active_tab_id = lit "a"; active_connection = none };
  messages = no_messages;
  series = no_stats;
  entries = no_entries;
  toasts = no_toasts;
  delayed = [];
  dispatched = [];
}

abbrev stamp : Stamp
stamp = record { now = 5000; message_id = lit "m"; toast_id = lit "t" }

abbrev print : Option Value → Text
print v = []

told_connected : is_told busy.status ≡ true
unfolding with_topic with_status
told_connected = refl

has_c : is_some (find (is_connection (lit "c")) browser.tabs.tabs) ≡ true
unfolding text_eq lit
has_c = refl

join_tells_status_example :
    shows
      (lit "c")
      (told busy.status (shows (lit "c") error browser.tabs))
      (hear print stamp (handle_join_connection (lit "c") 1020 sessions).replies browser).tabs
    ≡ true
unfolding with_topic with_status
join_tells_status_example =
    join_tells_status print stamp (lit "c") 1020 sessions busy browser found_busy told_connected
      (refl, tt) has_c

abbrev waiting : Delivery
waiting = record { owner = lit "c"; payload = lit "hi"; size = 2; latency = some 7; wait = none }

abbrev app : App
app = record empty_app { ws = record empty_app.ws { deliveries = waiting ∷ [] } }

abbrev due_stamp : Stamp
due_stamp = record { now = 5100; message_id = lit "m"; toast_id = lit "t" }

deliver_reaches_feed_example :
    let heard = hear_reply print stamp (reply_of (emission_of waiting 4990)) browser in
    ((deliver 0 4990 app).emitted ≡ app.emitted ++ emission_of waiting 4990 ∷ [])
    × (heard.series ≡ record_message (lit "c") incoming 2 (some 7) 5000 no_stats)
    × (heard.tabs ≡ browser.tabs)
    × ((add_delayed due_stamp heard).messages.messages
        ≡ with_room [] ++ feed_message waiting (lit "m") 5100 ∷ [])
deliver_reaches_feed_example =
    deliver_reaches_feed print 0 4990 app waiting stamp
      (record { now = 5100; message_id = lit "m"; toast_id = lit "t" }) browser refl refl
      (omega arith) (omega arith)
