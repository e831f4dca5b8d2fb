-- ===== src/Tests/Control.antt =====
-- The routing of control events in the browser.
use socket_tester.Base.{
  ◌+◌, ◌≡◌, refl, true, false, Option, none, some, List, [], ◌∷◌, count, find, Text, lit, text_eq,
  is_some, arith, if◌then◌else◌,
}
use socket_tester.Json.{Value}
use socket_tester.Session.{websocket, connected, error}
use socket_tester.Client.Tabs.{ConnectionTab, is_connection}
use socket_tester.Client.Tabs.Found.{shows}
use socket_tester.Client.Series.{no_stats}
use socket_tester.Client.Messages.{no_messages}
use socket_tester.Client.Entries.{no_entries}
use socket_tester.Client.Notifications.{no_toasts}
use socket_tester.Client.ControlSocket.Payloads.{ErrorData, CloseData, failed, ponged, Incoming}
use socket_tester.Client.ControlSocket.{on_error, on_close, handle}
use socket_tester.Client.ControlSocket.Stores.{Browser, Stamp}
use socket_tester.Client.ControlSocket.Rooms.{
  no_rooms, has_room, active_ids, tabs_change, connects, disconnects, run, step, follow_tabs,
  on_connect, evict, join_new, run-joins_once, reconnect_joins_nothing, RoomEvent,
}
use socket_tester.Client.ControlSocket.Routing.{is_target, SameFor, handle_other}
use socket_tester.Client.ControlSocket.Failures
use socket_tester.Client.ControlSocket.Failures.{error_outlives_close}

abbrev tab_of : Text → ConnectionTab
tab_of id = record {
  id = id;
  label = id;
  protocol = websocket;
  color = [];
  connection = some (record {
    connection_id = id;
    url = lit "wss://h";
    protocol = websocket;
    status = connected;
    connected_at = none;
    mqtt_topics = none;
    socketio_events = none;
  });
}

abbrev tabs : List ConnectionTab
tabs = tab_of (lit "c") ∷ tab_of (lit "d") ∷ []

abbrev opening : List RoomEvent
opening = tabs_change tabs ∷ connects ∷ tabs_change tabs ∷ []

joined_c : has_room (lit "c") (active_ids tabs) ≡ true
unfolding active_ids text_eq lit
joined_c = refl

-- Both connections are joined once, when the channel connects.
opening_lem : (run opening no_rooms).1 ≡ lit "c" ∷ lit "d" ∷ []
unfolding run step follow_tabs on_connect evict join_new active_ids text_eq lit
opening_lem = refl

run-joins_once_example :
    (if has_room (lit "c") no_rooms.joined then 1 else 0)
      + count (text_eq (lit "c")) (run opening no_rooms).1
    ≡ (if has_room (lit "c") (run opening no_rooms).0.joined then 1 else 0)
run-joins_once_example = run-joins_once (lit "c") opening no_rooms (joined_c, (tt, (joined_c, tt)))

opening_connected : (run opening no_rooms).0.is_connected ≡ true
unfolding run step follow_tabs on_connect evict join_new active_ids text_eq lit
opening_connected = refl

reconnect_joins_nothing_example :
    run (disconnects ∷ connects ∷ []) (run opening no_rooms).0
    ≡ (record { is_connected = true; joined = []; waiting = none }, [])
reconnect_joins_nothing_example = reconnect_joins_nothing opening opening_connected

abbrev browser : Browser
browser = record {
  tabs = record { tabs = tabs; active_tab_id = lit "c"; active_connection = none };
  messages = no_messages;
  series = no_stats;
  entries = no_entries;
  toasts = no_toasts;
  delayed = [];
  dispatched = [];
}

abbrev stamp : Stamp
stamp = record { now = 5000; message_id = lit "m"; toast_id = lit "t" }

abbrev print : Option Value → Text
print v = []

abbrev same : Text → Text
same s = s

abbrev refused : ErrorData
refused = record { connection_id = lit "c"; message = lit "refused" }

other_target : is_target (lit "d") (failed refused) ≡ false
unfolding is_target text_eq lit
other_target = refl

handle_other_example : SameFor same (lit "d") browser (handle print (failed refused) stamp browser)
handle_other_example =
    handle_other same print (failed refused) stamp browser (lit "d") other_target (omega arith)

has_c : is_some (find (is_connection (lit "c")) tabs) ≡ true
unfolding text_eq lit
has_c = refl

abbrev pong : Incoming
pong = ponged (record { connection_id = lit "c"; latency = 7 })

abbrev close_1006 : CloseData
close_1006 = record { connection_id = lit "c"; code = some 1006; reason = none; raw = [] }

error_outlives_close_example :
    let later = Failures.run print ((pong, stamp) ∷ []) (on_error refused stamp browser) in
    (shows (lit "c") error later.tabs ≡ true)
    × ((on_close close_1006 stamp later).tabs ≡ later.tabs)
    × ((on_close close_1006 stamp later).toasts ≡ later.toasts)
error_outlives_close_example =
    error_outlives_close print refused stamp browser ((pong, stamp) ∷ []) close_1006 stamp has_c
      (tt, tt) refl
