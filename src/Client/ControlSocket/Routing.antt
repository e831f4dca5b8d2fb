-- ===== src/Client/ControlSocket/Routing.antt =====
-- The events of a connection reach its tab, figures and feed, and those of no other; an error that
-- the browser shows outlives the close that follows it.
use socket_tester.Base.{
  ◌<◌, length, ◌≡◌, refl, ◌∙◌, Bool, false, Option, none, some, [], ◌∷◌, ◌++◌, find, filter, not,
  default, lit, Text, text_eq, arith, Bool-cases, inl, inr,
}
use socket_tester.Json.{Value}
use socket_tester.Session.{error, connected, disconnected, reconnecting}
use mathlib.Core.List.{append-nil}
use socket_tester.Client.Tabs.{ActiveConnection, is_connection}
use socket_tester.Client.Tabs.Topics.{add_tab_topic, remove_tab_topic, add_tab_event, unique}
use socket_tester.Client.Tabs.Found.{find-change_other, find-update_status_other}
use socket_tester.Client.Series.{incoming, get_time_series}
use socket_tester.Client.Series.Figures.{
  get_time_series-record_message, get_time_series-record_error,
}
use socket_tester.Client.Messages.{get_filtered, connection}
use socket_tester.Client.Messages.Feed.{get_filtered-add_message}
use socket_tester.Client.ControlSocket.Payloads.{
  Incoming, opened, messaged, failed, closed, reconnects, ponged, acked, progressed, completed,
  subscribed, unsubscribed, amqp_set_up, event_subscribed, open_text, close_text, reconnecting_text,
  pong_text, ack_text, subscribed_text, unsubscribed_text, amqp_text,
}
use socket_tester.Client.ControlSocket.{
  on_open, on_message, on_error, was_error, on_close, on_reconnecting, on_pong, on_ack, dispatch,
  on_mqtt_subscribed, on_mqtt_unsubscribed, on_amqp_setup, on_socket_io_subscribed, handle,
}
use socket_tester.Client.ControlSocket.Stores.{
  Browser, Stamp, system_message, hear_status, add_system,
}

-- The connection of an event; none for those of a performance test.
unfoldable pub target : Incoming → Option Text
target (opened d) = some d.connection_id
target (messaged d) = some d.connection_id
target (failed d) = some d.connection_id
target (closed d) = some d.connection_id
target (reconnects d) = some d.connection_id
target (ponged d) = some d.connection_id
target (acked d) = some d.connection_id
target (progressed v) = none
target (completed v) = none
target (subscribed d) = some d.connection_id
target (unsubscribed d) = some d.connection_id
target (amqp_set_up d) = some d.connection_id
target (event_subscribed d) = some d.connection_id

unfoldable pub is_target : Text → Incoming → Bool
unfolding target
is_target j ev = elim (target ev) [ none ↦ false | some id ↦ text_eq id j ]

-- What the browser keeps for one connection: its first tab, its figures, and its feed as the store
-- filters it.
pub record SameFor (lower : Text → Text) (j : Text) (b b' : Browser) : Type 0 where
  pub tab : find (is_connection j) b'.tabs.tabs ≡ find (is_connection j) b.tabs.tabs
  pub figures : get_time_series j b'.series ≡ get_time_series j b.series
  pub feed :
      get_filtered lower (connection j) b'.messages ≡ get_filtered lower (connection j) b.messages

add_system_other :
    (lower : Text → Text) (id j shown : Text) (t : Stamp) (b : Browser)
    → text_eq id j ≡ false
    → length b.messages.messages < 1000
    → get_filtered lower (connection j) (add_system id shown t b).messages
      ≡ get_filtered lower (connection j) b.messages
unfolding add_system
add_system_other lower id j shown t b h room =
    get_filtered-add_message lower j (system_message id shown) t.message_id t.now b.messages
    ∙ ground (arith, append-nil (get_filtered lower (connection j) b.messages))

-- An event of another connection, or of none, leaves a connection's first tab and its figures as they
-- are, and its feed too while the message store is not full.
pub handle_other :
    (lower : Text → Text) (stringify : Option Value → Text) (ev : Incoming) (t : Stamp)
    (b : Browser) (j : Text)
    → is_target j ev ≡ false
    → length b.messages.messages < 1000
    → SameFor lower j b (handle stringify ev t b)
unfolding handle is_target on_open on_message on_error on_close was_error on_reconnecting on_pong
    on_ack dispatch on_mqtt_subscribed on_mqtt_unsubscribed on_amqp_setup on_socket_io_subscribed
    hear_status add_tab_topic remove_tab_topic add_tab_event
handle_other lower stringify (opened d) t b j h room = record {
  tab = find-update_status_other d.connection_id j connected b.tabs h;
  figures = refl;
  feed = add_system_other lower d.connection_id j (open_text d) t (b) h room;
}
handle_other lower stringify (messaged d) t b j h room = record {
  tab = refl;
  figures = ground (
    arith,
    get_time_series-record_message d.connection_id j d.direction (default 0 d.size) d.latency t.now
        b.series,
  );
  feed = refl;
}
handle_other lower stringify (failed d) t b j h room = record {
  tab = find-update_status_other d.connection_id j error b.tabs h;
  figures = ground (arith, get_time_series-record_error d.connection_id j t.now b.series);
  feed = add_system_other lower d.connection_id j (lit "Error: " ++ d.message) t (b) h room;
}
handle_other lower stringify (closed d) t b j h room =
    elim (Bool-cases (was_error d.connection_id b.tabs)) [
      | inl e ↦
          rw (e, on_close)
            (record {
              tab = refl;
              figures = refl;
              feed = add_system_other lower d.connection_id j (close_text d) t b h room;
            })
      | inr e ↦
          rw (e, on_close)
            (record {
              tab = find-update_status_other d.connection_id j disconnected b.tabs h;
              figures = refl;
              feed = add_system_other lower d.connection_id j (close_text d) t b h room;
            })
    ]
handle_other lower stringify (reconnects d) t b j h room = record {
  tab = find-update_status_other d.connection_id j reconnecting b.tabs h;
  figures = refl;
  feed = add_system_other lower d.connection_id j (reconnecting_text d) t (b) h room;
}
handle_other lower stringify (ponged d) t b j h room = record {
  tab = refl;
  figures = ground (
    arith,
    get_time_series-record_message d.connection_id j incoming 0 (some d.latency) t.now b.series,
  );
  feed = add_system_other lower d.connection_id j (pong_text d) t (b) h room;
}
handle_other lower stringify (acked d) t b j h room = record {
  tab = refl;
  figures = refl;
  feed = add_system_other lower d.connection_id j (ack_text stringify d) t (b) h room;
}
handle_other lower stringify (progressed v) t b j h room = record {
  tab = refl;
  figures = refl;
  feed = refl;
}
handle_other lower stringify (completed v) t b j h room = record {
  tab = refl;
  figures = refl;
  feed = refl;
}
handle_other lower stringify (subscribed d) t b j h room = record {
  tab =
      find-change_other d.connection_id
        (λ (c : ActiveConnection). record c {
          mqtt_topics = some (unique (default [] c.mqtt_topics ++ d.topic ∷ []));
        })
        (λ c. refl) j b.tabs.tabs h;
  figures = refl;
  feed = add_system_other lower d.connection_id j (subscribed_text d) t (b) h room;
}
handle_other lower stringify (unsubscribed d) t b j h room = record {
  tab =
      find-change_other d.connection_id
        (λ (c : ActiveConnection). record c {
          mqtt_topics = some (filter (λ x. not (text_eq x d.topic)) (default [] c.mqtt_topics));
        })
        (λ c. refl) j b.tabs.tabs h;
  figures = refl;
  feed = add_system_other lower d.connection_id j (unsubscribed_text d) t (b) h room;
}
handle_other lower stringify (amqp_set_up d) t b j h room = record {
  tab = refl;
  figures = refl;
  feed = add_system_other lower d.connection_id j (amqp_text d) t (b) h room;
}
handle_other lower stringify (event_subscribed d) t b j h room = record {
  tab =
      find-change_other d.connection_id
        (λ (c : ActiveConnection). record c {
          socketio_events = some (unique (default [] c.socketio_events ++ d.event_name ∷ []));
        })
        (λ c. refl) j b.tabs.tabs h;
  figures = refl;
  feed = refl;
}
