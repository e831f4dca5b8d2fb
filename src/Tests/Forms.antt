-- ===== src/Tests/Forms.antt =====
-- The connection form, the composer and the import of files.
use socket_tester.Base.{
  split_on, ◌+◌, ◌-◌, ◌≡◌, refl, ◌∷◌, [], none, some, true, false, find, take, length, Text, lit,
  text_eq, trim, is_some, arith, starts_with, Option,
}
use socket_tester.Json.{Fields, null}
use socket_tester.Session.{websocket, mqtt, connected}
use socket_tester.Client.Tabs.{
  status_eq, TabState, initial_tabs, add_tab, has_id, connection_at, create_tab, ActiveConnection,
}
use socket_tester.Client.Messages.{no_extras, no_messages, text, sent, add_message}
use socket_tester.Client.ControlSocket.Stores.{Stamp}
use socket_tester.Client.Configs.{no_auth, Draft, SavedConfigs, no_config, max_configs}
use socket_tester.Client.Form.{build_headers, Form, build_config, fill_in, address, address_error}
use socket_tester.Client.Form.RoundTrip.{build_config-fill_in}
use socket_tester.Client.Form.Connect.{
  Page, Pending, create_websocket, created, connecting_to, begin_connect, finish_connect,
  request_of,
}
use socket_tester.Client.Form.Attempts.{finish_connect_lem}
use socket_tester.Client.Import.{ImportState, handle_import}
use socket_tester.Client.Import.Selection.{made, handle_import_lem}
use socket_tester.WebSocket.{text_message, byte_length}
use socket_tester.Client.Composer.{
  send_websocket, payload_error, Composer, ParsedText, parsed, Sending, plan,
}
use socket_tester.Client.Composer.Flow.{Desk, begin_send, finish_send, can_send}
use socket_tester.Client.Composer.Outcomes.{finish_send_lem}

abbrev form : Form
form = record {
  protocol = websocket;
  url = lit " ws://h ";
  headers = [];
  wss_protocols = lit "a, b";
  namespace = [];
  sio_path = [];
  auth_json = [];
  auto_reconnect = false;
  reconnect_attempts = 3;
  reconnect_delay = 1000;
  transports = [];
  broker_url = [];
  mqtt_client_id = [];
  mqtt_username = [];
  mqtt_password = [];
  keepalive = 60;
  clean_session = true;
  mqtt_subscribe_all = true;
  amqp_url = [];
  amqp_vhost = lit "/";
  amqp_username = [];
  amqp_password = [];
  amqp_heartbeat = 60;
  auth_type = no_auth;
  bearer_token = [];
  api_key_name = [];
  api_key_value = [];
  basic_user = [];
  basic_pass = [];
  form_error = none;
  is_submitting = false;
}

build_config-fill_in_example :
    (build_config websocket (fill_in websocket (build_config websocket form) form)
      ≡ build_config websocket form)
    × (address websocket (fill_in websocket (build_config websocket form) form)
        ≡ address websocket form)
build_config-fill_in_example = build_config-fill_in websocket form form refl

abbrev btoa : Text → Text
btoa s = s

abbrev parse_auth : Text → Option (Option Fields)
parse_auth s = none

abbrev stamp : Stamp
stamp = record { now = 5000; message_id = lit "m"; toast_id = lit "t" }

abbrev two_tabs : TabState
two_tabs = add_tab websocket (lit "b") (initial_tabs (lit "a"))

abbrev page : Page
page = record { form = form; tabs = initial_tabs (lit "a"); messages = no_messages }

abbrev pending : Pending
pending = record {
  protocol = websocket;
  display_url = lit "ws://h";
  request =
      create_websocket
        (record { url = lit "ws://h"; headers = none; protocols = some (lit "a" ∷ lit "b" ∷ []) });
}

under_way : (begin_connect btoa parse_auth stamp page).1 ≡ some pending
unfolding begin_connect address address_error request_of trim lit starts_with build_headers split_on
under_way = refl

b_there : is_some (find (has_id two_tabs.active_tab_id) two_tabs.tabs) ≡ true
unfolding add_tab initial_tabs create_tab text_eq lit
b_there = refl

not_a : text_eq two_tabs.active_tab_id (lit "a") ≡ false
unfolding add_tab initial_tabs create_tab text_eq lit
not_a = refl

-- The user opens another tab while the request is under way, and this tab gets the connection.
finish_connect_lem_example :
    let waiting = record (begin_connect btoa parse_auth stamp page).0 { tabs = two_tabs } in
    let done = finish_connect btoa parse_auth pending (created (lit "c")) stamp waiting in
    (connection_at two_tabs.active_tab_id done.tabs.tabs
      ≡ some (connecting_to (lit "c") (address websocket form) websocket))
    × (find (has_id (lit "a")) done.tabs.tabs ≡ find (has_id (lit "a")) two_tabs.tabs)
    × (done.form.is_submitting ≡ false)
finish_connect_lem_example =
    finish_connect_lem btoa parse_auth stamp stamp page pending two_tabs (lit "c") (lit "a")
      under_way b_there not_a

abbrev draft : Draft
draft = record { name = lit "d"; protocol = mqtt; config = no_config }

abbrev dialog : ImportState
dialog = record { preview = draft ∷ draft ∷ []; selected = 1 ∷ []; import_error = none }

abbrev none_saved : SavedConfigs
none_saved = record { configs = []; pending_load = none; stored = none; alerts = 0 }

handle_import_lem_example :
    let new = made (λ i. lit "x") 5 (1 ∷ []) 0 (draft ∷ draft ∷ []) in
    let after = handle_import (λ cs. lit "[]") (λ i. lit "x") 5 dialog none_saved in
    (after.configs ≡ take max_configs new) × (after.alerts ≡ 0 + (0 + length new - max_configs))
handle_import_lem_example =
    handle_import_lem (λ cs. lit "[]") (λ i. lit "x") 5 dialog none_saved (omega arith)

abbrev composer : Composer
composer = record {
  payload = lit " hi";
  kind = text;
  is_sending = false;
  json_error = none;
  event_name = lit "message";
  ack = false;
  mqtt_topic = [];
  mqtt_qos = 0;
  mqtt_retain = false;
  amqp_exchange = [];
  amqp_routing_key = [];
  templates = [];
  stored_templates = none;
  show_templates = false;
  tpl_name = [];
  show_save_tpl = false;
}

abbrev desk : Desk
desk = record { composer = composer; messages = no_messages }

abbrev parse : Text → ParsedText
parse s = parsed null

abbrev open_connection : ActiveConnection
open_connection = record (connecting_to (lit "c") (lit "ws://h") websocket) { status = connected }

abbrev hi : Sending
hi = record {
  connection_id = lit "c";
  request = send_websocket (record { payload = lit "hi"; kind = text_message });
  message = record {
    connection_id = lit "c";
    payload = lit "hi";
    direction = sent;
    kind = text;
    size = some 2;
    latency = none;
    extras = no_extras;
  };
}

hi_under_way : (begin_send parse (some open_connection) stamp desk).1 ≡ some hi
unfolding begin_send can_send status_eq payload_error plan trim lit byte_length
hi_under_way = refl

finish_send_lem_example :
    ((begin_send parse (some open_connection) stamp desk).0.messages ≡ no_messages)
    × (lit "hi" ≡ trim (lit " hi"))
    × (lit "c" ≡ lit "c")
    × ((finish_send hi none stamp desk).messages
        ≡ add_message hi.message (lit "m") 5000 no_messages)
    × (sent ≡ sent)
    × ((finish_send hi none stamp desk).composer.payload ≡ [])
    × ((finish_send hi (some (lit "e")) stamp desk).composer.payload ≡ lit " hi")
finish_send_lem_example =
    finish_send_lem parse open_connection stamp stamp desk desk hi (lit "e") hi_under_way
