-- ===== src/Client/Tabs.antt =====
-- src/client/src/stores/connectionStore.ts: the tabs of the browser, each with its connection. An
-- update that throws is `none`; `uuid` is `crypto.randomUUID()`.
pub mod Active
pub mod Found
pub mod Topics
use mathlib.Core.Option
use socket_tester.Base.{
  ℕ, Option, none, some, List, [], ◌∷◌, ◌++◌, map, filter, find, any, last?, length, take, drop,
  leb, ◌==◌, Bool, true, false, not, ◌&&◌, Text, lit, text_eq, starts_with, truthy, default,
  if◌then◌else◌,
}
use socket_tester.Session.{
  ConnectionStatus, ConnectionType, websocket, socketio, mqtt, amqp, idle, connecting, connected,
  disconnected, error, reconnecting,
}

pub record ActiveConnection : Type 0 where
  pub connection_id : Text
  pub url : Text
  pub protocol : ConnectionType
  pub status : ConnectionStatus
  pub connected_at : Option Text
  pub mqtt_topics : Option (List Text)
  pub socketio_events : Option (List Text)

pub record ConnectionTab : Type 0 where
  pub id : Text
  pub label : Text
  pub protocol : ConnectionType
  pub color : Text
  pub connection : Option ActiveConnection

pub record TabState : Type 0 where
  pub tabs : List ConnectionTab
  pub active_tab_id : Text
  pub active_connection : Option ActiveConnection

unfoldable protocol_color : ConnectionType → Text
protocol_color websocket = lit "#3b82f6"
protocol_color socketio = lit "#7c3aed"
protocol_color mqtt = lit "#f59e0b"
protocol_color amqp = lit "#10b981"

unfoldable pub create_tab : ConnectionType → Text → ConnectionTab
unfolding protocol_color
create_tab protocol uuid = record {
  id = uuid;
  label = lit "New Connection";
  protocol = protocol;
  color = protocol_color protocol;
  connection = none;
}

unfoldable pub initial_tabs : Text → TabState
unfolding create_tab
initial_tabs uuid = record {
  tabs = create_tab websocket uuid ∷ [];
  active_tab_id = uuid;
  active_connection = none;
}

abbrev pub has_id : Text → ConnectionTab → Bool
has_id id t = text_eq t.id id

abbrev pub connection_of : Option ConnectionTab → Option ActiveConnection
connection_of none = none
connection_of (some t) = t.connection

-- `tabs.find((t) => t.id === id)?.connection ?? null`
abbrev pub connection_at : Text → List ConnectionTab → Option ActiveConnection
connection_at id tabs = connection_of (find (has_id id) tabs)

unfoldable pub add_tab : ConnectionType → Text → TabState → TabState
unfolding create_tab
add_tab protocol uuid st = if leb 10 (length st.tabs) then st else record {
  tabs = st.tabs ++ create_tab protocol uuid ∷ [];
  active_tab_id = uuid;
  active_connection = none;
}

-- The tab that is active once `id` is closed; `next[next.length - 1]!` is undefined without tabs.
abbrev pub active_after : Text → Text → List ConnectionTab → Option Text
active_after active id next =
    if text_eq active id
    then elim (last? next) [ none ↦ none | some t ↦ some t.id ]
    else some active

unfoldable pub close_tab : Text → TabState → Option TabState
close_tab id st =
    let next = filter (λ t. not (has_id id t)) st.tabs in
    if length st.tabs == 1 then some st else elim (active_after st.active_tab_id id next) [
      | none ↦ none
      | some active ↦ some (record {
        tabs = next;
        active_tab_id = active;
        active_connection = connection_at active next;
      })
    ]

unfoldable pub set_active_tab : Text → TabState → TabState
set_active_tab id st = record st {
  active_tab_id = id;
  active_connection = connection_at id st.tabs;
}

-- `s.replace(/^p/, '')`
abbrev without_prefix : Text → Text → Text
without_prefix p s = if starts_with s p then drop (length p) s else s

-- `/^wss?:\/\//` and then `/^https?:\/\//`; at most one alternative of each matches.
unfoldable pub label_of : Text → Text
label_of url =
    let plain =
      if starts_with url (lit "wss://")
      then without_prefix (lit "wss://") url
      else without_prefix (lit "ws://") url in
    take 32 (
      if starts_with plain (lit "https://")
      then without_prefix (lit "https://") plain
      else without_prefix (lit "http://") plain)

-- The label and the color of a tab with this connection.
unfoldable pub titled : Option ActiveConnection → ConnectionTab → ConnectionTab
unfolding label_of protocol_color
titled none t = record t {
  connection = none;
  label = lit "New Connection";
  color = protocol_color websocket;
}
titled (some c) t = record t {
  connection = some c;
  label = if truthy c.url then label_of c.url else lit "New Connection";
  color = protocol_color c.protocol;
}

unfoldable pub set_connection : Option ActiveConnection → TabState → TabState
unfolding titled
set_connection conn st = record st {
  tabs = map (λ t. if has_id st.active_tab_id t then titled conn t else t) st.tabs;
  active_connection = conn;
}

unfoldable pub update_tab_status : ConnectionStatus → TabState → TabState
update_tab_status status st = elim st.active_connection [
  | none ↦ st
  | some c ↦
      let conn = record c { status = status } in
      record st {
        tabs =
            map (λ t. if has_id st.active_tab_id t then record t { connection = some conn } else t)
              st.tabs;
        active_connection = some conn;
      }
]

unfoldable pub status_eq : ConnectionStatus → ConnectionStatus → Bool
status_eq idle idle = true
status_eq connecting connecting = true
status_eq connected connected = true
status_eq disconnected disconnected = true
status_eq error error = true
status_eq reconnecting reconnecting = true
status_eq _ _ = false

-- `t.connection?.connectionId === id`
abbrev pub is_connection : Text → ConnectionTab → Bool
is_connection id t = elim t.connection [ none ↦ false | some c ↦ text_eq c.connection_id id ]

abbrev pub change_connection :
    Text → (ActiveConnection → ActiveConnection) → ConnectionTab → ConnectionTab
change_connection id f t = elim t.connection [
  | none ↦ t
  | some c ↦ if text_eq c.connection_id id then record t { connection = some (f c) } else t
]

-- The tabs after an update of one connection, and the active connection found again.
abbrev pub change_tabs : Text → (ActiveConnection → ActiveConnection) → TabState → TabState
change_tabs id f st =
    let tabs = map (change_connection id f) st.tabs in
    record st { tabs = tabs; active_connection = connection_at st.active_tab_id tabs }

abbrev pub has_status : ConnectionStatus → ConnectionTab → Bool
has_status status t = elim t.connection [ none ↦ false | some c ↦ status_eq c.status status ]

unfoldable pub update_status_by_connection_id : Text → ConnectionStatus → TabState → TabState
unfolding status_eq
update_status_by_connection_id id status st = elim (find (is_connection id) st.tabs) [
  | none ↦ st
  | some t ↦
      if has_status status t then st else change_tabs id (λ c. record c { status = status }) st
]
