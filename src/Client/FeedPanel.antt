-- ===== src/Client/FeedPanel.antt =====
-- src/client/src/components/messages/MessageFeed.tsx: the export of the shown messages, the list of
-- MQTT topics, and the buttons of the toolbar. `iso` prints a time.
pub mod Csv
use socket_tester.Base.{
  ℕ, Bool, true, false, not, ◌&&◌, Option, none, some, List, [], ◌∷◌, ◌++◌, map, filter, length,
  take, leb, Text, lit, text_eq, truthy, trim, default, decimal, if◌then◌else◌, ◌==◌,
}
use socket_tester.Log.{join_lines}
use socket_tester.Session.{ConnectionType, mqtt}
use socket_tester.Client.Tabs.{ActiveConnection, TabState}
use socket_tester.Client.Tabs.Topics.{add_tab_topic, remove_tab_topic}
use socket_tester.Client.Messages.{
  Message, MessageDirection, sent, received, system, MessageType, text, json, binary, MessageState,
  add_message, clear_messages, get_filtered, Wanted, null, connection, direction_eq,
}
use socket_tester.Client.ControlSocket.Stores.{Stamp, system_message}

-- `s.replace(/"/g, '""')`
unfoldable pub double_quotes : Text → Text
double_quotes [] = []
double_quotes (c ∷ s) = let rest = double_quotes s in if c == 34 then 34 ∷ 34 ∷ rest else c ∷ rest

unfoldable pub quoted : Text → Text
unfolding double_quotes
quoted s = 34 ∷ (double_quotes s ++ 34 ∷ [])

unfoldable pub direction_word : MessageDirection → Text
direction_word sent = lit "sent"
direction_word received = lit "received"
direction_word system = lit "system"

unfoldable pub type_word : MessageType → Text
type_word text = lit "text"
type_word json = lit "json"
type_word binary = lit "binary"

-- `cells.join(',')`
unfoldable pub join_cells : List Text → Text
join_cells [] = []
join_cells (c ∷ []) = c
join_cells (c ∷ d ∷ cs) = c ++ (44 ∷ join_cells (d ∷ cs))

abbrev latency_cell : Option ℕ → Text
latency_cell none = []
latency_cell (some n) = decimal n

unfoldable pub csv_row : (ℕ → Text) → Message → Text
unfolding join_cells quoted direction_word type_word
csv_row iso m = join_cells (
    iso m.timestamp
    ∷ direction_word m.direction
    ∷ type_word m.kind
    ∷ quoted (take 500 m.payload)
    ∷ latency_cell m.latency
    ∷ default [] m.extras.topic
    ∷ default [] m.extras.event_name
    ∷ default [] m.extras.routing_key
    ∷ [])

-- The file that `exportMessagesAsCsv` writes; none without messages.
unfoldable pub export_csv : (ℕ → Text) → List Message → Option Text
unfolding csv_row
export_csv iso [] = none
export_csv iso (m ∷ ms) = some (
    join_lines (
      lit "timestamp,direction,type,payload,latency_ms,topic,eventName,routingKey"
      ∷ map (csv_row iso) (filter (λ x. not (direction_eq x.direction system)) (m ∷ ms))))

-- The feed of the active connection, and the count beside it.
abbrev wanted_by : Option ActiveConnection → Wanted
wanted_by none = null
wanted_by (some c) = connection c.connection_id

unfoldable pub shown_messages :
    (Text → Text) → Option ActiveConnection → MessageState → List Message
shown_messages lower active st = get_filtered lower (wanted_by active) st

unfoldable pub message_count : Option ActiveConnection → MessageState → ℕ
message_count none st = 0
message_count (some c) st =
    if truthy c.connection_id
    then length (filter (λ m. text_eq m.connection_id c.connection_id) st.messages)
    else 0

-- The button that clears the history.
unfoldable pub clear_history : Option ActiveConnection → MessageState → MessageState
clear_history none st = clear_messages none st
clear_history (some c) st = clear_messages (some c.connection_id) st

-- The panel of MQTT topics: what `handleSubscribe` asks for, and what it does when that is answered.
-- Without an id the store changes the connection that is active by then.
unfoldable pub subscribe_request : ActiveConnection → Text → ℕ → Option (Text × Text × ℕ)
subscribe_request c topic qos =
    if truthy (trim topic) && truthy c.connection_id
    then some (c.connection_id, trim topic, qos)
    else none

unfoldable pub subscribe_answered : Text → TabState → Option TabState
subscribe_answered topic st = add_tab_topic (trim topic) none st

unfoldable pub subscribe_failed : ActiveConnection → Stamp → MessageState → MessageState
subscribe_failed c t st =
    add_message (system_message c.connection_id (lit "❌ Subscribe failed")) t.message_id t.now st

unfoldable pub unsubscribe_answered : Text → TabState → Option TabState
unsubscribe_answered topic st = remove_tab_topic topic none st
