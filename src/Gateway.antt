-- ===== src/Gateway.antt =====
-- src/events/events.gateway.ts: the control channel to the browser.
pub mod Replay
use socket_tester.Base.{ℕ, Option, none, some, List, [], ◌∷◌, ◌++◌, map, Text, lit, default, modify}
use socket_tester.Json.{Data, num, str}
use socket_tester.Session.{
  ConnectionSession, ConnectionStatus, connected, error, disconnected, idle, connecting,
  reconnecting, Buffered, Sessions, get, topics_of,
}

-- `server.to(room).emit(event, data)`
pub record Emission : Type 0 where
  pub room : Text
  pub event : Text
  pub sent : Data

-- `client.emit(event, data)`, to the one client that joins.
pub record Reply : Type 0 where
  pub event : Text
  pub sent : Data

unfoldable pub room_of : Text → Text
room_of id = lit "conn:" ++ id

unfoldable pub emit_to_connection : Text → Text → Data → List Emission → List Emission
emit_to_connection id event sent emitted =
    emitted ++ record { room = room_of id; event = event; sent = sent } ∷ []

-- What joining does: the room, the replies to the client in order, and the sessions after.
pub record Joined : Type 0 where
  pub room : Text
  pub replies : List Reply
  pub sessions : Sessions

abbrev pub open_reply : Text → ℕ → ConnectionSession → Reply
open_reply id now s = record {
  event = lit "connection:open";
  sent =
      (lit "connectionId", str id) ∷ (lit "timestamp", num (default now s.stats.connected_at)) ∷ [];
}

abbrev pub replay : Buffered → Reply
replay b = record { event = b.event; sent = b.data_sent }

abbrev pub topic_reply : Text → ℕ → ConnectionSession → Text → Reply
topic_reply id now s topic = record {
  event = lit "mqtt:subscribed";
  sent =
      (lit "connectionId", str id)
      ∷ (lit "topic", str topic)
      ∷ (lit "qos", num 0)
      ∷ (lit "timestamp", num (default now s.stats.connected_at))
      ∷ [];
}

pub with_empty_buffer : ConnectionSession → ConnectionSession
with_empty_buffer s = record s { buffered_messages = some [] }

-- `if (session.bufferedMessages?.length) { …; session.bufferedMessages = []; }`
pub clear_buffer : Text → List Buffered → Sessions → Sessions
clear_buffer id [] m = m
clear_buffer id (b ∷ bs) m = modify id with_empty_buffer m

unfoldable pub join_as : ConnectionStatus → Text → ℕ → ConnectionSession → Sessions → Joined
join_as connected id now s m = record {
  room = room_of id;
  replies =
      open_reply id now s
      ∷ (map replay (default [] s.buffered_messages) ++ map (topic_reply id now s) (topics_of s));
  sessions = clear_buffer id (default [] s.buffered_messages) m;
}
join_as error id now s m = record {
  room = room_of id;
  replies =
      record {
        event = lit "connection:error";
        sent =
            (lit "connectionId", str id)
            ∷ (lit "message", str (default (lit "Connection failed") s.last_error))
            ∷ (lit "timestamp", num now)
            ∷ [];
      }
      ∷ [];
  sessions = m;
}
join_as disconnected id now s m = record {
  room = room_of id;
  replies =
      record {
        event = lit "connection:close";
        sent =
            (lit "connectionId", str id)
            ∷ (lit "reason", str (lit "transport close"))
            ∷ (lit "timestamp", num now)
            ∷ [];
      }
      ∷ [];
  sessions = m;
}
join_as _ id now s m = record { room = room_of id; replies = []; sessions = m }

unfoldable pub handle_join_connection : Text → ℕ → Sessions → Joined
handle_join_connection id now m = elim (get id m) [
  | none ↦ record { room = room_of id; replies = []; sessions = m }
  | some s ↦ join_as s.status id now s m
]
