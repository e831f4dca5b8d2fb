-- ===== src/Client/ControlSocket/Stores.antt =====
-- src/client/src/hooks/useControlSocket.ts: the stores that the handlers change, and the calls that they share.
use socket_tester.Base.{ℕ, none, some, List, Text}
use socket_tester.Json.{Value, Data}
use socket_tester.Session.{ConnectionStatus}
use socket_tester.Log.{LogLevel}
use socket_tester.Client.Tabs.{TabState, update_status_by_connection_id}
use socket_tester.Client.Series.{StatsState}
use socket_tester.Client.Messages.{MessageState, NewMessage, system, text, no_extras, add_message}
use socket_tester.Client.Entries.{EntryState, add_entry}
use socket_tester.Client.Notifications.{ToastState, ToastType, add_toast}

-- A message that `setTimeout` adds to the feed 100 ms after it arrived.
pub record Delayed : Type 0 where
  pub due : ℕ
  pub message : NewMessage

-- `perf:progress` and `perf:complete` events of the window.
pub record WindowEvent : Type 0 where
  pub name : Text
  pub detail : Value

pub record Browser : Type 0 where
  pub tabs : TabState
  pub messages : MessageState
  pub series : StatsState
  pub entries : EntryState
  pub toasts : ToastState
  pub delayed : List Delayed
  pub dispatched : List WindowEvent

-- `Date.now()` and the fresh ids of one handler's message and toast.
pub record Stamp : Type 0 where
  pub now : ℕ
  pub message_id : Text
  pub toast_id : Text

unfoldable pub hear_status : Text → ConnectionStatus → Browser → Browser
hear_status id status b = record b { tabs = update_status_by_connection_id id status b.tabs }

abbrev pub system_message : Text → Text → NewMessage
system_message id shown = record {
  connection_id = id;
  payload = shown;
  direction = system;
  kind = text;
  size = some 0;
  latency = none;
  extras = no_extras;
}

-- `addMessage(cid, text, 'system', 'text', 0)`
unfoldable pub add_system : Text → Text → Stamp → Browser → Browser
add_system id shown t b = record b {
  messages = add_message (system_message id shown) t.message_id t.now b.messages;
}

-- `addLog({ connectionId, level, event, metadata })`
unfoldable pub add_log : Text → LogLevel → Text → Data → Stamp → Browser → Browser
add_log id level event metadata t b = record b {
  entries =
      add_entry
        (record {
          connection_id = id;
          level = level;
          event = event;
          direction = none;
          payload = none;
          payload_size = none;
          latency = none;
          metadata = some metadata;
        })
        t.now b.entries;
}

unfoldable pub notify : Text → ToastType → Stamp → Browser → Browser
notify message kind t b = record b { toasts = add_toast message kind t.toast_id t.now b.toasts }
