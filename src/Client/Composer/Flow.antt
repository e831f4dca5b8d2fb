-- ===== src/Client/Composer/Flow.antt =====
-- src/client/src/components/messages/MessageComposer.tsx: `handleSend` before and after its `await`,
-- and the templates.
use socket_tester.Base.{
  ℕ, Bool, true, false, not, ◌&&◌, Option, none, some, List, [], ◌∷◌, ◌++◌, filter, Text, lit,
  text_eq, truthy, trim, if◌then◌else◌,
}
use socket_tester.Session.{ConnectionType, socketio, mqtt, connected}
use socket_tester.Client.Tabs.{ActiveConnection, status_eq}
use socket_tester.Client.Messages.{MessageState, add_message}
use socket_tester.Client.ControlSocket.Stores.{Stamp, system_message}
use socket_tester.Client.Composer.{
  Composer, MessageTemplate, ParsedText, Sending, Planned, sends, needs_topic, throws,
  payload_error, plan,
}

-- The composer with the message store that it adds to.
pub record Desk : Type 0 where
  pub composer : Composer
  pub messages : MessageState

-- `isConnected && connectionId && payload.trim()`
unfoldable pub can_send : Option ActiveConnection → Composer → Bool
can_send none c = false
can_send (some a) c =
    status_eq a.status connected && (truthy a.connection_id && truthy (trim c.payload))

-- The `catch` part, and `setIsSending(false)`.
unfoldable pub fail_send : Text → Text → Stamp → Desk → Desk
fail_send id message t d = record {
  composer = record d.composer { is_sending = false };
  messages =
      add_message (system_message id (lit "❌ Send error: " ++ message)) t.message_id t.now
        d.messages;
}

module _ (parse : Text → ParsedText) where
  -- What the plan does up to the request; the composer is sending only while one is under way.
  unfoldable pub carry_out : Text → Planned → Stamp → Desk → Desk × Option Sending
  unfolding fail_send
  carry_out id (sends s) t d =
      (record d { composer = record d.composer { is_sending = true } }, some s)
  carry_out id needs_topic t d = (
    record d {
      composer = record d.composer {
        json_error = some (lit "Topic is required for MQTT");
        is_sending = false;
      };
    },
    none,
  )
  carry_out id (throws message) t d = (fail_send id message t d, none)

  unfoldable pub begin_send : Option ActiveConnection → Stamp → Desk → Desk × Option Sending
  unfolding can_send carry_out
  begin_send none t d = (d, none)
  begin_send (some a) t d =
      let valid = record d { composer = record d.composer { json_error = none } } in
      if can_send (some a) d.composer
      then elim (payload_error parse d.composer) [
        | some message ↦
            (record d { composer = record d.composer { json_error = some message } }, none)
        | none ↦
            carry_out a.connection_id (plan parse a.protocol a.connection_id d.composer) t valid
      ]
      else (d, none)

-- `handleSend` after its `await`; `none` is a request that succeeded, and else its error.
unfoldable pub finish_send : Sending → Option Text → Stamp → Desk → Desk
unfolding fail_send
finish_send s none t d = record {
  composer = record d.composer { payload = []; is_sending = false };
  messages = add_message s.message t.message_id t.now d.messages;
}
finish_send s (some message) t d = fail_send s.connection_id message t d

-- `setTemplates(next); saveTemplates(next)`
unfoldable keep_templates : List MessageTemplate → Composer → Composer
keep_templates next c = record c { templates = next; stored_templates = some next }

abbrev if_protocol : Bool → Text → Option Text
if_protocol true s = some s
if_protocol false s = none

abbrev is_socketio : ConnectionType → Bool
is_socketio socketio = true
is_socketio _ = false

abbrev is_mqtt : ConnectionType → Bool
is_mqtt mqtt = true
is_mqtt _ = false

abbrev template_of : ConnectionType → Text → ℕ → Composer → MessageTemplate
template_of protocol uuid now c = record {
  id = uuid;
  name = trim c.tpl_name;
  payload = trim c.payload;
  kind = c.kind;
  event_name = if_protocol (is_socketio protocol) c.event_name;
  topic = if_protocol (is_mqtt protocol) c.mqtt_topic;
  created_at = now;
}

unfoldable pub save_template : ConnectionType → Text → ℕ → Composer → Composer
unfolding keep_templates
save_template protocol uuid now c =
    if truthy (trim c.tpl_name) && truthy (trim c.payload)
    then record (keep_templates (c.templates ++ template_of protocol uuid now c ∷ []) c) {
      tpl_name = [];
      show_save_tpl = false;
    }
    else c

-- `if (s) set(s)`
abbrev or_kept : Option Text → Text → Text
or_kept none old = old
or_kept (some s) old = if truthy s then s else old

unfoldable pub load_template : MessageTemplate → Composer → Composer
load_template t c = record c {
  payload = t.payload;
  kind = t.kind;
  event_name = or_kept t.event_name c.event_name;
  mqtt_topic = or_kept t.topic c.mqtt_topic;
  show_templates = false;
  json_error = none;
}

unfoldable pub delete_template : Text → Composer → Composer
unfolding keep_templates
delete_template id c = keep_templates (filter (λ t. not (text_eq t.id id)) c.templates) c
