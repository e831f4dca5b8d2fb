-- ===== src/Session/Calls.antt =====
-- A history of calls of `SessionService`, and what each call does to one session.
use mathlib.Core.Option
use socket_tester.Base.{
  ℕ, ◌≡◌, Option, none, some, List, [], ◌∷◌, Text, text_eq, lookup, if◌then◌else◌, lookup-insert,
  lookup-delete, lookup-modify,
}
use socket_tester.Json.{Data}
use socket_tester.Session.{
  ConnectionStatus, ConnectionType, ConnectionSession, Sessions, new_session, create, with_status,
  update_status, with_sent, record_message_sent, with_received, record_message_received, with_error,
  record_error, with_reconnection, increment_reconnection, with_buffered, buffer_message,
  with_topic, add_mqtt_topic, without_topic, remove_mqtt_topic, delete_session,
}

pub data Call : Type 0 where
  creates : Text → Text → ConnectionType → ℕ → Call
  sets_status : Text → ConnectionStatus → Option Text → ℕ → Call
  sends : Text → ℕ → Call
  receives : Text → ℕ → Option ℕ → Call
  fails reconnects deletes : Text → Call
  buffers : Text → Text → Data → Call
  adds_topic removes_topic : Text → Text → Call

unfoldable pub step : Sessions → Call → Sessions
step m (creates id url kind now) = create id url kind now m
step m (sets_status id status message now) = update_status id status message now m
step m (sends id bytes) = record_message_sent id bytes m
step m (receives id bytes latency) = record_message_received id bytes latency m
step m (fails id) = record_error id m
step m (reconnects id) = increment_reconnection id m
step m (deletes id) = delete_session id m
step m (buffers id event sent) = buffer_message id event sent m
step m (adds_topic id topic) = add_mqtt_topic id topic m
step m (removes_topic id topic) = remove_mqtt_topic id topic m

unfoldable pub run : Sessions → List Call → Sessions
run m [] = m
run m (c ∷ cs) = run (step m c) cs

-- The connection that a call names.
abbrev pub subject : Call → Text
subject (creates id url kind now) = id
subject (sets_status id status message now) = id
subject (sends id bytes) = id
subject (receives id bytes latency) = id
subject (fails id) = id
subject (reconnects id) = id
subject (deletes id) = id
subject (buffers id event sent) = id
subject (adds_topic id topic) = id
subject (removes_topic id topic) = id

-- What becomes of the session that the call names.
unfoldable pub effect : Call → Option ConnectionSession → Option ConnectionSession
effect (creates id url kind now) o = some (new_session id url kind now)
effect (sets_status id status message now) o = Option.map (with_status status message now) o
effect (sends id bytes) o = Option.map (with_sent bytes) o
effect (receives id bytes latency) o = Option.map (with_received bytes latency) o
effect (fails id) o = Option.map with_error o
effect (reconnects id) o = Option.map with_reconnection o
effect (deletes id) o = none
effect (buffers id event sent) o =
    Option.map (with_buffered (record { event = event; data_sent = sent })) o
effect (adds_topic id topic) o = Option.map (with_topic topic) o
effect (removes_topic id topic) o = Option.map (without_topic topic) o

pub lookup-step :
    (j : Text) (m : Sessions) (c : Call)
    → lookup j (step m c) ≡ (if text_eq (subject c) j then effect c (lookup j m) else lookup j m)
unfolding step effect create update_status record_message_sent record_message_received record_error
    increment_reconnection delete_session buffer_message add_mqtt_topic remove_mqtt_topic
lookup-step j m (creates id url kind now) = lookup-insert id j _ m
lookup-step j m (sets_status id status message now) = lookup-modify id j _ m
lookup-step j m (sends id bytes) = lookup-modify id j _ m
lookup-step j m (receives id bytes latency) = lookup-modify id j _ m
lookup-step j m (fails id) = lookup-modify id j _ m
lookup-step j m (reconnects id) = lookup-modify id j _ m
lookup-step j m (deletes id) = lookup-delete id j m
lookup-step j m (buffers id event sent) = lookup-modify id j _ m
lookup-step j m (adds_topic id topic) = lookup-modify id j _ m
lookup-step j m (removes_topic id topic) = lookup-modify id j _ m
