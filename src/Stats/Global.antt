-- ===== src/Stats/Global.antt =====
-- The figures over all connections.
use socket_tester.Base.{
  ℕ, ◌+◌, ◌≡◌, refl, ◌∙◌, Option, List, [], ◌∷◌, count, filter, total, Bool, true, false, ◌&&◌,
  Text, text_eq, text_eq_iff, lit, Map, lookup, insert, modify, values, default, arith,
  lookup-insert, length-filter, has,
}
use socket_tester.Session.{
  ConnectionSession, ConnectionType, websocket, socketio, mqtt, amqp, Sessions, with_sent,
  record_message_sent, with_received, with_latency, record_message_received, get_all,
}
use socket_tester.Stats.{is_connected, type_name, count_protocols, get_global_stats}

pub kind_eq : ConnectionType → ConnectionType → Bool
kind_eq websocket websocket = true
kind_eq socketio socketio = true
kind_eq mqtt mqtt = true
kind_eq amqp amqp = true
kind_eq _ _ = false

text_eq-type_name : (a b : ConnectionType) → text_eq (type_name a) (type_name b) ≡ kind_eq a b
unfolding text_eq type_name kind_eq lit
text_eq-type_name websocket websocket = refl
text_eq-type_name websocket _ = refl
text_eq-type_name socketio websocket = refl
text_eq-type_name socketio _ = refl
text_eq-type_name mqtt websocket = refl
text_eq-type_name mqtt _ = refl
text_eq-type_name amqp websocket = refl
text_eq-type_name amqp _ = refl

count_protocols_lem :
    (k : ConnectionType) (by : Map ℕ) (ss : List ConnectionSession)
    → default 0 (lookup (type_name k) (count_protocols by ss))
      ≡ default 0 (lookup (type_name k) by) + count (λ s. kind_eq s.kind k) ss
unfolding count_protocols
count_protocols_lem k by [] = omega arith
count_protocols_lem k by (s ∷ ss) =
    let name = type_name s.kind in
    let grown = default 0 (lookup name by) + 1 in
    ground (
      arith,
      count_protocols_lem k (insert name grown by) ss,
      lookup-insert name (type_name k) grown by,
      text_eq-type_name s.kind k,
      text_eq_iff name (type_name k),
    )

count-filter :
    (p q : ConnectionSession → Bool) (ss : List ConnectionSession)
    → count p (filter q ss) ≡ count (λ s. q s && p s) ss
count-filter p q [] = refl
count-filter p q (s ∷ ss) = ground (arith, count-filter p q ss)

-- How many sessions of a protocol are connected.
abbrev pub connected_by : ConnectionType → Sessions → ℕ
connected_by k m = count (λ s. is_connected s && kind_eq s.kind k) (values m)

connections_by_protocol_lem :
    (k : ConnectionType) (m : Sessions)
    → default 0 (lookup (type_name k) (get_global_stats m).connections_by_protocol)
      ≡ connected_by k m
unfolding get_global_stats get_all lookup
connections_by_protocol_lem k m = omega (
  arith,
  count_protocols_lem k [] (filter is_connected (values m)),
  count-filter (λ s. kind_eq s.kind k) is_connected (values m),
)

by_kind :
    (ss : List ConnectionSession)
    → count is_connected ss
      ≡ count (λ s. is_connected s && kind_eq s.kind websocket) ss
        + count (λ s. is_connected s && kind_eq s.kind socketio) ss
        + count (λ s. is_connected s && kind_eq s.kind mqtt) ss
        + count (λ s. is_connected s && kind_eq s.kind amqp) ss
unfolding kind_eq
by_kind [] = refl
by_kind (s ∷ ss) = ground (arith, by_kind ss)

-- The number of active connections is the sum over the four protocols, and each protocol's entry
-- (absent where there is none) is the number of its connected sessions.
pub get_global_stats_active :
    (m : Sessions)
    → ((get_global_stats m).active_connections
        ≡ connected_by websocket m
          + connected_by socketio m
          + connected_by mqtt m
          + connected_by amqp m)
      × ((k : ConnectionType)
          → default 0 (lookup (type_name k) (get_global_stats m).connections_by_protocol)
            ≡ connected_by k m)
unfolding get_global_stats get_all
get_global_stats_active m = (
  length-filter is_connected (values m) ∙ by_kind (values m),
  (λ k. connections_by_protocol_lem k m),
)

total-modify :
    (f : ConnectionSession → ℕ) (g : ConnectionSession → ConnectionSession) (d : ℕ) (id : Text)
    (m : Sessions)
    → ((s : ConnectionSession) → f (g s) ≡ f s + d)
    → has id m ≡ true
    → total f (values (modify id g m)) ≡ total f (values m) + d
unfolding modify lookup
total-modify f g d id [] h k = cc
total-modify f g d id ((j, s) ∷ m) h k = ground (arith, total-modify f g d id m h, h s)

-- Recording a message on a live session moves the totals of its direction by that message, and no
-- other total.
pub get_global_stats-record_message :
    (id : Text) (bytes : ℕ) (latency : Option ℕ) (m : Sessions)
    → has id m ≡ true
    → let out = get_global_stats (record_message_sent id bytes m) in
      let inn = get_global_stats (record_message_received id bytes latency m) in
      (out.total_messages_sent ≡ (get_global_stats m).total_messages_sent + 1)
      × (out.total_bytes_sent ≡ (get_global_stats m).total_bytes_sent + bytes)
      × (out.total_messages_received ≡ (get_global_stats m).total_messages_received)
      × (out.total_bytes_received ≡ (get_global_stats m).total_bytes_received)
      × (inn.total_messages_sent ≡ (get_global_stats m).total_messages_sent)
      × (inn.total_bytes_sent ≡ (get_global_stats m).total_bytes_sent)
      × (inn.total_messages_received ≡ (get_global_stats m).total_messages_received + 1)
      × (inn.total_bytes_received ≡ (get_global_stats m).total_bytes_received + bytes)
unfolding get_global_stats get_all record_message_sent record_message_received with_sent
    with_received with_latency
get_global_stats-record_message id bytes latency m h = (
  total-modify (λ s. s.stats.messages_sent) (with_sent bytes) 1 id m (λ s. ground arith) h,
  total-modify (λ s. s.stats.bytes_sent) (with_sent bytes) bytes id m (λ s. ground arith) h,
  omega (
    arith,
    total-modify (λ s. s.stats.messages_received) (with_sent bytes) 0 id m (λ s. ground arith) h,
  ),
  omega (
    arith,
    total-modify (λ s. s.stats.bytes_received) (with_sent bytes) 0 id m (λ s. ground arith) h,
  ),
  omega (
    arith,
    total-modify (λ s. s.stats.messages_sent) (with_received bytes latency) 0 id m
        (λ s. ground arith) h,
  ),
  omega (
    arith,
    total-modify (λ s. s.stats.bytes_sent) (with_received bytes latency) 0 id m (λ s. ground arith)
        h,
  ),
  total-modify (λ s. s.stats.messages_received) (with_received bytes latency) 1 id m
      (λ s. ground arith) h,
  total-modify (λ s. s.stats.bytes_received) (with_received bytes latency) bytes id m
      (λ s. ground arith) h,
)
