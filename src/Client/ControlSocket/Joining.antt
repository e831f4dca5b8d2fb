-- ===== src/Client/ControlSocket/Joining.antt =====
-- What the browser shows for a connection once it has joined its room: the gateway's replies, heard
-- by the handlers of the control channel.
use mathlib.Core.Path.{subst}
use socket_tester.Base.{
  ℕ, ◌≡◌, refl, sym, ap, ◌∙◌, Bool, true, false, Option, none, some, List, [], ◌∷◌, ◌++◌, map, All,
  find, Text, lit, text_eq, lookup, default, is_some, Bool-cases, inl, inr,
}
use socket_tester.Json.{Value, Data}
use socket_tester.Session.{
  ConnectionSession, ConnectionStatus, connected, error, disconnected, idle, connecting,
  reconnecting, Buffered, Sessions, get, topics_of,
}
use socket_tester.Gateway.{Reply, handle_join_connection, join_as, open_reply, replay, topic_reply}
use socket_tester.Client.Tabs.{is_connection}
use socket_tester.Client.Tabs.Topics.{add_tab_topic, unique}
use socket_tester.Client.Tabs.Found.{shows, shows-update_status, shows-change_tabs}
use socket_tester.Client.ControlSocket.Payloads.{CloseData, Incoming}
use socket_tester.Client.ControlSocket.{
  handle, on_open, on_message, on_error, on_close, on_mqtt_subscribed,
}
use socket_tester.Client.ControlSocket.Stores.{Browser, Stamp, hear_status}
use socket_tester.Client.ControlSocket.Failures.{on_close_lem}
use socket_tester.Client.ControlSocket.Decode.{
  ◌>>=◌, decode, hear, hear_reply, message_data, open_data, error_data, close_data, topic_data,
  text_at, direction_of,
}

-- What holds of a decoded event, if there is one.
abbrev Returns {ℓ} : (Incoming → Type ℓ) → Option Incoming → Type ℓ
Returns P none = Unit
Returns P (some ev) = P ev

>>=-Returns {ℓ κ} :
    {A : Type ℓ} (P : Incoming → Type κ) (o : Option A) (f : A → Option Incoming)
    → ((a : A) → Returns P (f a))
    → Returns P (o >>= f)
>>=-Returns P none f h = tt
>>=-Returns P (some a) f h = h a

-- The status that the browser shows after a join: a close does not hide an error.
abbrev pub told : ConnectionStatus → Bool → ConnectionStatus
told disconnected true = error
told st failed = st

-- A status that joining is answered for.
abbrev pub is_told : ConnectionStatus → Bool
is_told connected = true
is_told error = true
is_told disconnected = true
is_told _ = false

module _ (stringify : Option Value → Text) (t : Stamp) where
  abbrev KeepsTabs : Browser → Incoming → Type 0
  KeepsTabs b ev = (handle stringify ev t b).tabs ≡ b.tabs

  message_data-KeepsTabs : (d : Data) (b : Browser) → Returns (KeepsTabs b) (message_data d)
  unfolding message_data handle on_message
  message_data-KeepsTabs d b = >>=-Returns (KeepsTabs b) (text_at (lit "connectionId") d) _ (λ id.
      >>=-Returns (KeepsTabs b) (text_at (lit "payload") d) _ (λ payload.
        >>=-Returns (KeepsTabs b) (text_at (lit "direction") d) _
          (λ word. >>=-Returns (KeepsTabs b) (direction_of word) _ (λ direction. refl))))

  heard-tabs :
      (o : Option Incoming) (b : Browser)
      → Returns (KeepsTabs b) o
      → (elim o as (λ _. Browser) [ none ↦ b | some ev ↦ handle stringify ev t b ]).tabs ≡ b.tabs
  heard-tabs none b h = refl
  heard-tabs (some ev) b h = h

  decode-message : (d : Data) → decode (lit "connection:message") d ≡ message_data d
  unfolding decode text_eq lit
  decode-message d = refl

  -- A replayed message changes no tab.
  hear_replay-tabs :
      (m : Buffered) (b : Browser)
      → m.event ≡ lit "connection:message"
      → (hear_reply stringify t (replay m) b).tabs ≡ b.tabs
  unfolding hear_reply
  hear_replay-tabs m b e =
      let same : decode m.event m.data_sent ≡ message_data m.data_sent =
        ap (λ x. decode x m.data_sent) e ∙ decode-message m.data_sent in
      heard-tabs (decode m.event m.data_sent) b
        (subst (Returns (KeepsTabs b)) (sym same) (message_data-KeepsTabs m.data_sent b))

  hear_replays-tabs :
      (ms : List Buffered) (rest : List Reply) (b : Browser) (id : Text) (st : ConnectionStatus)
      → All (λ m. m.event ≡ lit "connection:message") ms
      → ((c : Browser)
          → shows id st c.tabs ≡ true
          → shows id st (hear stringify t rest c).tabs ≡ true)
      → shows id st b.tabs ≡ true
      → shows id st (hear stringify t (map replay ms ++ rest) b).tabs ≡ true
  unfolding hear
  hear_replays-tabs [] rest b id st es keep h = keep b h
  hear_replays-tabs (m ∷ ms) rest b id st (e, es) keep h =
      hear_replays-tabs ms rest (hear_reply stringify t (replay m) b) id st es keep
        (ap (shows id st) (hear_replay-tabs m b e) ∙ h)

  hear_topic-shows :
      (id : Text) (now : ℕ) (s : ConnectionSession) (topic : Text) (b : Browser)
      (st : ConnectionStatus)
      → shows id st (hear_reply stringify t (topic_reply id now s topic) b).tabs
        ≡ shows id st b.tabs
  unfolding hear_reply decode topic_data lookup text_eq lit handle on_mqtt_subscribed add_tab_topic
  hear_topic-shows id now s topic b st =
      shows-change_tabs id id st
        (λ c. record c { mqtt_topics = some (unique (default [] c.mqtt_topics ++ topic ∷ [])) })
        b.tabs (λ c. refl) (λ c. refl)

  hear_topics-shows :
      (topics : List Text) (id : Text) (now : ℕ) (s : ConnectionSession) (st : ConnectionStatus)
      (b : Browser)
      → shows id st b.tabs ≡ true
      → shows id st (hear stringify t (map (topic_reply id now s) topics) b).tabs ≡ true
  unfolding hear
  hear_topics-shows [] id now s st b h = h
  hear_topics-shows (topic ∷ topics) id now s st b h =
      hear_topics-shows topics id now s st (hear_reply stringify t (topic_reply id now s topic) b)
        (hear_topic-shows id now s topic b st ∙ h)

  on_close-shows :
      (d : CloseData) (b : Browser)
      → is_some (find (is_connection d.connection_id) b.tabs.tabs) ≡ true
      → shows d.connection_id
          (told disconnected (shows d.connection_id error b.tabs))
          (on_close d t b).tabs
        ≡ true
  unfolding hear_status
  on_close-shows d b there =
      let id = d.connection_id in
      let tabs = (on_close_lem d t b).0 in
      elim (Bool-cases (shows id error b.tabs)) [
        | inl e ↦ rw e (ap (shows id error) (rw e at tabs) ∙ e)
        | inr e ↦ rw e (
            ap (shows id disconnected) (rw e at tabs)
            ∙ shows-update_status id disconnected b.tabs there)
      ]

  join_as-shows :
      (st : ConnectionStatus) (id : Text) (now : ℕ) (s : ConnectionSession) (m : Sessions)
      (b : Browser)
      → is_told st ≡ true
      → All (λ x. x.event ≡ lit "connection:message") (default [] s.buffered_messages)
      → is_some (find (is_connection id) b.tabs.tabs) ≡ true
      → shows id
          (told st (shows id error b.tabs))
          (hear stringify t (join_as st id now s m).replies b).tabs
        ≡ true
  unfolding join_as hear hear_reply decode open_data error_data close_data lookup text_eq lit handle
      on_open on_error hear_status
  join_as-shows connected id now s m b k es there =
      hear_replays-tabs (default [] s.buffered_messages) (map (topic_reply id now s) (topics_of s))
        (hear_reply stringify t (open_reply id now s) b) id connected es
        (λ c h. hear_topics-shows (topics_of s) id now s connected c h)
        (shows-update_status id connected b.tabs there)
  join_as-shows error id now s m b k es there = shows-update_status id error b.tabs there
  join_as-shows disconnected id now s m b k es there = on_close-shows _ b there
  join_as-shows idle id now s m b k es there = cc
  join_as-shows connecting id now s m b k es there = cc
  join_as-shows reconnecting id now s m b k es there = cc

  -- A browser with a tab of a connection that is connected, in error or disconnected on the server
  -- shows this status once it has heard the answer to its join, also where the answer replays messages
  -- and topics; only a close does not hide an error that the tab shows already.
  pub join_tells_status :
      (id : Text) (now : ℕ) (m : Sessions) (s : ConnectionSession) (b : Browser)
      → get id m ≡ some s
      → is_told s.status ≡ true
      → All (λ x. x.event ≡ lit "connection:message") (default [] s.buffered_messages)
      → is_some (find (is_connection id) b.tabs.tabs) ≡ true
      → shows id
          (told s.status (shows id error b.tabs))
          (hear stringify t (handle_join_connection id now m).replies b).tabs
        ≡ true
  unfolding handle_join_connection
  join_tells_status id now m s b e k es there =
      rw (e, handle_join_connection) (join_as-shows s.status id now s m b k es there)
