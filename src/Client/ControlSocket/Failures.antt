-- ===== src/Client/ControlSocket/Failures.antt =====
-- An error that the browser shows for a connection outlives the close that follows it.
use mathlib.Core.Path.{subst}
use socket_tester.Base.{
  ◌≡◌, refl, sym, ◌∙◌, ap, true, false, Option, some, List, [], ◌∷◌, ◌++◌, All, find, filter, not,
  default, Text, lit, text_eq, text_eq_iff, is_some, if◌then◌else◌, arith, Bool-cases, inl, inr,
}
use socket_tester.Json.{Value}
use socket_tester.Session.{error, connected, disconnected, reconnecting}
use socket_tester.Client.Notifications.{warning}
use socket_tester.Client.Tabs.{is_connection}
use socket_tester.Client.Tabs.Topics.{add_tab_topic, remove_tab_topic, add_tab_event, unique}
use socket_tester.Client.Tabs.Found.{
  find-update_status_other, shows, shows-update_status, shows-change_tabs,
}
use socket_tester.Client.ControlSocket.Payloads.{
  ErrorData, CloseData, Incoming, opened, messaged, failed, closed, reconnects, ponged, acked,
  progressed, completed, subscribed, unsubscribed, amqp_set_up, event_subscribed,
}
use socket_tester.Client.ControlSocket.{
  on_open, on_message, on_error, was_error, on_close, on_reconnecting, on_pong, on_ack, dispatch,
  on_mqtt_subscribed, on_mqtt_unsubscribed, on_amqp_setup, on_socket_io_subscribed, handle,
}
use socket_tester.Client.ControlSocket.Stores.{Browser, Stamp, hear_status, notify}

-- The handlers run one after another.
unfoldable pub run : (Option Value → Text) → List (Incoming × Stamp) → Browser → Browser
run stringify [] b = b
run stringify ((ev, t) ∷ evs) b = run stringify evs (handle stringify ev t b)

-- Not the news that this connection is open or reconnects.
abbrev pub IsNoRevival : Text → Incoming → Type 0
IsNoRevival j (opened d) = text_eq d.connection_id j ≡ false
IsNoRevival j (reconnects d) = text_eq d.connection_id j ≡ false
IsNoRevival j _ = Unit {0}

shows-update_other :
    (id j : Text) (b : Browser)
    → text_eq id j ≡ false
    → shows j error b.tabs ≡ true
    → (shows j error (hear_status id connected b).tabs ≡ true)
      × (shows j error (hear_status id reconnecting b).tabs ≡ true)
      × (shows j error (hear_status id disconnected b).tabs ≡ true)
      × (shows j error (hear_status id error b).tabs ≡ true)
unfolding hear_status
shows-update_other id j b h s = (
  ground (arith, find-update_status_other id j connected b.tabs h),
  ground (arith, find-update_status_other id j reconnecting b.tabs h),
  ground (arith, find-update_status_other id j disconnected b.tabs h),
  ground (arith, find-update_status_other id j error b.tabs h),
)

shows-error :
    (id j : Text) (b : Browser)
    → shows j error b.tabs ≡ true
    → shows j error (hear_status id error b).tabs ≡ true
unfolding hear_status
shows-error id j b s = elim (Bool-cases (text_eq id j)) [
  | inl e ↦
      let there : is_some (find (is_connection j) b.tabs.tabs) ≡ true = ground arith in
      subst (λ k. shows j error (hear_status k error b).tabs ≡ true) (sym ((text_eq_iff id j).0 e))
        (shows-update_status j error b.tabs there)
  | inr e ↦ (shows-update_other id j b e s).3
]

-- A close changes the tab's status and warns unless the connection is in error.
pub on_close_lem :
    (d : CloseData) (t : Stamp) (b : Browser)
    → let was = shows d.connection_id error b.tabs in
      ((on_close d t b).tabs
        ≡ (if was then b.tabs else (hear_status d.connection_id disconnected b).tabs))
      × ((on_close d t b).toasts
          ≡ (if was then b.toasts else (notify (lit "Connection closed") warning t b).toasts))
unfolding on_close was_error hear_status notify
on_close_lem d t b = ground arith

differs :
    (id j : Text) (b : Browser)
    → shows j error b.tabs ≡ true
    → shows id error b.tabs ≡ false
    → text_eq id j ≡ false
differs id j b s e = elim (Bool-cases (text_eq id j)) [
  | inl k ↦
      let same : shows j error b.tabs ≡ false =
        subst (λ x. shows x error b.tabs ≡ false) ((text_eq_iff id j).0 k) e in
      cc
  | inr k ↦ k
]

on_close-shows_error :
    (j : Text) (d : CloseData) (t : Stamp) (b : Browser)
    → shows j error b.tabs ≡ true
    → shows j error (on_close d t b).tabs ≡ true
on_close-shows_error j d t b s =
    let id = d.connection_id in
    let tabs = (on_close_lem d t b).0 in
    elim (Bool-cases (shows id error b.tabs)) [
      | inl e ↦ ap (shows j error) (rw e at tabs) ∙ s
      | inr e ↦
          ap (shows j error) (rw e at tabs) ∙ (shows-update_other id j b (differs id j b s e) s).2
    ]

handle-keeps_error :
    (stringify : Option Value → Text) (ev : Incoming) (t : Stamp) (j : Text) (b : Browser)
    → IsNoRevival j ev
    → shows j error b.tabs ≡ true
    → shows j error (handle stringify ev t b).tabs ≡ true
unfolding handle on_open on_message on_error on_reconnecting on_pong on_ack dispatch
    on_mqtt_subscribed on_mqtt_unsubscribed on_amqp_setup on_socket_io_subscribed add_tab_topic
    remove_tab_topic add_tab_event
handle-keeps_error stringify (opened d) t j b q s = (shows-update_other d.connection_id j b q s).0
handle-keeps_error stringify (reconnects d) t j b q s =
    (shows-update_other d.connection_id j b q s).1
handle-keeps_error stringify (failed d) t j b q s = shows-error d.connection_id j b s
handle-keeps_error stringify (closed d) t j b q s = on_close-shows_error j d t b s
handle-keeps_error stringify (subscribed d) t j b q s =
    shows-change_tabs d.connection_id j error
      (λ c. record c { mqtt_topics = some (unique (default [] c.mqtt_topics ++ d.topic ∷ [])) })
      b.tabs (λ c. refl) (λ c. refl)
    ∙ s
handle-keeps_error stringify (unsubscribed d) t j b q s =
    shows-change_tabs d.connection_id j error
      (λ c. record c {
        mqtt_topics = some (filter (λ x. not (text_eq x d.topic)) (default [] c.mqtt_topics));
      })
      b.tabs (λ c. refl) (λ c. refl)
    ∙ s
handle-keeps_error stringify (event_subscribed d) t j b q s =
    shows-change_tabs d.connection_id j error
      (λ c. record c {
        socketio_events = some (unique (default [] c.socketio_events ++ d.event_name ∷ []));
      })
      b.tabs (λ c. refl) (λ c. refl)
    ∙ s
handle-keeps_error stringify (messaged d) t j b q s = s
handle-keeps_error stringify (ponged d) t j b q s = s
handle-keeps_error stringify (acked d) t j b q s = s
handle-keeps_error stringify (progressed v) t j b q s = s
handle-keeps_error stringify (completed v) t j b q s = s
handle-keeps_error stringify (amqp_set_up d) t j b q s = s

run-keeps_error :
    (stringify : Option Value → Text) (evs : List (Incoming × Stamp)) (j : Text) (b : Browser)
    → All (λ e. IsNoRevival j e.0) evs
    → shows j error b.tabs ≡ true
    → shows j error (run stringify evs b).tabs ≡ true
unfolding run
run-keeps_error stringify [] j b q s = s
run-keeps_error stringify ((ev, t) ∷ evs) j b (q, qs) s =
    run-keeps_error stringify evs j (handle stringify ev t b) qs
      (handle-keeps_error stringify ev t j b q s)

on_error-shows_error :
    (d : ErrorData) (t : Stamp) (b : Browser)
    → is_some (find (is_connection d.connection_id) b.tabs.tabs) ≡ true
    → shows d.connection_id error (on_error d t b).tabs ≡ true
unfolding on_error hear_status
on_error-shows_error d t b h = shows-update_status d.connection_id error b.tabs h

-- Once the browser hears of an error of a connection that a tab has, the tab shows the error through
-- all later events, of whatever connection, but the news that this connection is open or reconnects;
-- and a close of the connection then changes neither the tabs nor the toasts.
pub error_outlives_close :
    (stringify : Option Value → Text) (d : ErrorData) (t : Stamp) (b : Browser)
    (evs : List (Incoming × Stamp)) (c : CloseData) (u : Stamp)
    → is_some (find (is_connection d.connection_id) b.tabs.tabs) ≡ true
    → All (λ e. IsNoRevival d.connection_id e.0) evs
    → c.connection_id ≡ d.connection_id
    → let later = run stringify evs (on_error d t b) in
      (shows d.connection_id error later.tabs ≡ true)
      × ((on_close c u later).tabs ≡ later.tabs)
      × ((on_close c u later).toasts ≡ later.toasts)
error_outlives_close stringify d t b evs c u h q e =
    let later = run stringify evs (on_error d t b) in
    let failed_still : shows d.connection_id error later.tabs ≡ true =
      run-keeps_error stringify evs d.connection_id (on_error d t b) q
        (on_error-shows_error d t b h) in
    let same : shows c.connection_id error later.tabs ≡ true =
      subst (λ k. shows k error later.tabs ≡ true) (sym e) failed_still in
    let (tabs, toasts) = on_close_lem c u later in
    (failed_still, rw same at tabs, rw same at toasts)
