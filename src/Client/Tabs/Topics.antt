-- ===== src/Client/Tabs/Topics.antt =====
-- src/client/src/stores/connectionStore.ts: the topics and events that a tab lists.
use socket_tester.Base.{
  Option, none, some, List, [], ◌∷◌, ◌++◌, filter, any, Bool, true, false, not, Text, text_eq,
  default, if◌then◌else◌,
}
use socket_tester.Client.Tabs.{
  ActiveConnection, ConnectionTab, TabState, connection_at, change_tabs,
}

-- `[...new Set(xs)]`: the first of equal texts stays.
unfoldable unique_after : List Text → List Text → List Text
unique_after seen [] = []
unique_after seen (x ∷ xs) =
    let later = unique_after (x ∷ seen) xs in
    if any (text_eq x) seen then unique_after seen xs else x ∷ later

unfoldable pub unique : List Text → List Text
unfolding unique_after
unique xs = unique_after [] xs

-- `connectionId ?? state.activeConnection?.connectionId`
abbrev pub target_of : Option Text → TabState → Option Text
target_of (some id) st = some id
target_of none st = elim st.active_connection [ none ↦ none | some c ↦ some c.connection_id ]

abbrev pub is_unconnected : ConnectionTab → Bool
is_unconnected t = elim t.connection [ none ↦ true | some c ↦ false ]

-- Without a target the tabs without a connection match, and reading their topics throws.
abbrev pub change_target :
    Option Text → (ActiveConnection → ActiveConnection) → TabState → Option TabState
change_target id f st = elim (target_of id st) [
  | some target ↦ some (change_tabs target f st)
  | none ↦
      if any is_unconnected st.tabs
      then none
      else some (record st { active_connection = connection_at st.active_tab_id st.tabs })
]

unfoldable pub add_tab_topic : Text → Option Text → TabState → Option TabState
unfolding unique
add_tab_topic topic id st =
    change_target id
      (λ c. record c { mqtt_topics = some (unique (default [] c.mqtt_topics ++ topic ∷ [])) }) st

unfoldable pub remove_tab_topic : Text → Option Text → TabState → Option TabState
remove_tab_topic topic id st =
    change_target id
      (λ c. record c {
        mqtt_topics = some (filter (λ x. not (text_eq x topic)) (default [] c.mqtt_topics));
      })
      st

unfoldable pub add_tab_event : Text → Option Text → TabState → Option TabState
unfolding unique
add_tab_event event id st =
    change_target id
      (λ c. record c {
        socketio_events = some (unique (default [] c.socketio_events ++ event ∷ []));
      })
      st
