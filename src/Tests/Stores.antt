-- ===== src/Tests/Stores.antt =====
-- The browser's stores.
use socket_tester.Base.{
  ◌≡◌, ◌≢◌, ◌⊎◌, refl, Option, none, some, List, [], ◌∷◌, All, true, false, find, truthy, includes,
  Text, lit, text_eq, arith, starts_with,
}
use socket_tester.Session.{websocket, mqtt, connected}
use socket_tester.Client.Tabs.{
  TabState, ActiveConnection, initial_tabs, add_tab, set_connection, has_id, create_tab,
}
use socket_tester.Client.Tabs.Active.{IsSound, start, next, adds, connects, Reach-IsSound}
use socket_tester.Client.Workspaces.{
  Workspace, Stored, WorkspaceState, load_from_storage, create_workspace, default_workspace,
  persist,
}
use socket_tester.Client.Workspaces.Storage
use socket_tester.Client.Workspaces.Storage.{Reloads, load_from_storage-Reach, creates}

abbrev connection : ActiveConnection
connection = record {
  connection_id = lit "c";
  url = lit "wss://h/x";
  protocol = websocket;
  status = connected;
  connected_at = none;
  mqtt_topics = none;
  socketio_events = none;
}

abbrev first_tab : TabState
first_tab = initial_tabs (lit "a")

abbrev two_tabs : TabState
two_tabs = add_tab mqtt (lit "b") first_tab

fresh_b : find (has_id (lit "b")) first_tab.tabs ≡ none
unfolding initial_tabs create_tab text_eq lit
fresh_b = refl

Reach-IsSound_example : IsSound (set_connection (some connection) two_tabs)
Reach-IsSound_example = Reach-IsSound (
    next (next (start (lit "a")) (adds mqtt (lit "b") first_tab fresh_b))
      (connects (some connection) two_tabs))

abbrev named : WorkspaceState
named = record {
  workspaces = default_workspace (lit "w") 10 ∷ [];
  active_id = lit "w";
  stored = record { workspaces = none; active = none };
}

no_braces : includes (lit "wss://h") (lit "{{") ≡ false
unfolding includes starts_with lit
no_braces = refl

scheme_plain : All (λ c. c ≢ 123) (lit "ws:")
unfolding lit
scheme_plain = ((λ h. omega arith), ((λ h. omega arith), ((λ h. omega arith), tt)))

abbrev two_workspaces : List Workspace
two_workspaces =
    default_workspace (lit "w") 10
    ∷ record (default_workspace (lit "x") 20) { name = lit "Other" }
    ∷ []

abbrev stringify : List Workspace → Text
stringify ws = lit "[]"

abbrev parse : Text → Option (List Workspace)
parse s = some two_workspaces

abbrev nothing_stored : Stored
nothing_stored = record { workspaces = none; active = none }

abbrev loaded : WorkspaceState
loaded = load_from_storage stringify parse (lit "w") 10 nothing_stored

abbrev created : WorkspaceState
created = create_workspace stringify parse (lit "Other") (lit "x") 20 loaded

stored_truthy : truthy (stringify created.workspaces) ≡ true
unfolding lit
stored_truthy = refl

parsed_back : parse (stringify created.workspaces) ≡ some created.workspaces
unfolding create_workspace load_from_storage persist default_workspace
parsed_back = refl

load_from_storage-Reach_example :
    (created ≡ load_from_storage stringify parse (lit "w") 10 nothing_stored)
    ⊎ Reloads stringify parse (lit "y") 30 created created.workspaces
load_from_storage-Reach_example =
    load_from_storage-Reach stringify parse (lit "w") (lit "y") 10 30 nothing_stored created
      (Storage.next Storage.start (creates (lit "Other") (lit "x") 20 loaded)) stored_truthy
      parsed_back
