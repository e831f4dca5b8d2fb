-- ===== src/Client/Palette.antt =====
-- src/client/src/hooks/useKeyboardShortcuts.ts and components/layout/CommandPalette.tsx: what keys
-- and commands do to the stores. What they ask of the server and of the page is a list of calls.
pub mod Selection
use socket_tester.Base.{
  ℕ, zero, suc, ◌+◌, ◌-◌, min, Bool, true, false, not, ◌&&◌, Option, none, some, List, [], ◌∷◌,
  ◌++◌, map, filter, length, get_elem?, ltb, leb, ◌==◌, Text, lit, text_eq, truthy, includes,
  if◌then◌else◌,
}
use socket_tester.Session.{ConnectionType, websocket, connected, disconnected}
use socket_tester.Client.Tabs.{TabState, add_tab, update_tab_status, status_eq, ActiveConnection}
use socket_tester.Client.Messages.{MessageState, clear_messages}
use socket_tester.Client.Ui.{
  UiState, Page, Theme, dark, light, dracula, high_contrast, solarized, MainTab, messages, stats,
  logs, performance, set_theme, set_active_tab, set_command_palette_open, toggle_command_palette,
}
use socket_tester.Client.Ui

pub data ShellCall : Type 0 where
  closes_connection : Text → ShellCall
  focuses clicks : Text → ShellCall
  visits : Text → ShellCall

-- The stores that shortcuts and commands change.
pub record Shell : Type 0 where
  pub ui : UiState
  pub page : Page
  pub tabs : TabState
  pub messages : MessageState
  pub calls : List ShellCall

unfoldable pub call : ShellCall → Shell → Shell
call c s = record s { calls = s.calls ++ c ∷ [] }

-- The active connection, if it is connected.
unfoldable pub connected_id : TabState → Option Text
connected_id st = elim st.active_connection [
  | none ↦ none
  | some c ↦ if status_eq c.status connected then some c.connection_id else none
]

unfoldable pub ask_to_close : Shell → Shell
unfolding call connected_id
ask_to_close s = elim (connected_id s.tabs) [ none ↦ s | some id ↦ call (closes_connection id) s ]

-- The `finally` part of the shortcut.
unfoldable pub closed_by_shortcut : Shell → Shell
closed_by_shortcut s = record s { tabs = update_tab_status disconnected s.tabs }

-- `addTab()`, with its default protocol.
unfoldable pub new_tab : Text → Shell → Shell
new_tab uuid s = record s { tabs = add_tab websocket uuid s.tabs }

-- `clearMessages()` without an id.
unfoldable pub clear_history : Shell → Shell
clear_history s = record s { messages = clear_messages none s.messages }

unfoldable pub show_tab : MainTab → Shell → Shell
show_tab tab s = record s { ui = set_active_tab tab s.ui }

-- The handler of `keydown`; `ctrl` is the control or the meta key. The last four shortcuts act on
-- elements of the page, which may be missing.
unfoldable pub on_key : Bool → Text → Text → Shell → Shell
unfolding ask_to_close new_tab clear_history show_tab call
on_key ctrl key uuid s =
    if ctrl && text_eq key (lit "k")
    then record s { ui = toggle_command_palette s.ui }
    else if ctrl && text_eq key (lit "n")
    then new_tab uuid s
    else if ctrl && text_eq key (lit "l")
    then clear_history s
    else if ctrl && text_eq key (lit "d")
    then ask_to_close s
    else if ctrl && text_eq key (lit "f")
    then call (focuses (lit "[data-search-input]")) s
    else if ctrl && text_eq key (lit "e")
    then call (clicks (lit "[data-export-btn]")) s
    else if ctrl && text_eq key (lit "s")
    then call (clicks (lit "[data-save-config-btn]")) s
    else if text_eq key (lit "F1")
    then call (visits (lit "/docs")) s
    else if ctrl && text_eq key (lit "1")
    then show_tab Ui.messages s
    else if ctrl && text_eq key (lit "2")
    then show_tab stats s
    else if ctrl && text_eq key (lit "3")
    then show_tab logs s
    else if ctrl && text_eq key (lit "4")
    then show_tab performance s
    else s

pub data Command : Type 0 where
  opens_tab clears disconnects opens_docs opens_swagger : Command
  sets_theme : Theme → Command

unfoldable pub label : Command → Text
label opens_tab = lit "New Connection Tab"
label clears = lit "Clear Message History"
label disconnects = lit "Disconnect Active Connection"
label (sets_theme dark) = lit "Theme: Dark"
label (sets_theme light) = lit "Theme: Light"
label (sets_theme dracula) = lit "Theme: Dracula"
label (sets_theme high_contrast) = lit "Theme: High Contrast"
label (sets_theme solarized) = lit "Theme: Solarized Dark"
label opens_docs = lit "Open Documentation"
label opens_swagger = lit "Open API Reference (Swagger)"

abbrev pub actions : List Command
actions =
    opens_tab
    ∷ clears
    ∷ disconnects
    ∷ sets_theme dark
    ∷ sets_theme light
    ∷ sets_theme dracula
    ∷ sets_theme high_contrast
    ∷ sets_theme solarized
    ∷ opens_docs
    ∷ opens_swagger
    ∷ []

unfoldable pub close : Shell → Shell
close s = record s { ui = set_command_palette_open false s.ui }

unfoldable pub change_theme : Theme → Shell → Shell
change_theme theme s =
    let (ui, page) = set_theme theme s.ui s.page in record s { ui = ui; page = page }

-- The action of a command, which closes the palette.
unfoldable pub act : Command → Text → Shell → Shell
unfolding new_tab clear_history ask_to_close change_theme call close
act opens_tab uuid s = close (new_tab uuid s)
act clears uuid s = close (clear_history s)
act disconnects uuid s = close (ask_to_close s)
act (sets_theme theme) uuid s = close (change_theme theme s)
act opens_docs uuid s = close (call (visits (lit "/docs")) s)
act opens_swagger uuid s = close (call (visits (lit "/api/docs")) s)

-- The state of the palette; the index is none where it is -1.
pub record PaletteState : Type 0 where
  pub query : Text
  pub selected : Option ℕ

-- `lower` is `toLowerCase()`.
unfoldable pub listed : (Text → Text) → Text → List Command
unfolding label
listed lower query =
    if truthy query then filter (λ a. includes (lower (label a)) (lower query)) actions else actions

-- The effects on `open` and on `query`.
unfoldable pub opens : PaletteState
opens = record { query = []; selected = some 0 }

unfoldable pub set_query : Text → PaletteState
set_query query = record { query = query; selected = some 0 }

-- `Math.min(i + 1, filtered.length - 1)`, with `count` actions listed.
unfoldable pub next_index : ℕ → Option ℕ → Option ℕ
next_index zero i = none
next_index (suc last) none = some 0
next_index (suc last) (some i) = some (min (i + 1) last)

-- `Math.max(i - 1, 0)`
unfoldable pub previous_index : Option ℕ → Option ℕ
previous_index none = some 0
previous_index (some i) = some (i - 1)

unfoldable pub arrow_down : (Text → Text) → PaletteState → PaletteState
unfolding next_index
arrow_down lower p = record p { selected = next_index (length (listed lower p.query)) p.selected }

unfoldable pub arrow_up : PaletteState → PaletteState
unfolding previous_index
arrow_up p = record p { selected = previous_index p.selected }

-- `filtered[selectedIndex]`
unfoldable pub chosen : (Text → Text) → PaletteState → Option Command
chosen lower p = elim p.selected [ none ↦ none | some i ↦ get_elem? (listed lower p.query) i ]

-- The Enter key.
unfoldable pub enter : (Text → Text) → Text → PaletteState → Shell → Shell
unfolding chosen
enter lower uuid p s = elim (chosen lower p) [ none ↦ s | some c ↦ act c uuid s ]
