-- ===== src/Client/Form/Attempts.antt =====
-- How an attempt to connect ends.
pub mod InStep
use socket_tester.Base.{
  ◌≡◌, refl, sym, ap, ◌∙◌, Bool, true, false, Option, none, some, List, ◌∷◌, map, find, Text,
  text_eq, text_eq_iff, is_some, if◌then◌else◌, arith, Bool-cases, Option-cases,
}
use socket_tester.Json.{Fields}
use socket_tester.Session.{ConnectionStatus, ConnectionType}
use socket_tester.Client.Tabs.{
  ActiveConnection, ConnectionTab, TabState, has_id, connection_at, titled, set_connection,
}
use socket_tester.Client.ControlSocket.Stores.{Stamp}
use socket_tester.Client.Form.{address, address_error}
use socket_tester.Client.Form.Connect.{
  Pending, Page, created, connecting_to, request_of, begin_connect, finish_connect,
}
use socket_tester.Client.Form.Attempts.InStep.{
  find-change_id, find-change_self, titled-id, titled-connection, connection_at-is_some,
  update_tab_status_absent, update_tab_status_present,
}

module _ (btoa : Text → Text) (parse : Text → Option (Option Fields)) where
  pending-connection :
      (t : Stamp) (page : Page) (pending : Pending) (id : Text)
      → (begin_connect btoa parse t page).1 ≡ some pending
      → connecting_to id pending.display_url pending.protocol
        ≡ connecting_to id (address page.form.protocol page.form) page.form.protocol
  unfolding begin_connect
  pending-connection t page pending id e =
      let p = page.form.protocol in
      let url = address p page.form in
      ground (
        arith,
        Option-cases (address_error p url),
        Option-cases (request_of btoa parse p url page.form),
      )

  -- When the request ends with a connection, the tab that is active then gets it, with the address
  -- and the protocol that were submitted; whatever the user did with the tabs meanwhile, every other
  -- tab stays as it is.
  pub finish_connect_lem :
      (t u : Stamp) (page : Page) (pending : Pending) (tabs : TabState) (id j : Text)
      → (begin_connect btoa parse t page).1 ≡ some pending
      → is_some (find (has_id tabs.active_tab_id) tabs.tabs) ≡ true
      → text_eq tabs.active_tab_id j ≡ false
      → let waiting = record (begin_connect btoa parse t page).0 { tabs = tabs } in
        let done = finish_connect btoa parse pending (created id) u waiting in
        (connection_at tabs.active_tab_id done.tabs.tabs
          ≡ some (connecting_to id (address page.form.protocol page.form) page.form.protocol))
        × (find (has_id j) done.tabs.tabs ≡ find (has_id j) tabs.tabs)
        × (done.form.is_submitting ≡ false)
  unfolding finish_connect set_connection
  finish_connect_lem t u page pending tabs id j e there other =
      let conn = connecting_to id pending.display_url pending.protocol in
      (
        find-change_self tabs.active_tab_id (titled (some conn)) tabs.tabs conn
              (titled-id (some conn)) (titled-connection conn) there
            ∙ ap some (pending-connection t page pending id e),
        find-change_id tabs.active_tab_id j (titled (some conn)) tabs.tabs (titled-id (some conn))
            other,
        refl,
      )
