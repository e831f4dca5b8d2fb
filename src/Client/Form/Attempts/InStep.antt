-- ===== src/Client/Form/Attempts/InStep.antt =====
-- The active tab and the active connection while an attempt to connect changes them.
use socket_tester.Base.{
  ◌≡◌, refl, sym, ap, ◌∙◌, Bool, true, false, Option, none, some, List, [], ◌∷◌, map, find, Text,
  text_eq, text_eq_iff, is_some, if◌then◌else◌, arith, Bool-cases, Option-cases, inl, inr,
}
use socket_tester.Session.{ConnectionStatus, ConnectionType, connecting, error}
use socket_tester.Client.Tabs.{
  ActiveConnection, ConnectionTab, TabState, has_id, connection_at, titled, set_connection,
  update_tab_status,
}
use socket_tester.Client.Form.Connect.{connecting_to}

-- The tabs after a change of the one with this id, which keeps the ids.
pub find-change_id :
    (a j : Text) (f : ConnectionTab → ConnectionTab) (ts : List ConnectionTab)
    → ((t : ConnectionTab) → (f t).id ≡ t.id)
    → text_eq a j ≡ false
    → find (has_id j) (map (λ t. if has_id a t then f t else t) ts) ≡ find (has_id j) ts
find-change_id a j f [] keep h = refl
find-change_id a j f (t ∷ ts) keep h = elim (Bool-cases (text_eq t.id a)) [
  | inl e ↦ ground (
    arith,
    e,
    keep t,
    find-change_id a j f ts keep h,
    text_eq_iff t.id a,
    text_eq_iff t.id j,
    text_eq_iff a j,
  )
  | inr e ↦ ground (arith, e, find-change_id a j f ts keep h)
]

pub find-change_self :
    (a : Text) (f : ConnectionTab → ConnectionTab) (ts : List ConnectionTab)
    (conn : ActiveConnection)
    → ((t : ConnectionTab) → (f t).id ≡ t.id)
    → ((t : ConnectionTab) → (f t).connection ≡ some conn)
    → is_some (find (has_id a) ts) ≡ true
    → connection_at a (map (λ t. if has_id a t then f t else t) ts) ≡ some conn
find-change_self a f [] conn keep set h = cc
find-change_self a f (t ∷ ts) conn keep set h = elim (Bool-cases (text_eq t.id a)) [
  | inl e ↦ ground (arith, e, keep t, set t)
  | inr e ↦ ground (arith, e, find-change_self a f ts conn keep set)
]

pub titled-id : (conn : Option ActiveConnection) (t : ConnectionTab) → (titled conn t).id ≡ t.id
unfolding titled
titled-id none t = refl
titled-id (some c) t = refl

pub titled-connection :
    (c : ActiveConnection) (t : ConnectionTab) → (titled (some c) t).connection ≡ some c
unfolding titled
titled-connection c t = refl

pub connection_at-is_some :
    (a : Text) (ts : List ConnectionTab) (c : ActiveConnection)
    → connection_at a ts ≡ some c
    → is_some (find (has_id a) ts) ≡ true
connection_at-is_some a ts c h = elim (Option-cases (find (has_id a) ts)) [
  | inl e ↦ ground (arith, e, h)
  | inr (t, e) ↦ rw e refl
]

-- The active tab is there and holds the active connection.
abbrev pub IsInStep : TabState → Type 0
IsInStep st =
    (is_some (find (has_id st.active_tab_id) st.tabs) ≡ true)
    × (connection_at st.active_tab_id st.tabs ≡ st.active_connection)

pub set_connection-IsInStep :
    (c : ActiveConnection) (st : TabState) → IsInStep st → IsInStep (set_connection (some c) st)
unfolding set_connection
set_connection-IsInStep c st v =
    let e =
      find-change_self st.active_tab_id (titled (some c)) st.tabs c (titled-id (some c))
        (titled-connection c) v.0 in
    (connection_at-is_some st.active_tab_id _ c e, e)

pub update_tab_status-IsInStep :
    (status : ConnectionStatus) (st : TabState)
    → IsInStep st
    → IsInStep (update_tab_status status st)
unfolding update_tab_status
update_tab_status-IsInStep status st v = elim (Option-cases st.active_connection) [
  | inl e ↦ rw (e, update_tab_status) v
  | inr (c, e) ↦
      let conn = record c { status = status } in
      let q =
        find-change_self st.active_tab_id (λ t. record t { connection = some conn }) st.tabs conn
          (λ t. refl) (λ t. refl) v.0 in
      rw (e, update_tab_status) (connection_at-is_some st.active_tab_id _ conn q, q)
]

-- The active connection once an attempt has begun: without an error of the address it is the address,
-- with an empty id; an error shows in its status.
abbrev pub attempted :
    Option Text → Bool → Text → ConnectionType → Option ActiveConnection → Option ActiveConnection
attempted (some message) sent url p none = none
attempted (some message) sent url p (some c) = some (record c { status = error })
attempted none true url p old = some (connecting_to [] url p)
attempted none false url p old = some (record (connecting_to [] url p) { status = error })

pub update_tab_status_absent :
    (status : ConnectionStatus) (st : TabState)
    → st.active_connection ≡ none
    → update_tab_status status st ≡ st
unfolding update_tab_status
update_tab_status_absent status st e = simp (e, update_tab_status)

pub update_tab_status_present :
    (status : ConnectionStatus) (st : TabState) (c : ActiveConnection)
    → st.active_connection ≡ some c
    → (update_tab_status status st).active_connection ≡ some (record c { status = status })
unfolding update_tab_status
update_tab_status_present status st c e = rw (e, update_tab_status) refl

pub failed_twice :
    (message url : Text) (p : ConnectionType) (st : TabState)
    → (update_tab_status error (update_tab_status connecting st)).active_connection
      ≡ attempted (some message) false url p st.active_connection
failed_twice message url p st = elim (Option-cases st.active_connection) [
  | inl e ↦
      ap (λ x. (update_tab_status error x).active_connection)
        (update_tab_status_absent connecting st e)
      ∙ ap (λ x. x.active_connection) (update_tab_status_absent error st e)
      ∙ e
      ∙ ap (attempted (some message) false url p) (sym e)
  | inr (c, e) ↦
      update_tab_status_present error (update_tab_status connecting st)
        (record c { status = connecting }) (update_tab_status_present connecting st c e)
      ∙ ap (attempted (some message) false url p) (sym e)
]
