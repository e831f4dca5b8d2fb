-- ===== src/Client/Tabs/Found.antt =====
-- The first tab that shows a connection, after an update of the tabs of one connection.
use mathlib.Core.Option
use mathlib.Core.Option.{some-injective}
use socket_tester.Base.{
  ◌≡◌, refl, ap, Bool, true, false, none, some, List, [], ◌∷◌, map, find, Text, text_eq,
  text_eq_iff, is_some, arith, Bool-cases, Option-cases, inl, inr,
}
use socket_tester.Client.Tabs.Active.Lookup.{find_holds}
use socket_tester.Session.{
  ConnectionStatus, error, idle, connecting, connected, disconnected, reconnecting,
}
use socket_tester.Client.Tabs.{
  ActiveConnection, ConnectionTab, TabState, is_connection, has_status, change_connection,
  change_tabs, status_eq, update_status_by_connection_id,
}

module _ (id : Text) (f : ActiveConnection → ActiveConnection)
    (keep : (c : ActiveConnection) → (f c).connection_id ≡ c.connection_id) where
  pub is_connection-change :
      (j : Text) (t : ConnectionTab)
      → is_connection j (change_connection id f t) ≡ is_connection j t
  is_connection-change j t = elim (Option-cases t.connection) [
    | inl e ↦ ground (arith, e)
    | inr (c, e) ↦ ground (arith, e, keep c)
  ]

  pub change_connection_other :
      (j : Text) (t : ConnectionTab)
      → text_eq id j ≡ false
      → is_connection j t ≡ true
      → change_connection id f t ≡ t
  change_connection_other j t h k = elim (Option-cases t.connection) [
    | inl e ↦ ground (arith, e)
    | inr (c, e) ↦
        ground (
          arith,
          e,
          text_eq_iff c.connection_id id,
          text_eq_iff c.connection_id j,
          text_eq_iff id j,
        )
  ]

  -- The first tab of a connection, after a change that keeps the ids.
  pub find-change_connection :
      (j : Text) (ts : List ConnectionTab)
      → find (is_connection j) (map (change_connection id f) ts)
        ≡ Option.map (change_connection id f) (find (is_connection j) ts)
  find-change_connection j [] = refl
  find-change_connection j (t ∷ ts) =
      rw (is_connection-change j t, find-change_connection j ts)
        (elim (Bool-cases (is_connection j t)) [ inl e ↦ rw e refl | inr e ↦ rw e refl ])

  -- The tab of another connection is as it was.
  pub find-change_other :
      (j : Text) (ts : List ConnectionTab)
      → text_eq id j ≡ false
      → find (is_connection j) (map (change_connection id f) ts) ≡ find (is_connection j) ts
  find-change_other j [] h = refl
  find-change_other j (t ∷ ts) h =
      rw (is_connection-change j t, find-change_other j ts h)
        (elim (Bool-cases (is_connection j t)) [
          | inl e ↦ rw e (ap some (change_connection_other j t h e))
          | inr e ↦ rw e refl
        ])

  -- A change that keeps the status too.
  pub has_status-change :
      (status : ConnectionStatus) (t : ConnectionTab)
      → ((c : ActiveConnection) → (f c).status ≡ c.status)
      → has_status status (change_connection id f t) ≡ has_status status t
  has_status-change status t same = elim (Option-cases t.connection) [
    | inl e ↦ ground (arith, e)
    | inr (c, e) ↦ ground (arith, e, same c)
  ]

-- The first tab of a connection is as it was after an update of another's status.
pub find-update_status_other :
    (id j : Text) (status : ConnectionStatus) (st : TabState)
    → text_eq id j ≡ false
    → find (is_connection j) (update_status_by_connection_id id status st).tabs
      ≡ find (is_connection j) st.tabs
unfolding update_status_by_connection_id
find-update_status_other id j status st h = ground (
  arith,
  Option-cases (find (is_connection id) st.tabs),
  find-change_other id (λ (c : ActiveConnection). record c { status = status }) (λ c. refl) j
      st.tabs h,
)

status_eq_refl : (s : ConnectionStatus) → status_eq s s ≡ true
unfolding status_eq
status_eq_refl idle = refl
status_eq_refl connecting = refl
status_eq_refl connected = refl
status_eq_refl disconnected = refl
status_eq_refl error = refl
status_eq_refl reconnecting = refl

-- The first tab of a connection shows this status.
abbrev pub shows : Text → ConnectionStatus → TabState → Bool
shows id status st = elim (find (is_connection id) st.tabs) [
  | none ↦ false
  | some t ↦ has_status status t
]

has_status_new :
    (id : Text) (status : ConnectionStatus) (t : ConnectionTab)
    → is_connection id t ≡ true
    → has_status status (change_connection id (λ c. record c { status = status }) t) ≡ true
has_status_new id status t h = elim (Option-cases t.connection) [
  | inl e ↦ ground (arith, e)
  | inr (c, e) ↦ ground (arith, e, status_eq_refl status)
]

-- A connection of a tab shows the status that it was last given.
pub shows-update_status :
    (id : Text) (status : ConnectionStatus) (st : TabState)
    → is_some (find (is_connection id) st.tabs) ≡ true
    → shows id status (update_status_by_connection_id id status st) ≡ true
unfolding update_status_by_connection_id
shows-update_status id status st h = elim (Option-cases (find (is_connection id) st.tabs)) [
  | inl e ↦ ground (arith, e)
  | inr (t, e) ↦ ground (
    arith,
    e,
    find_holds (is_connection id) st.tabs t e,
    has_status_new id status t,
    find-change_connection id (λ (c : ActiveConnection). record c { status = status }) (λ c. refl)
        id st.tabs,
  )
]

-- A change of a connection's tabs that keeps the status.
pub shows-change_tabs :
    (id j : Text) (status : ConnectionStatus) (f : ActiveConnection → ActiveConnection)
    (st : TabState)
    → ((c : ActiveConnection) → (f c).connection_id ≡ c.connection_id)
    → ((c : ActiveConnection) → (f c).status ≡ c.status)
    → shows j status (change_tabs id f st) ≡ shows j status st
shows-change_tabs id j status f st keep same =
    elim (Option-cases (find (is_connection j) st.tabs)) [
      | inl e ↦ ground (arith, e, find-change_connection id f keep j st.tabs)
      | inr (t, e) ↦ ground (
        arith,
        e,
        find-change_connection id f keep j st.tabs,
        has_status-change id f keep status t same,
      )
    ]
