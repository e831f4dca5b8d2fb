-- ===== src/Client/Tabs/Active.antt =====
-- The active tab and its connection.
pub mod Lookup
use mathlib.Core.Option
use mathlib.Core.Option.{some-injective}
use mathlib.Core.Path.{subst}
use socket_tester.Base.{
  any, ◌≤◌, ◌≡◌, refl, sym, ap, ◌∙◌, Option, none, some, List, [], ◌∷◌, ◌++◌, map, filter, find,
  last?, length, length-append, length-filter, count-le-length, leb, ◌==◌, Bool, true, false, not,
  Text, text_eq, text_eq_iff, text_eq_refl, is_some, if◌then◌else◌, arith, Option-cases, Bool-cases,
  inl, inr,
}
use socket_tester.Session.{ConnectionStatus, ConnectionType}
use socket_tester.Client.Tabs.{
  ActiveConnection, ConnectionTab, TabState, initial_tabs, has_id, connection_at, create_tab,
  add_tab, close_tab, active_after, set_active_tab, titled, set_connection, update_tab_status,
  is_connection, has_status, change_connection, change_tabs, connection_of,
  update_status_by_connection_id,
}
use socket_tester.Client.Tabs.Topics.{
  target_of, is_unconnected, change_target, add_tab_topic, remove_tab_topic, add_tab_event,
}
use socket_tester.Client.Tabs.Active.Lookup.{
  find_holds, find-map, length-map, is_some-map, find-push, find-filter_other, find-last,
}

-- The active tab is one of the tabs, of which there are ten at most, and the connection that is kept
-- beside the tabs is that tab's.
abbrev pub IsSound : TabState → Type 0
IsSound st =
    (is_some (find (has_id st.active_tab_id) st.tabs) ≡ true)
    × (length st.tabs ≤ 10)
    × (st.active_connection ≡ connection_at st.active_tab_id st.tabs)

-- An update of one tab or of the connection of some, as the user or the server causes it: a new tab has
-- a fresh id, and only a tab that is there is made active.
pub data Step : TabState → TabState → Type 0 where
  adds :
      (protocol : ConnectionType) (uuid : Text) (st : TabState)
      → find (has_id uuid) st.tabs ≡ none
      → Step st (add_tab protocol uuid st)
  closes : (id : Text) (st st' : TabState) → close_tab id st ≡ some st' → Step st st'
  activates :
      (id : Text) (st : TabState)
      → is_some (find (has_id id) st.tabs) ≡ true
      → Step st (set_active_tab id st)
  connects : (conn : Option ActiveConnection) (st : TabState) → Step st (set_connection conn st)
  changes_status :
      (status : ConnectionStatus) (st : TabState) → Step st (update_tab_status status st)
  hears_status :
      (id : Text) (status : ConnectionStatus) (st : TabState)
      → Step st (update_status_by_connection_id id status st)
  adds_topic :
      (topic : Text) (id : Option Text) (st st' : TabState)
      → add_tab_topic topic id st ≡ some st'
      → Step st st'
  removes_topic :
      (topic : Text) (id : Option Text) (st st' : TabState)
      → remove_tab_topic topic id st ≡ some st'
      → Step st st'
  adds_event :
      (event : Text) (id : Option Text) (st st' : TabState)
      → add_tab_event event id st ≡ some st'
      → Step st st'

pub data Reach : TabState → Type 0 where
  start : (uuid : Text) → Reach (initial_tabs uuid)
  next : {st st' : TabState} → Reach st → Step st st' → Reach st'

map-IsSound :
    (f : ConnectionTab → ConnectionTab) (st : TabState)
    → ((t : ConnectionTab) → (f t).id ≡ t.id)
    → IsSound st
    → (is_some (find (has_id st.active_tab_id) (map f st.tabs)) ≡ true)
      × (length (map f st.tabs) ≤ 10)
map-IsSound f st h (there, few, same) = (
  rw (find-map f st.active_tab_id st.tabs h) (is_some-map f _ there),
  rw (length-map f st.tabs) few,
)

change_connection-id :
    (id : Text) (f : ActiveConnection → ActiveConnection) (t : ConnectionTab)
    → (change_connection id f t).id ≡ t.id
change_connection-id id f t = ground arith

change_tabs-IsSound :
    (id : Text) (f : ActiveConnection → ActiveConnection) (st : TabState)
    → IsSound st
    → IsSound (change_tabs id f st)
change_tabs-IsSound id f st v =
    let (there, few) = map-IsSound (change_connection id f) st (change_connection-id id f) v in
    (there, few, refl)

-- A new connection for the active tab, whatever else of the tab changes.
set_active-IsSound :
    (f : ConnectionTab → ConnectionTab) (conn : Option ActiveConnection) (st : TabState)
    → ((t : ConnectionTab) → (f t).id ≡ t.id)
    → ((t : ConnectionTab) → (f t).connection ≡ conn)
    → IsSound st
    → IsSound (record st {
      tabs = map (λ t. if has_id st.active_tab_id t then f t else t) st.tabs;
      active_connection = conn;
    })
set_active-IsSound f conn st h k v =
    let id = st.active_tab_id in
    let g : ConnectionTab → ConnectionTab = λ t. if has_id id t then f t else t in
    let kept : (t : ConnectionTab) → (g t).id ≡ t.id =
      λ t. elim (Bool-cases (has_id id t)) [ inl e ↦ rw e (h t) | inr e ↦ rw e refl ] in
    let (there, few) = map-IsSound g st kept v in
    (
      there,
      few,
      elim (Option-cases (find (has_id id) st.tabs)) [
        | inl e ↦ ground (arith, rw e at v.0)
        | inr (t, e) ↦ sym (
            ap connection_of (find-map g id st.tabs kept ∙ ap (Option.map g) e)
            ∙ (rw (find_holds (has_id id) st.tabs t e) (k t)))
      ],
    )

add_tab-IsSound :
    (protocol : ConnectionType) (uuid : Text) (st : TabState)
    → find (has_id uuid) st.tabs ≡ none
    → IsSound st
    → IsSound (add_tab protocol uuid st)
unfolding add_tab create_tab
add_tab-IsSound protocol uuid st fresh v = elim (Bool-cases (leb 10 (length st.tabs))) [
  | inl e ↦ rw (e, add_tab) v
  | inr e ↦
      rw (e, add_tab)
        (
          ap is_some (find-push uuid st.tabs (create_tab protocol uuid) fresh refl),
          ground (arith, length-append st.tabs (create_tab protocol uuid ∷ [])),
          sym (ap connection_of (find-push uuid st.tabs (create_tab protocol uuid) fresh refl)),
        )
]

active_after-there :
    (a id active : Text) (ts : List ConnectionTab)
    → is_some (find (has_id a) ts) ≡ true
    → active_after a id (filter (λ t. not (has_id id t)) ts) ≡ some active
    → is_some (find (has_id active) (filter (λ t. not (has_id id t)) ts)) ≡ true
active_after-there a id active ts there f = elim (Bool-cases (text_eq a id)) [
  | inl e ↦ elim (Option-cases (last? (filter (λ t. not (has_id id t)) ts))) [
    | inl q ↦ ground (arith, rw (e, q) at f)
    | inr (t, q) ↦
        subst (λ x. is_some (find (has_id x) (filter (λ y. not (has_id id y)) ts)) ≡ true)
          (some-injective _ _ (rw (e, q) at f)) (find-last _ t q)
  ]
  | inr e ↦
      subst (λ x. is_some (find (has_id x) (filter (λ y. not (has_id id y)) ts)) ≡ true)
        (some-injective _ _ (rw e at f)) (rw (find-filter_other a id ts e) there)
]

close_tab-IsSound :
    (id : Text) (st st' : TabState) → close_tab id st ≡ some st' → IsSound st → IsSound st'
unfolding close_tab
close_tab-IsSound id st st' e (there, few, same) = elim (Bool-cases (length st.tabs == 1)) [
  | inl h ↦ subst IsSound (some-injective _ _ (rw (h, close_tab) at e)) (there, few, same)
  | inr h ↦
      let tabs = filter (λ t. not (has_id id t)) st.tabs in
      let fewer : length tabs ≤ 10 = omega (
        arith,
        few,
        length-filter (λ t. not (has_id id t)) st.tabs,
        count-le-length (λ t. not (has_id id t)) st.tabs,
      ) in
      elim (Option-cases (active_after st.active_tab_id id tabs)) [
        | inl f ↦ absurd (closed_nowhere (rw (h, f, close_tab) at e))
        | inr (active, f) ↦
            subst IsSound (some-injective _ _ (rw (h, f, close_tab) at e))
              (active_after-there st.active_tab_id id active st.tabs there f, fewer, refl)
      ]
]
  where
    closed_nowhere : none ≡ some st' → ⊥
    closed_nowhere q = ground (arith, q)

change_target-IsSound :
    (id : Option Text) (f : ActiveConnection → ActiveConnection) (st st' : TabState)
    → change_target id f st ≡ some st'
    → IsSound st
    → IsSound st'
change_target-IsSound id f st st' e (there, few, same) = elim (Option-cases (target_of id st)) [
  | inr (target, h) ↦
      subst IsSound (some-injective _ _ (rw (h, change_target) at e))
        (change_tabs-IsSound target f st (there, few, same))
  | inl h ↦ elim (Bool-cases (any is_unconnected st.tabs)) [
    | inl u ↦ ground (arith, rw (h, u, change_target) at e)
    | inr u ↦ subst IsSound (some-injective _ _ (rw (h, u, change_target) at e)) (there, few, refl)
  ]
]

Step-IsSound : {st st' : TabState} → Step st st' → IsSound st → IsSound st'
unfolding set_active_tab set_connection update_tab_status update_status_by_connection_id
    add_tab_topic remove_tab_topic add_tab_event titled
Step-IsSound (adds protocol uuid st fresh) v = add_tab-IsSound protocol uuid st fresh v
Step-IsSound (closes id st st' e) v = close_tab-IsSound id st st' e v
Step-IsSound (activates id st there) (a, few, same) = (there, few, refl)
Step-IsSound (connects none st) v =
    set_active-IsSound (titled none) none st (λ t. refl) (λ t. refl) v
Step-IsSound (connects (some c) st) v =
    set_active-IsSound (titled (some c)) (some c) st (λ t. refl) (λ t. refl) v
Step-IsSound (changes_status status st) v = elim (Option-cases st.active_connection) [
  | inl e ↦ rw (e, update_tab_status) v
  | inr (c, e) ↦
      rw (e, update_tab_status)
        (set_active-IsSound (λ t. record t { connection = some (record c { status = status }) })
          (some (record c { status = status })) st (λ t. refl) (λ t. refl) v)
]
Step-IsSound (hears_status id status st) v = elim (Option-cases (find (is_connection id) st.tabs)) [
  | inl e ↦ rw (e, update_status_by_connection_id) v
  | inr (t, e) ↦
      rw (e, update_status_by_connection_id)
        (elim (Bool-cases (has_status status t)) [
          | inl h ↦ rw h v
          | inr h ↦ rw h (change_tabs-IsSound id (λ c. record c { status = status }) st v)
        ])
]
Step-IsSound (adds_topic topic id st st' e) v = change_target-IsSound id _ st st' e v
Step-IsSound (removes_topic topic id st st' e) v = change_target-IsSound id _ st st' e v
Step-IsSound (adds_event event id st st' e) v = change_target-IsSound id _ st st' e v

-- In every state that the tab operations lead to, the active tab is one of the tabs, of which there
-- are ten at most, and the connection that is kept beside the tabs is that tab's, provided that new
-- tabs have fresh ids and only a tab that is there is made active.
pub Reach-IsSound : {st : TabState} → Reach st → IsSound st
unfolding initial_tabs
Reach-IsSound (start uuid) =
    (ground (arith, text_eq_refl uuid), omega arith, ground (arith, text_eq_refl uuid))
Reach-IsSound (next r s) = Step-IsSound s (Reach-IsSound r)
