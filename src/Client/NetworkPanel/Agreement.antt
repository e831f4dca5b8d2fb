-- ===== src/Client/NetworkPanel/Agreement.antt =====
-- The panel of the simulated network and the server that answers it.
use socket_tester.App.{App, Delivery}
use socket_tester.WebSocket.Handlers.{on_message}
use socket_tester.Base.{
  [], ◌∷◌, ◌++◌, ◌≤◌, ◌⊎◌, inl, inr, Bool-cases, ℕ, ◌*◌, ◌<◌, ◌≡◌, ◌↔◌, refl, none, some, true,
  false, Text, truthy, lookup-delete_self, lookup-insert_self, arith,
}
use socket_tester.Network.{
  Fraction, PartialCondition, NetworkState, set_condition, get_condition, should_drop, apply_delay,
  clear_condition, merge,
}
use socket_tester.Network.Routes.{condition, get_route, put_route, delete_route}
use socket_tester.Client.Notifications.{ToastState}
use socket_tester.Client.NetworkPanel.{
  ConditionForm, NetworkPanel, body_of, target, begin_apply, finish_apply, begin_clear,
  finish_clear, load_answered, loaded_form, form_of,
}

get_route-put_route :
    (id : Text) (body : PartialCondition) (st : NetworkState)
    → get_route id (put_route id body st).0 ≡ condition (put_route id body st).1
unfolding get_route put_route get_condition set_condition
get_route-put_route id body st =
    rw (get_route, put_route, get_condition, set_condition, lookup-insert_self) refl

get_condition-delete_route :
    (id : Text) (st : NetworkState) → get_condition id (delete_route id st) ≡ none
unfolding delete_route get_condition clear_condition
get_condition-delete_route id st = ground (arith, lookup-delete_self id st.conditions)

-- What the server answers to the body of a form.
form_of-put_route :
    (id : Text) (form : ConditionForm) (st : NetworkState)
    → form_of (put_route id (body_of form) st).1
      ≡ record form { connection_id = some id; active = true }
unfolding form_of body_of put_route set_condition merge
form_of-put_route id form st = refl

should_drop-put_route :
    (id : Text) (random : Fraction) (form : ConditionForm) (st : NetworkState)
    → (should_drop id random (put_route id (body_of form) st).0 ≡ true)
      ↔ (random.top * form.packet_loss_rate.bottom < form.packet_loss_rate.top * random.bottom)
unfolding should_drop body_of put_route set_condition merge
should_drop-put_route id random form st =
    rw (should_drop, put_route, set_condition, lookup-insert_self) (ground arith)

-- A message that arrives is lost, and nothing changes, where the random number is below the rate;
-- otherwise it waits to be forwarded, after those that waited before.
abbrev pub IsLostBelow : Text → Text → Fraction → Fraction → App → App → Type 0
IsLostBelow id payload rate random before after =
    ((random.top * rate.bottom < rate.top * random.bottom) × (after ≡ before))
    ⊎ (rate.top * random.bottom ≤ random.top * rate.bottom)
      × (d : Delivery) × (after.ws.deliveries ≡ before.ws.deliveries ++ d ∷ [])
      × (d.owner ≡ id)
      × (d.payload ≡ payload)

on_message-IsLostBelow :
    (id payload : Text) (size : ℕ) (random delay_random : Fraction) (now : ℕ) (rate : Fraction)
    (app : App)
    → ((should_drop id random app.network ≡ true)
        ↔ (random.top * rate.bottom < rate.top * random.bottom))
    → IsLostBelow id payload rate random app
        (on_message id payload size random delay_random now app)
unfolding on_message
on_message-IsLostBelow id payload size random delay_random now rate app h =
    elim (Bool-cases (should_drop id random app.network)) [
      | inl e ↦ rw (e, on_message) (inl (h.0 e, refl))
      | inr e ↦ rw (e, on_message) (inr (ground (arith, h, e), _, refl, refl, refl))
    ]

-- Where the panel has a connection, applying sends the form. When the server has answered, the panel
-- shows what it showed before, as active and of that connection, and loading it again changes nothing.
-- A message that then arrives on the socket of that connection is lost where the random number is
-- below the rate that the form shows, and is otherwise kept to be forwarded.
pub finish_apply_lem :
    (id uuid payload : Text) (now later size : ℕ) (random delay_random : Fraction)
    (p : NetworkPanel) (toasts : ToastState) (app : App)
    → truthy id ≡ true
    → let r = put_route id (body_of p.form) app.network in
      let p' = (finish_apply (some r.1) uuid now p toasts).0 in
      let before = record app { network = r.0 } in
      let after = on_message id payload size random delay_random later before in
      (begin_apply (some id) p ≡ some (id, body_of p.form))
      × (p'.form ≡ record p.form { connection_id = some id; active = true })
      × (load_answered (some (get_route id r.0)) p' ≡ p')
      × IsLostBelow id payload p.form.packet_loss_rate random before after
unfolding begin_apply target finish_apply load_answered loaded_form
finish_apply_lem id uuid payload now later size random delay_random p toasts app h = (
  rw (h, begin_apply) refl,
  form_of-put_route id p.form app.network,
  rw get_route-put_route refl,
  on_message-IsLostBelow id payload size random delay_random later p.form.packet_loss_rate _
      (should_drop-put_route id random p.form app.network),
)

-- Where the panel has a connection, clearing asks for that connection. When the server has answered,
-- the panel shows the defaults, loading it again changes nothing, and no message of the connection is
-- lost or delayed.
pub finish_clear_lem :
    (id uuid : Text) (now : ℕ) (random : Fraction) (p : NetworkPanel) (toasts : ToastState)
    (st : NetworkState)
    → truthy id ≡ true
    → let st' = delete_route id st in
      let p' = (finish_clear true uuid now p toasts).0 in
      (begin_clear (some id) ≡ some id)
      × (load_answered (some (get_route id st')) p' ≡ p')
      × (should_drop id random st' ≡ false)
      × (apply_delay id random st' ≡ none)
unfolding begin_clear target finish_clear get_route load_answered loaded_form get_condition
    should_drop apply_delay
finish_clear_lem id uuid now random p toasts st h =
    let e = get_condition-delete_route id st in
    (ground arith, rw (e, get_route) refl, rw (e, should_drop) refl, rw (e, apply_delay) refl)
