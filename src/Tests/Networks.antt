-- ===== src/Tests/Networks.antt =====
-- Network conditions of one connection.
use socket_tester.Base.{
  [], false, ◌≡◌, ◌≢◌, refl, none, some, default, ne_of_text_eq, true, lit, text_eq, lookup, insert,
  All,
}
use socket_tester.Network.{
  Fraction, NetworkCondition, PartialCondition, NetworkState, no_network, default_condition, merge,
  set_condition, get_condition, clear_condition, apply_delay, schedule_disconnect,
}
use socket_tester.Network.Routes.{get_route, put_route}
use socket_tester.Client.Notifications.{ToastState}
use socket_tester.Client.NetworkPanel.{
  NetworkPanel, default_form, body_of, begin_apply, finish_apply, load_answered,
}
use socket_tester.Client.NetworkPanel.Agreement.{IsLostBelow, finish_apply_lem}
use socket_tester.App.{App, empty_app}
use socket_tester.WebSocket.Handlers.{on_message}
use socket_tester.Network.Conditions.{IsUpdated, overlay, set_condition-overlay}
use socket_tester.Network.Timers.{start, next, sets, schedules, clear_condition_cancels}

abbrev slow : PartialCondition
slow = record {
  delay_ms = some 100;
  jitter_ms = some 20;
  packet_loss_rate = some (record { top = 1; bottom = 4 });
  max_bytes_per_sec = none;
  disconnect_after_ms = some 5000;
  flapping = none;
  flapping_interval_ms = none;
  active = none;
}

abbrev faster : PartialCondition
faster = record slow { delay_ms = some 50; jitter_ms = none }

abbrev slowed : NetworkState
slowed = (set_condition (lit "a") slow no_network).0

abbrev slow_condition : NetworkCondition
slow_condition = record (default_condition (lit "a")) {
  delay_ms = 100;
  jitter_ms = 20;
  packet_loss_rate = record { top = 1; bottom = 4 };
  disconnect_after_ms = 5000;
  active = true;
}

abbrev three_quarters : Fraction
three_quarters = record { top = 3; bottom = 4 }

found_slow : get_condition (lit "a") slowed ≡ some slow_condition
unfolding get_condition set_condition merge lookup insert text_eq lit
found_slow = refl

abbrev waited : Fraction
waited = record { top = 440; bottom = 4 }

slow_wait : apply_delay (lit "a") three_quarters slowed ≡ some waited
unfolding apply_delay set_condition merge lookup insert text_eq lit
slow_wait = refl

b-ne-a : lit "b" ≢ lit "a"
unfolding text_eq lit
b-ne-a = ne_of_text_eq _ _ refl

set_condition-overlay_example :
    let r = set_condition (lit "a") slow no_network in
    IsUpdated
      (lit "a")
      (default (default_condition (lit "a")) (get_condition (lit "a") no_network))
      slow
      r.1
    × (get_condition (lit "a") r.0 ≡ some r.1)
    × (get_condition (lit "b") r.0 ≡ get_condition (lit "b") no_network)
    × (r.0.timers ≡ no_network.timers)
    × (r.0.armed ≡ no_network.armed)
    × (set_condition (lit "a") faster r.0
        ≡ set_condition (lit "a") (overlay slow faster) no_network)
set_condition-overlay_example =
    set_condition-overlay (lit "a") (lit "b") slow faster no_network b-ne-a

no_timer : lookup (lit "a") slowed.timers ≡ none
unfolding set_condition lookup
no_timer = refl

abbrev scheduled : NetworkState
scheduled = schedule_disconnect (lit "a") 1000 slowed

clear_condition_cancels_example :
    All (λ t. t.owner ≢ lit "a") (clear_condition (lit "a") scheduled).armed
clear_condition_cancels_example =
    clear_condition_cancels (lit "a") {st = scheduled} (
      next (next start (sets (lit "a") slow no_network)) (schedules (lit "a") 1000 slowed no_timer))

abbrev panel : NetworkPanel
panel = record {
  expanded = true;
  form = record default_form { packet_loss_rate = record { top = 20; bottom = 100 } };
  saved = false;
  resets = [];
}

abbrev no_toasts : ToastState
no_toasts = record { toasts = []; timers = [] }

abbrev tenth : Fraction
tenth = record { top = 1; bottom = 10 }

abbrev app : App
app = record empty_app { network = slowed }

finish_apply_lem_example :
    let r = put_route (lit "a") (body_of panel.form) app.network in
    let p' = (finish_apply (some r.1) (lit "u") 5 panel no_toasts).0 in
    let before = record app { network = r.0 } in
    let after = on_message (lit "a") (lit "hi") 2 tenth tenth 9 before in
    (begin_apply (some (lit "a")) panel ≡ some (lit "a", body_of panel.form))
    × (p'.form ≡ record panel.form { connection_id = some (lit "a"); active = true })
    × (load_answered (some (get_route (lit "a") r.0)) p' ≡ p')
    × IsLostBelow (lit "a") (lit "hi") panel.form.packet_loss_rate tenth before after
unfolding lit
finish_apply_lem_example =
    finish_apply_lem (lit "a") (lit "u") (lit "hi") 5 9 2 tenth tenth panel no_toasts app refl
