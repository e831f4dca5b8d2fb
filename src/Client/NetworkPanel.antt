-- ===== src/Client/NetworkPanel.antt =====
-- src/client/src/components/network/NetworkConditionsPanel.tsx: the panel of the simulated network. A
-- handler is divided at its request.
pub mod Agreement
use socket_tester.Base.{
  ℕ, ◌+◌, Bool, true, false, not, Option, none, some, List, [], ◌∷◌, ◌++◌, map, filter, any, Text,
  lit, truthy, given, if◌then◌else◌, leb,
}
use socket_tester.Network.{Fraction, NetworkCondition, PartialCondition, whole}
use socket_tester.Network.Routes.{ConditionAnswer, inactive, condition}
use socket_tester.Client.Notifications.{ToastState, add_toast, warning, info, error}

-- The state `form`. An object that the server answered carries the id of its connection as well.
pub record ConditionForm : Type 0 where
  pub connection_id : Option Text
  pub delay_ms : ℕ
  pub jitter_ms : ℕ
  pub packet_loss_rate : Fraction
  pub max_bytes_per_sec : ℕ
  pub disconnect_after_ms : ℕ
  pub flapping : Bool
  pub flapping_interval_ms : ℕ
  pub active : Bool

abbrev pub default_form : ConditionForm
default_form = record {
  connection_id = none;
  delay_ms = 0;
  jitter_ms = 0;
  packet_loss_rate = whole 0;
  max_bytes_per_sec = 0;
  disconnect_after_ms = 0;
  flapping = false;
  flapping_interval_ms = 5000;
  active = false;
}

pub record NetworkPanel : Type 0 where
  pub expanded : Bool
  pub form : ConditionForm
  pub saved : Bool
  -- when the runtime's timers reset `saved`
  pub resets : List ℕ

unfoldable pub toggle_expanded : NetworkPanel → NetworkPanel
toggle_expanded p = record p { expanded = not p.expanded }

abbrev pub no_change : PartialCondition
no_change = record {
  delay_ms = none;
  jitter_ms = none;
  packet_loss_rate = none;
  max_bytes_per_sec = none;
  disconnect_after_ms = none;
  flapping = none;
  flapping_interval_ms = none;
  active = none;
}

pub record Preset : Type 0 where
  pub label : Text
  pub values : PartialCondition

abbrev pub presets : List Preset
presets =
    record {
      label = lit "Slow 3G";
      values = record no_change {
        delay_ms = some 200;
        jitter_ms = some 50;
        packet_loss_rate = some (record { top = 5; bottom = 100 });
      };
    }
    ∷ record {
      label = lit "Flapping";
      values = record no_change {
        flapping = some true;
        flapping_interval_ms = some 3000;
        disconnect_after_ms = some 5000;
      };
    }
    ∷ record {
      label = lit "High Latency";
      values = record no_change {
        delay_ms = some 500;
        jitter_ms = some 100;
        packet_loss_rate = some (whole 0);
      };
    }
    ∷ record {
      label = lit "Lossy";
      values = record no_change {
        packet_loss_rate = some (record { top = 2; bottom = 10 });
        delay_ms = some 50;
      };
    }
    ∷ []

-- `{ ...f, ...values }`
unfoldable pub spread_form : PartialCondition → ConditionForm → ConditionForm
spread_form v f = record {
  connection_id = f.connection_id;
  delay_ms = given v.delay_ms f.delay_ms;
  jitter_ms = given v.jitter_ms f.jitter_ms;
  packet_loss_rate = given v.packet_loss_rate f.packet_loss_rate;
  max_bytes_per_sec = given v.max_bytes_per_sec f.max_bytes_per_sec;
  disconnect_after_ms = given v.disconnect_after_ms f.disconnect_after_ms;
  flapping = given v.flapping f.flapping;
  flapping_interval_ms = given v.flapping_interval_ms f.flapping_interval_ms;
  active = given v.active f.active;
}

unfoldable pub apply_preset : Preset → NetworkPanel → NetworkPanel
apply_preset preset p = record p { form = spread_form preset.values p.form }

-- What an input of the panel changes.
pub data Edit : Type 0 where
  delay : ℕ → Edit
  jitter : ℕ → Edit
  disconnect_after : ℕ → Edit
  flap_interval : ℕ → Edit
  -- the percentage of the slider
  packet_loss : ℕ → Edit
  flaps : Bool → Edit

unfoldable pub edit_form : Edit → ConditionForm → ConditionForm
edit_form (delay n) f = record f { delay_ms = n }
edit_form (jitter n) f = record f { jitter_ms = n }
edit_form (disconnect_after n) f = record f { disconnect_after_ms = n }
edit_form (flap_interval n) f = record f { flapping_interval_ms = n }
edit_form (packet_loss n) f = record f { packet_loss_rate = record { top = n; bottom = 100 } }
edit_form (flaps b) f = record f { flapping = b }

unfoldable pub edit : Edit → NetworkPanel → NetworkPanel
edit e p = record p { form = edit_form e p.form }

unfoldable pub form_of : NetworkCondition → ConditionForm
form_of c = record {
  connection_id = some c.connection_id;
  delay_ms = c.delay_ms;
  jitter_ms = c.jitter_ms;
  packet_loss_rate = c.packet_loss_rate;
  max_bytes_per_sec = c.max_bytes_per_sec;
  disconnect_after_ms = c.disconnect_after_ms;
  flapping = c.flapping;
  flapping_interval_ms = c.flapping_interval_ms;
  active = c.active;
}

-- `{ ...DEFAULT, ...r.data }`: a condition has every field.
unfoldable pub loaded_form : ConditionAnswer → ConditionForm
loaded_form inactive = record default_form { active = false }
loaded_form (condition c) = form_of c

-- The answer to the request of the effect on the connection, none where it failed.
unfoldable pub load_answered : Option ConditionAnswer → NetworkPanel → NetworkPanel
load_answered none p = record p { form = default_form }
load_answered (some a) p = record p { form = loaded_form a }

-- The body that `apply` sends. Its `connectionId` is not a field that the server takes.
unfoldable pub body_of : ConditionForm → PartialCondition
body_of f = record {
  delay_ms = some f.delay_ms;
  jitter_ms = some f.jitter_ms;
  packet_loss_rate = some f.packet_loss_rate;
  max_bytes_per_sec = some f.max_bytes_per_sec;
  disconnect_after_ms = some f.disconnect_after_ms;
  flapping = some f.flapping;
  flapping_interval_ms = some f.flapping_interval_ms;
  active = some f.active;
}

-- `if (!connectionId) return`
unfoldable pub target : Option Text → Option Text
target none = none
target (some id) = if truthy id then some id else none

unfoldable pub begin_apply : Option Text → NetworkPanel → Option (Text × PartialCondition)
begin_apply id p = elim (target id) [ none ↦ none | some id' ↦ some (id', body_of p.form) ]

unfoldable pub finish_apply :
    Option NetworkCondition → Text → ℕ → NetworkPanel → ToastState → NetworkPanel × ToastState
finish_apply none uuid now p toasts =
    (p, add_toast (lit "Failed to apply network conditions") error uuid now toasts)
finish_apply (some c) uuid now p toasts = (
  record p { form = form_of c; saved = true; resets = p.resets ++ (now + 2000) ∷ [] },
  add_toast (lit "Network conditions applied") warning uuid now toasts,
)

-- `setTimeout(() => setSaved(false), 2000)`, when the runtime runs it.
unfoldable pub run_resets : ℕ → NetworkPanel → NetworkPanel
run_resets now p = record p {
  saved = if any (λ due. leb due now) p.resets then false else p.saved;
  resets = filter (λ due. not (leb due now)) p.resets;
}

unfoldable pub begin_clear : Option Text → Option Text
begin_clear id = target id

-- `true` where the request succeeded.
unfoldable pub finish_clear :
    Bool → Text → ℕ → NetworkPanel → ToastState → NetworkPanel × ToastState
finish_clear true uuid now p toasts = (
  record p { form = default_form },
  add_toast (lit "Network conditions cleared") info uuid now toasts,
)
finish_clear false uuid now p toasts =
    (p, add_toast (lit "Failed to clear network conditions") error uuid now toasts)
