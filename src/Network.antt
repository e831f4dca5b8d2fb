-- ===== src/Network.antt =====
-- src/network/network-condition.service.ts: the simulated network of each connection.
-- Rates and random numbers are fractions: every double is one. `Math.random()` is an argument.
pub mod Conditions
pub mod Timers
pub mod Routes
use socket_tester.Base.{
  ℕ, ◌+◌, ◌-◌, ◌*◌, Bool, true, false, not, ◌&&◌, ◌||◌, Option, none, some, List, [], ◌∷◌, ◌++◌,
  filter, Text, default, given, timer_delay, Map, lookup, insert, delete, if◌then◌else◌, ltb, ◌==◌,
}

-- `top / bottom`, with a positive bottom.
pub record Fraction : Type 0 where
  pub top : ℕ
  pub bottom : ℕ

abbrev less : Fraction → Fraction → Bool
less a b = ltb (a.top * b.bottom) (b.top * a.bottom)

abbrev pub whole : ℕ → Fraction
whole n = record { top = n; bottom = 1 }

pub record NetworkCondition : Type 0 where
  pub connection_id : Text
  pub delay_ms : ℕ
  pub jitter_ms : ℕ
  pub packet_loss_rate : Fraction
  pub max_bytes_per_sec : ℕ
  pub disconnect_after_ms : ℕ
  pub flapping : Bool
  pub flapping_interval_ms : ℕ
  pub active : Bool

-- `Partial<Omit<NetworkCondition, 'connectionId'>>`
pub record PartialCondition : Type 0 where
  pub delay_ms : Option ℕ
  pub jitter_ms : Option ℕ
  pub packet_loss_rate : Option Fraction
  pub max_bytes_per_sec : Option ℕ
  pub disconnect_after_ms : Option ℕ
  pub flapping : Option Bool
  pub flapping_interval_ms : Option ℕ
  pub active : Option Bool

-- A timer that the runtime holds: its handle, the connection whose callback it runs, and when.
pub record Timer : Type 0 where
  pub handle : ℕ
  pub owner : Text
  pub due : ℕ

pub record NetworkState : Type 0 where
  pub conditions : Map NetworkCondition
  pub timers : Map ℕ
  -- the runtime's timers, and the next handle that it gives
  pub armed : List Timer
  pub next_handle : ℕ

abbrev pub no_network : NetworkState
no_network = record { conditions = []; timers = []; armed = []; next_handle = 1 }

abbrev pub default_condition : Text → NetworkCondition
default_condition id = record {
  connection_id = id;
  delay_ms = 0;
  jitter_ms = 0;
  packet_loss_rate = whole 0;
  max_bytes_per_sec = 0;
  disconnect_after_ms = 0;
  flapping = false;
  flapping_interval_ms = 5000;
  active = false;
}

unfoldable pub merge : NetworkCondition → PartialCondition → Text → NetworkCondition
merge old p id = record {
  connection_id = id;
  delay_ms = given p.delay_ms old.delay_ms;
  jitter_ms = given p.jitter_ms old.jitter_ms;
  packet_loss_rate = given p.packet_loss_rate old.packet_loss_rate;
  max_bytes_per_sec = given p.max_bytes_per_sec old.max_bytes_per_sec;
  disconnect_after_ms = given p.disconnect_after_ms old.disconnect_after_ms;
  flapping = given p.flapping old.flapping;
  flapping_interval_ms = given p.flapping_interval_ms old.flapping_interval_ms;
  active = true;
}

unfoldable pub set_condition :
    Text → PartialCondition → NetworkState → NetworkState × NetworkCondition
set_condition id p st =
    let updated = merge (default (default_condition id) (lookup id st.conditions)) p id in
    (record st { conditions = insert id updated st.conditions }, updated)

unfoldable pub get_condition : Text → NetworkState → Option NetworkCondition
get_condition id st = lookup id st.conditions

-- `clearTimeout(timer)`
abbrev pub clear_timeout : ℕ → List Timer → List Timer
clear_timeout handle = filter (λ t. not (t.handle == handle))

unfoldable pub clear_condition : Text → NetworkState → NetworkState
clear_condition id st = elim (lookup id st.timers) [
  | none ↦ record st { conditions = delete id st.conditions }
  | some handle ↦ record st {
    conditions = delete id st.conditions;
    armed = clear_timeout handle st.armed;
    timers = delete id st.timers;
  }
]

-- The wait of `applyDelay` in milliseconds; `none` is the early return. `random` lies in [0, 1).
-- max(0, delay + (2r - 1) * jitter), over the denominator of r; `-` stops at 0 as `Math.max` does.
unfoldable pub apply_delay : Text → Fraction → NetworkState → Option Fraction
apply_delay id random st = elim (lookup id st.conditions) [
  | none ↦ none
  | some cond ↦
      if not cond.active || cond.delay_ms == 0
      then none
      else if ltb 0 cond.jitter_ms
      then some (record {
        top =
            (cond.delay_ms * random.bottom + 2 * random.top * cond.jitter_ms)
            - cond.jitter_ms * random.bottom;
        bottom = random.bottom;
      })
      else some (whole cond.delay_ms)
]

unfoldable pub should_drop : Text → Fraction → NetworkState → Bool
should_drop id random st = elim (lookup id st.conditions) [
  | none ↦ false
  | some cond ↦
      if not cond.active || cond.packet_loss_rate.top == 0
      then false
      else less random cond.packet_loss_rate
]

pub schedule_disconnect : Text → ℕ → NetworkState → NetworkState
schedule_disconnect id now st = elim (lookup id st.conditions) [
  | none ↦ st
  | some cond ↦ if not cond.active || cond.disconnect_after_ms == 0 then st else record st {
    armed =
        st.armed
        ++ record {
          handle = st.next_handle;
          owner = id;
          due = now + timer_delay cond.disconnect_after_ms;
        }
          ∷ [];
    timers = insert id st.next_handle st.timers;
    next_handle = st.next_handle + 1;
  }
]
