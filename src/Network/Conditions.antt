-- ===== src/Network/Conditions.antt =====
-- What a condition does to messages, and how conditions are updated.
use socket_tester.Base.{
  insert-insert, lookup-insert, text_eq_iff, ◌≢◌, given, default, ◌+◌, ◌*◌, ◌≤◌, ◌<◌, ◌≡◌, ◌↔◌,
  refl, Option, none, some, true, Text, lookup, lookup-insert_self, arith, Option-cases, inl, inr,
}
use socket_tester.Network.{
  Fraction, NetworkCondition, PartialCondition, NetworkState, default_condition, merge,
  set_condition, get_condition, apply_delay, should_drop,
}

-- A message is dropped exactly when its connection has an active condition whose loss rate is above
-- the random number: never at rate 0, and always at a rate of 1 or more.
pub should_drop_iff :
    (id : Text) (random : Fraction) (st : NetworkState)
    → (should_drop id random st ≡ true) ↔ (
        (cond : NetworkCondition) × (get_condition id st ≡ some cond)
        × (cond.active ≡ true)
        × (random.top * cond.packet_loss_rate.bottom < cond.packet_loss_rate.top * random.bottom))
unfolding should_drop get_condition
should_drop_iff id random st = elim (Option-cases (lookup id st.conditions)) [
  | inl e ↦ rw (e, should_drop) (ground arith)
  | inr (cond, e) ↦
      rw (e, should_drop) ((λ h. (cond, refl, ground arith, ground arith)), (λ x. ground arith))
]

-- Where the random number is below 1, a wait is at most the delay and the jitter, and at least the
-- delay less the jitter.
pub apply_delay_bounds :
    (id : Text) (random wait : Fraction) (st : NetworkState) (cond : NetworkCondition)
    → get_condition id st ≡ some cond
    → random.top < random.bottom
    → apply_delay id random st ≡ some wait
    → (0 < wait.bottom)
      × (cond.delay_ms * wait.bottom ≤ wait.top + cond.jitter_ms * wait.bottom)
      × (wait.top ≤ (cond.delay_ms + cond.jitter_ms) * wait.bottom)
unfolding apply_delay get_condition
apply_delay_bounds id random wait st cond e r h = grind arith

abbrev pub later {ℓ} : {A : Type ℓ} → Option A → Option A → Option A
later o none = o
later o (some a) = some a

-- Of two partial updates in a row the later wins, field by field.
abbrev pub overlay : PartialCondition → PartialCondition → PartialCondition
overlay p q = record {
  delay_ms = later p.delay_ms q.delay_ms;
  jitter_ms = later p.jitter_ms q.jitter_ms;
  packet_loss_rate = later p.packet_loss_rate q.packet_loss_rate;
  max_bytes_per_sec = later p.max_bytes_per_sec q.max_bytes_per_sec;
  disconnect_after_ms = later p.disconnect_after_ms q.disconnect_after_ms;
  flapping = later p.flapping q.flapping;
  flapping_interval_ms = later p.flapping_interval_ms q.flapping_interval_ms;
  active = later p.active q.active;
}

merge-overlay :
    (old : NetworkCondition) (p q : PartialCondition) (id : Text)
    → merge (merge old p id) q id ≡ merge old (overlay p q) id
unfolding merge
merge-overlay old p q id = ground arith

-- A condition against the one before and the update: each given field has its value, every other one
-- is kept, and the condition is active.
pub record IsUpdated (id : Text) (old : NetworkCondition) (p : PartialCondition)
    (new : NetworkCondition) : Type 0 where
  pub owner : new.connection_id ≡ id
  pub delay : some new.delay_ms ≡ later (some old.delay_ms) p.delay_ms
  pub jitter : some new.jitter_ms ≡ later (some old.jitter_ms) p.jitter_ms
  pub loss : some new.packet_loss_rate ≡ later (some old.packet_loss_rate) p.packet_loss_rate
  pub rate : some new.max_bytes_per_sec ≡ later (some old.max_bytes_per_sec) p.max_bytes_per_sec
  pub disconnect :
      some new.disconnect_after_ms ≡ later (some old.disconnect_after_ms) p.disconnect_after_ms
  pub flaps : some new.flapping ≡ later (some old.flapping) p.flapping
  pub interval :
      some new.flapping_interval_ms ≡ later (some old.flapping_interval_ms) p.flapping_interval_ms
  pub is_active : new.active ≡ true

later-given {ℓ} : {A : Type ℓ} (p : Option A) (old : A) → some (given p old) ≡ later (some old) p
later-given none old = refl
later-given (some a) old = refl

merge-IsUpdated :
    (id : Text) (old : NetworkCondition) (p : PartialCondition)
    → IsUpdated id old p (merge old p id)
unfolding merge
merge-IsUpdated id old p = record {
  owner = refl;
  delay = later-given p.delay_ms old.delay_ms;
  jitter = later-given p.jitter_ms old.jitter_ms;
  loss = later-given p.packet_loss_rate old.packet_loss_rate;
  rate = later-given p.max_bytes_per_sec old.max_bytes_per_sec;
  disconnect = later-given p.disconnect_after_ms old.disconnect_after_ms;
  flaps = later-given p.flapping old.flapping;
  interval = later-given p.flapping_interval_ms old.flapping_interval_ms;
  is_active = refl;
}

-- An update of a condition stores what it answers: the condition before, or the default one, with each
-- given field replaced, and active. The conditions of other connections and all timers stay. A second
-- update leaves the network, and answers, as one update by both does, in which the later value of a
-- field wins.
pub set_condition-overlay :
    (id k : Text) (p q : PartialCondition) (st : NetworkState)
    → k ≢ id
    → let r = set_condition id p st in
      IsUpdated id (default (default_condition id) (get_condition id st)) p r.1
      × (get_condition id r.0 ≡ some r.1)
      × (get_condition k r.0 ≡ get_condition k st)
      × (r.0.timers ≡ st.timers)
      × (r.0.armed ≡ st.armed)
      × (set_condition id q r.0 ≡ set_condition id (overlay p q) st)
unfolding set_condition get_condition
set_condition-overlay id k p q st h = (
  merge-IsUpdated id (default (default_condition id) (lookup id st.conditions)) p,
  lookup-insert_self id _ st.conditions,
  ground (
    arith,
    lookup-insert id k (merge (default (default_condition id) (lookup id st.conditions)) p id)
        st.conditions,
    text_eq_iff id k,
  ),
  refl,
  refl,
  rw lookup-insert_self (rw merge-overlay (rw insert-insert)),
)
