-- ===== src/Network/Timers.antt =====
-- The timers of forced disconnects.
use socket_tester.Base.{
  Bool-cases, lookup-insert_self, ◌||◌, ℕ, ◌≡◌, ◌≢◌, none, some, List, [], ◌∷◌, not, Text,
  text_eq_iff, lookup, All, insert, delete, All-append, lookup-insert, lookup-delete, arith, ◌==◌,
  filter-All, Map, Option-cases, inl, inr,
}
use socket_tester.Network.{
  PartialCondition, NetworkState, Timer, no_network, set_condition, clear_condition,
  schedule_disconnect, clear_timeout,
}

-- Each pending timer is the one that the map holds for its connection.
abbrev IsOwned : NetworkState → Type 0
IsOwned st = All (λ t. lookup t.owner st.timers ≡ some t.handle) st.armed

-- A connection opens once, so it schedules when it has no timer; a timer fires when it is due.
pub data Step : NetworkState → NetworkState → Type 0 where
  sets : (id : Text) (p : PartialCondition) (st : NetworkState) → Step st (set_condition id p st).0
  clears : (id : Text) (st : NetworkState) → Step st (clear_condition id st)
  schedules :
      (id : Text) (now : ℕ) (st : NetworkState)
      → lookup id st.timers ≡ none
      → Step st (schedule_disconnect id now st)
  fires :
      (handle : ℕ) (st : NetworkState)
      → Step st (record st { armed = clear_timeout handle st.armed })

pub data Reach : NetworkState → Type 0 where
  start : Reach no_network
  next : {st st' : NetworkState} → Reach st → Step st st' → Reach st'

Owned-delete :
    (id : Text) (handle : ℕ) (timers : Map ℕ) (armed : List Timer)
    → lookup id timers ≡ some handle
    → All (λ t. lookup t.owner timers ≡ some t.handle) armed
    → All (λ t. lookup t.owner (delete id timers) ≡ some t.handle) (clear_timeout handle armed)
Owned-delete id handle timers [] e h = tt
Owned-delete id handle timers (t ∷ armed) e (p, h) = ground (
  arith,
  Owned-delete id handle timers armed e h,
  lookup-delete id t.owner timers,
  text_eq_iff id t.owner,
)

cancelled :
    (id : Text) (handle : ℕ) (timers : Map ℕ) (armed : List Timer)
    → lookup id timers ≡ some handle
    → All (λ t. lookup t.owner timers ≡ some t.handle) armed
    → All (λ t. t.owner ≢ id) (clear_timeout handle armed)
cancelled id handle timers [] e h = tt
cancelled id handle timers (t ∷ armed) e (p, h) =
    ground (arith, cancelled id handle timers armed e h)

unowned :
    (id : Text) (timers : Map ℕ) (armed : List Timer)
    → lookup id timers ≡ none
    → All (λ t. lookup t.owner timers ≡ some t.handle) armed
    → All (λ t. t.owner ≢ id) armed
unowned id timers [] e h = tt
unowned id timers (t ∷ armed) e (p, h) = ((λ same. ground arith), unowned id timers armed e h)

Owned-insert :
    (id : Text) (handle : ℕ) (timers : Map ℕ) (armed : List Timer)
    → lookup id timers ≡ none
    → All (λ t. lookup t.owner timers ≡ some t.handle) armed
    → All (λ t. lookup t.owner (insert id handle timers) ≡ some t.handle) armed
Owned-insert id handle timers [] e h = tt
Owned-insert id handle timers (t ∷ armed) e (p, h) = ground (
  arith,
  Owned-insert id handle timers armed e h,
  lookup-insert id t.owner handle timers,
  text_eq_iff id t.owner,
)

clear_condition-IsOwned :
    (id : Text) (st : NetworkState) → IsOwned st → IsOwned (clear_condition id st)
unfolding clear_condition
clear_condition-IsOwned id st h = elim (Option-cases (lookup id st.timers)) [
  | inl e ↦ rw (e, clear_condition) h
  | inr (handle, e) ↦ rw (e, clear_condition) (Owned-delete id handle st.timers st.armed e h)
]

schedule_disconnect-IsOwned :
    (id : Text) (now : ℕ) (st : NetworkState)
    → lookup id st.timers ≡ none
    → IsOwned st
    → IsOwned (schedule_disconnect id now st)
unfolding schedule_disconnect
schedule_disconnect-IsOwned id now st e h = elim (Option-cases (lookup id st.conditions)) [
  | inl none_set ↦ rw (none_set, schedule_disconnect) h
  | inr (cond, set) ↦
      rw (set, schedule_disconnect)
        (elim (Bool-cases (not cond.active || cond.disconnect_after_ms == 0)) [
          | inl off ↦ rw off h
          | inr on ↦ rw on (
              All-append (λ t. lookup t.owner (insert id st.next_handle st.timers) ≡ some t.handle)
                st.armed _ (Owned-insert id st.next_handle st.timers st.armed e h)
                (lookup-insert_self id st.next_handle st.timers, tt))
        ])
]

Step-IsOwned : {st st' : NetworkState} → Step st st' → IsOwned st → IsOwned st'
unfolding set_condition
Step-IsOwned (sets id p st) h = h
Step-IsOwned (clears id st) h = clear_condition-IsOwned id st h
Step-IsOwned (schedules id now st e) h = schedule_disconnect-IsOwned id now st e h
Step-IsOwned (fires handle st) h =
    filter-All (λ t. lookup t.owner st.timers ≡ some t.handle) _ st.armed h

Reach-IsOwned : {st : NetworkState} → Reach st → IsOwned st
Reach-IsOwned start = tt
Reach-IsOwned (next r s) = Step-IsOwned s (Reach-IsOwned r)

-- Clearing a connection's condition, as its close does, cancels its forced disconnect: in every state
-- that the service reaches while each connection schedules only when it has no timer, no timer of
-- the cleared connection stays pending.
pub clear_condition_cancels :
    (id : Text) {st : NetworkState}
    → Reach st
    → All (λ t. t.owner ≢ id) (clear_condition id st).armed
unfolding clear_condition
clear_condition_cancels id {st} r = elim (Option-cases (lookup id st.timers)) [
  | inl e ↦ rw (e, clear_condition) (unowned id st.timers st.armed e (Reach-IsOwned r))
  | inr (handle, e) ↦
      rw (e, clear_condition) (cancelled id handle st.timers st.armed e (Reach-IsOwned r))
]
