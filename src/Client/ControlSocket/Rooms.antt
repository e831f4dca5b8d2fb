-- ===== src/Client/ControlSocket/Rooms.antt =====
-- src/client/src/hooks/useControlSocket.ts: the rooms that the browser joins, one for each connection
-- of a tab, as the tabs and the control channel come and go.
use socket_tester.Base.{
  ℕ, ◌+◌, ◌≡◌, refl, Bool, true, false, ◌&&◌, Option, none, some, List, [], ◌∷◌, ◌++◌, filter, any,
  count, count-append, All, Text, text_eq, text_eq_iff, truthy, if◌then◌else◌, arith, Option-cases,
  inl, inr,
}
use socket_tester.Client.Tabs.{ConnectionTab}

-- `joinedRooms`, and the ids that the `joinNew` registered by `once('connect')` would join.
pub record RoomState : Type 0 where
  pub is_connected : Bool
  pub joined : List Text
  pub waiting : Option (List Text)

abbrev pub no_rooms : RoomState
no_rooms = record { is_connected = false; joined = []; waiting = none }

abbrev pub has_room : Text → List Text → Bool
has_room id rooms = any (text_eq id) rooms

-- `tabs.map((t) => t.connection?.connectionId).filter(Boolean)`
unfoldable pub active_ids : List ConnectionTab → List Text
active_ids [] = []
active_ids (t ∷ ts) =
    let rest = active_ids ts in
    elim t.connection [
      | none ↦ rest
      | some c ↦ if truthy c.connection_id then c.connection_id ∷ rest else rest
    ]

unfoldable pub evict : List Text → List Text → List Text
evict active joined = filter (λ id. has_room id active) joined

-- The rooms that are joined, and the ids of the `join-connection` events in order.
unfoldable pub join_new : List Text → List Text → List Text × List Text
join_new [] joined = (joined, [])
join_new (id ∷ ids) joined =
    let same = join_new ids joined in
    let more = join_new ids (joined ++ id ∷ []) in
    if has_room id joined then same else (more.0, id ∷ more.1)

-- The effect on `tabs`, after the cleanup of the one before.
unfoldable pub follow_tabs : List ConnectionTab → RoomState → RoomState × List Text
unfolding active_ids evict
follow_tabs tabs st =
    let active = active_ids tabs in
    let kept = evict active st.joined in
    let new = join_new active kept in
    if st.is_connected
    then (record st { joined = new.0; waiting = none }, new.1)
    else (record st { joined = kept; waiting = some active }, [])

-- The socket's `connect` event.
unfoldable pub on_connect : RoomState → RoomState × List Text
on_connect st = elim st.waiting [
  | none ↦ (record st { is_connected = true }, [])
  | some ids ↦
      let new = join_new ids st.joined in
      (record { is_connected = true; joined = new.0; waiting = none }, new.1)
]

-- The socket's `disconnect` event.
unfoldable pub on_disconnect : RoomState → RoomState
on_disconnect st = record st { is_connected = false; joined = [] }

pub data RoomEvent : Type 0 where
  tabs_change : List ConnectionTab → RoomEvent
  connects disconnects : RoomEvent

unfoldable pub step : RoomEvent → RoomState → RoomState × List Text
step (tabs_change tabs) st = follow_tabs tabs st
step connects st = on_connect st
step disconnects st = (on_disconnect st, [])

-- The state after some events, and all ids that were sent.
unfoldable pub run : List RoomEvent → RoomState → RoomState × List Text
run [] st = (st, [])
run (e ∷ es) st = let (st', ids) = step e st in let rest = run es st' in (rest.0, ids ++ rest.1)

abbrev one_if : Bool → ℕ
one_if b = if b then 1 else 0

any-append :
    (p : Text → Bool) (xs ys : List Text) → any p (xs ++ ys) ≡ (if any p xs then true else any p ys)
any-append p [] ys = refl
any-append p (x ∷ xs) ys = ground (arith, any-append p xs ys)

-- An id that joins was not joined, and is so after.
join_new-count :
    (id : Text) (ids joined : List Text)
    → one_if (has_room id joined) + count (text_eq id) (join_new ids joined).1
      ≡ one_if (has_room id (join_new ids joined).0)
unfolding join_new
join_new-count id [] joined = ground arith
join_new-count id (j ∷ ids) joined = ground (
  arith,
  join_new-count id ids joined,
  join_new-count id ids (joined ++ j ∷ []),
  any-append (text_eq id) joined (j ∷ []),
  text_eq_iff id j,
)

has_room-evict :
    (id : Text) (active joined : List Text)
    → has_room id (evict active joined) ≡ (has_room id joined && has_room id active)
unfolding evict
has_room-evict id active [] = refl
has_room-evict id active (j ∷ joined) =
    ground (arith, has_room-evict id active joined, text_eq_iff id j)

-- An event that does not take the id out of the tabs and does not end the connection.
abbrev pub Keeps : Text → RoomEvent → Type 0
Keeps id (tabs_change tabs) = has_room id (active_ids tabs) ≡ true
Keeps id connects = Unit {0}
Keeps id disconnects = ⊥

step-count :
    (id : Text) (e : RoomEvent) (st : RoomState)
    → Keeps id e
    → one_if (has_room id st.joined) + count (text_eq id) (step e st).1
      ≡ one_if (has_room id (step e st).0.joined)
unfolding step follow_tabs on_connect
step-count id (tabs_change tabs) st h = ground (
  arith,
  has_room-evict id (active_ids tabs) st.joined,
  join_new-count id (active_ids tabs) (evict (active_ids tabs) st.joined),
)
step-count id connects st h = elim (Option-cases st.waiting) [
  | inl e ↦ rw (e, on_connect) (omega arith)
  | inr (ids, e) ↦ rw (e, on_connect) (join_new-count id ids st.joined)
]
step-count id disconnects st h = elim h [ ]

-- While an id stays in the tabs and the channel does not disconnect, `join-connection` is sent for it
-- exactly once if it was not joined before and is so after, and else not at all.
pub run-joins_once :
    (id : Text) (es : List RoomEvent) (st : RoomState)
    → All (Keeps id) es
    → one_if (has_room id st.joined) + count (text_eq id) (run es st).1
      ≡ one_if (has_room id (run es st).0.joined)
unfolding run
run-joins_once id [] st h = ground arith
run-joins_once id (e ∷ es) st (k, h) =
    let (st', ids) = step e st in
    omega (
      arith,
      step-count id e st k,
      run-joins_once id es st' h,
      count-append (text_eq id) ids (run es st').1,
    )

-- What is joined after: what was, and the ids.
has_room-join_new :
    (id : Text) (ids joined : List Text)
    → has_room id (join_new ids joined).0 ≡ (if has_room id ids then true else has_room id joined)
unfolding join_new
has_room-join_new id [] joined = refl
has_room-join_new id (j ∷ ids) joined = ground (
  arith,
  has_room-join_new id ids joined,
  has_room-join_new id ids (joined ++ j ∷ []),
  any-append (text_eq id) joined (j ∷ []),
  text_eq_iff id j,
)

-- Once the tabs have changed and the channel is connected, the joined rooms are those of the
-- connections in the tabs, no more and no fewer; a channel that was not connected then joins them
-- when it connects.
pub follow_tabs-joined :
    (id : Text) (tabs : List ConnectionTab) (st : RoomState)
    → let after = (follow_tabs tabs st).0 in
      has_room id (if st.is_connected then after else (on_connect after).0).joined
      ≡ has_room id (active_ids tabs)
unfolding follow_tabs on_connect
follow_tabs-joined id tabs st = ground (
  arith,
  has_room-join_new id (active_ids tabs) (evict (active_ids tabs) st.joined),
  has_room-evict id (active_ids tabs) st.joined,
)

-- While the channel is connected no `joinNew` waits for it to connect.
abbrev pub NoneWaits : RoomState → Type 0
NoneWaits st = st.is_connected ≡ true → st.waiting ≡ none

step-NoneWaits : (e : RoomEvent) (st : RoomState) → NoneWaits st → NoneWaits (step e st).0
unfolding step follow_tabs on_connect on_disconnect
step-NoneWaits (tabs_change tabs) st h c = ground (arith, c)
step-NoneWaits connects st h c = elim (Option-cases st.waiting) [
  | inl e ↦ rw (e, on_connect) e
  | inr (ids, e) ↦ rw (e, on_connect) refl
]
step-NoneWaits disconnects st h c = cc

run-NoneWaits : (es : List RoomEvent) (st : RoomState) → NoneWaits st → NoneWaits (run es st).0
unfolding run
run-NoneWaits [] st h = h
run-NoneWaits (e ∷ es) st h = run-NoneWaits es (step e st).0 (step-NoneWaits e st h)

-- Wherever the channel is connected after some events, losing the connection and finding it again
-- joins nothing: no `join-connection` is sent and no room is joined, until the tabs change.
pub reconnect_joins_nothing :
    (es : List RoomEvent)
    → (run es no_rooms).0.is_connected ≡ true
    → run (disconnects ∷ connects ∷ []) (run es no_rooms).0
      ≡ (record { is_connected = true; joined = []; waiting = none }, [])
unfolding run step on_connect on_disconnect
reconnect_joins_nothing es c =
    let quiet : (run es no_rooms).0.waiting ≡ none = run-NoneWaits es no_rooms (λ k. refl) c in
    rw (quiet, on_connect) (rw quiet refl)
