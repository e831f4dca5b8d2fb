-- ===== src/WebSocket/Pinging.antt =====
-- src/websocket/websocket.service.ts: the ping whose promise waits for its answer.
use socket_tester.Base.{
  ℕ, ◌+◌, Option, none, some, List, [], ◌∷◌, ◌++◌, Bool, true, false, not, Text, lit, lookup,
  insert, if◌then◌else◌, ◌==◌, filter,
}
use socket_tester.App.{
  not_found, Result, ok, err, ReadyState, WsPart, WsCall, PingResolver, PingTimer, rejected,
}

abbrev pub is_open : ReadyState → Bool
is_open ReadyState.open_state = true
is_open _ = false

-- `clearTimeout` of a ping's timer.
abbrev pub clear_ping_timer : ℕ → List PingTimer → List PingTimer
clear_ping_timer handle = filter (λ t. not (t.handle == handle))

-- `clearTimeout(existing.timer); existing.reject(new Error(message))`
unfoldable pub reject_pending : Text → Option PingResolver → WsPart → WsPart
reject_pending message none w = w
reject_pending message (some r) w = record w {
  ping_timers = clear_ping_timer r.timer w.ping_timers;
  settled = w.settled ++ rejected r.promise message ∷ [];
}

-- The promise and its timer share one fresh handle.
unfoldable pub start_ping : Text → ℕ → ℕ → WsPart → WsPart
start_ping id handle now w = record w {
  ping_resolvers =
      insert id (record { start_ts = now; promise = w.next_handle; timer = w.next_handle })
        w.ping_resolvers;
  ping_timers =
      w.ping_timers ++ record { handle = w.next_handle; owner = id; promise = w.next_handle } ∷ [];
  next_handle = w.next_handle + 1;
  calls = w.calls ++ WsCall.pings handle ∷ [];
}

-- The result is the promise.
unfoldable pub ping_async : (ℕ → ReadyState) → Text → ℕ → WsPart → WsPart × Result ℕ
ping_async ready id now w = elim (lookup id w.sockets) [
  | none ↦ (w, err (not_found (lit "Connection not found or not open: " ++ id)))
  | some handle ↦
      if is_open (ready handle)
      then (
        start_ping id handle now
            (reject_pending (lit "Superseded by new ping") (lookup id w.ping_resolvers) w),
        ok w.next_handle,
      )
      else (w, err (not_found (lit "Connection not found or not open: " ++ id)))
]
