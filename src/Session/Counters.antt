-- ===== src/Session/Counters.antt =====
-- The counters of a session against the history of calls.
use socket_tester.Base.{
  ℕ, ◌+◌, ◌≡◌, ◌≢◌, none, some, List, [], ◌∷◌, Text, text_eq, text_eq_iff, lookup, All, total,
  default, if◌then◌else◌, arith,
}
use socket_tester.Session.{
  ConnectionSession, Sessions, ConnectionStatus, with_status, with_sent, with_received,
  with_latency, with_error, with_reconnection, with_buffered, with_topic, without_topic,
}
use socket_tester.Session.Calls.{
  Call, creates, sets_status, sends, receives, fails, reconnects, deletes, step, run, subject,
  effect, lookup-step,
}

-- What one call adds for the connection `id`.
abbrev messages_out : Text → Call → ℕ
messages_out id (sends j bytes) = if text_eq j id then 1 else 0
messages_out id _ = 0

abbrev bytes_out : Text → Call → ℕ
bytes_out id (sends j bytes) = if text_eq j id then bytes else 0
bytes_out id _ = 0

abbrev messages_in : Text → Call → ℕ
messages_in id (receives j bytes latency) = if text_eq j id then 1 else 0
messages_in id _ = 0

abbrev bytes_in : Text → Call → ℕ
bytes_in id (receives j bytes latency) = if text_eq j id then bytes else 0
bytes_in id _ = 0

abbrev errors : Text → Call → ℕ
errors id (fails j) = if text_eq j id then 1 else 0
errors id _ = 0

abbrev reconnections : Text → Call → ℕ
reconnections id (reconnects j) = if text_eq j id then 1 else 0
reconnections id _ = 0

-- The call neither starts nor ends the session of `id`.
abbrev Keeps : Text → Call → Type 0
Keeps id (creates j url kind now) = j ≢ id
Keeps id (deletes j) = j ≢ id
Keeps id _ = Unit {0}

pub record Grows (id : Text) (cs : List Call) (s t : ConnectionSession) : Type 0 where
  pub sent : t.stats.messages_sent ≡ s.stats.messages_sent + total (messages_out id) cs
  pub sent_bytes : t.stats.bytes_sent ≡ s.stats.bytes_sent + total (bytes_out id) cs
  pub received : t.stats.messages_received ≡ s.stats.messages_received + total (messages_in id) cs
  pub received_bytes : t.stats.bytes_received ≡ s.stats.bytes_received + total (bytes_in id) cs
  pub failed : t.stats.error_count ≡ s.stats.error_count + total (errors id) cs
  pub reconnected :
      t.stats.reconnection_count ≡ s.stats.reconnection_count + total (reconnections id) cs

Grows-nil : (id : Text) (s : ConnectionSession) → Grows id [] s s
Grows-nil id s = omega arith

Grows-cons :
    (id : Text) (c : Call) (cs : List Call) (s t u : ConnectionSession)
    → Grows id (c ∷ []) s t
    → Grows id cs t u
    → Grows id (c ∷ cs) s u
Grows-cons id c cs s t u g h = omega arith

-- The session of `id` after one call.
after : Text → Call → ConnectionSession → ConnectionSession
after id c s = if text_eq (subject c) id then default s (effect c (some s)) else s

lookup-step-after :
    (id : Text) (m : Sessions) (c : Call) (s : ConnectionSession)
    → lookup id m ≡ some s
    → Keeps id c
    → lookup id (step m c) ≡ some (after id c s)
unfolding after effect
lookup-step-after id m (creates j url kind now) s e k =
    ground (arith, lookup-step id m (creates j url kind now), text_eq_iff j id)
lookup-step-after id m (deletes j) s e k =
    ground (arith, lookup-step id m (deletes j), text_eq_iff j id)
lookup-step-after id m c s e k = ground (arith, lookup-step id m c)

after-Grows :
    (id : Text) (c : Call) (s : ConnectionSession) → Keeps id c → Grows id (c ∷ []) s (after id c s)
unfolding after effect with_status with_latency with_sent with_received with_error with_reconnection
    with_buffered with_topic without_topic
after-Grows id (creates j url kind now) s k = ground (arith, text_eq_iff j id)
after-Grows id (sets_status j ConnectionStatus.connected message now) s k = ground arith
after-Grows id (sets_status j st message now) s k = ground arith
after-Grows id (receives j bytes none) s k = ground arith
after-Grows id (receives j bytes (some l)) s k = ground arith
after-Grows id (deletes j) s k = ground (arith, text_eq_iff j id)
after-Grows id c s k = ground arith

-- While nothing creates or deletes it, a session counts the messages, bytes, errors and reconnections
-- that were recorded for its connection, and none of another's.
pub counters-run :
    (id : Text) (cs : List Call) (m : Sessions) (s : ConnectionSession)
    → lookup id m ≡ some s
    → All (Keeps id) cs
    → (t : ConnectionSession) × (lookup id (run m cs) ≡ some t) × Grows id cs s t
unfolding run
counters-run id [] m s e k = (s, e, Grows-nil id s)
counters-run id (c ∷ cs) m s e (k, ks) =
    let (t, found, grown) =
      counters-run id cs (step m c) (after id c s) (lookup-step-after id m c s e k) ks in
    (t, found, Grows-cons id c cs s (after id c s) t (after-Grows id c s k) grown)
