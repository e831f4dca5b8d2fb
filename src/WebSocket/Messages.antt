-- ===== src/WebSocket/Messages.antt =====
-- Sending a message, and the latency of the answer.
use socket_tester.Base.{
  ◌⊎◌, Map, ap, ◌∙◌, ℕ, zero, suc, ◌-◌, ◌≤◌, ◌<◌, ◌≡◌, refl, Option, none, some, List, [], ◌∷◌,
  ◌++◌, Bool, false, Text, lit, lookup, delete, insert, lookup-insert_self, lookup-delete_self,
  arith, Option-cases, Bool-cases, inl, inr, ltb,
}
use socket_tester.Session.{record_message_sent, record_message_received}
use socket_tester.Log.{outward}
use socket_tester.Network.{Fraction, should_drop}
use socket_tester.Gateway.{emit_to_connection}
use socket_tester.App.{
  App, Error, Result, ok, err, thrown, Payload, WsCall, on_ws, on_sessions, write_log, emit, ◌|>◌,
}
use socket_tester.WebSocket.{
  SendMessageDto, payload_of, payload_size, send_message, sent_data, message_log,
}
use socket_tester.WebSocket.Handlers.{on_message, take_latency}

pub Result-cases {ℓ} :
    {A : Type ℓ} (r : Result A) → ((e : Error) × (r ≡ err e)) ⊎ ((a : A) × (r ≡ ok a))
Result-cases (ok a) = inr (a, refl)
Result-cases (err e) = inl (e, refl)

take_latency-some :
    (key : Text) (ts t : ℕ) (stamps : Map ℕ)
    → lookup key stamps ≡ some ts
    → 0 < ts
    → take_latency key t stamps ≡ (delete key stamps, some (t - ts))
unfolding take_latency
take_latency-some key zero t stamps e h = elim h [ ]
take_latency-some key (suc ts) t stamps e h = rw (e, take_latency)

take_latency-none :
    (key : Text) (t : ℕ) (stamps : Map ℕ)
    → lookup key stamps ≡ none
    → take_latency key t stamps ≡ (stamps, none)
unfolding take_latency
take_latency-none key t stamps e = rw (e, take_latency)

on_message_kept :
    (id payload : Text) (size : ℕ) (r q : Fraction) (t : ℕ) (app : App) (stamps : Map ℕ)
    (latency : Option ℕ)
    → should_drop id r app.network ≡ false
    → take_latency id t app.ws.ping_timestamps ≡ (stamps, latency)
    → let app' = on_message id payload size r q t app in
      (app'.sessions ≡ record_message_received id size latency app.sessions)
      × (app'.ws.ping_timestamps ≡ stamps)
      × (app'.network ≡ app.network)
unfolding on_message
on_message_kept id payload size r q t app stamps latency kept e = rw (kept, e) (refl, refl, refl)

on_message_twice :
    (id reply again : Text) (size size' : ℕ) (r r' q q' : Fraction) (ts t t' : ℕ) (app : App)
    → lookup id app.ws.ping_timestamps ≡ some ts
    → 0 < ts
    → should_drop id r app.network ≡ false
    → should_drop id r' app.network ≡ false
    → let first = on_message id reply size r q t app in
      let second = on_message id again size' r' q' t' first in
      (first.sessions ≡ record_message_received id size (some (t - ts)) app.sessions)
      × (second.sessions ≡ record_message_received id size' none first.sessions)
on_message_twice id reply again size size' r r' q q' ts t t' app e pos a b =
    let (s, stamps, net) =
      on_message_kept id reply size r q t app _ _ a
        (take_latency-some id ts t app.ws.ping_timestamps e pos) in
    let first = on_message id reply size r q t app in
    let gone = ap (lookup id) stamps ∙ lookup-delete_self id app.ws.ping_timestamps in
    (
      s,
      (on_message_kept id again size' r' q' t' first _ _ (ap (should_drop id r') net ∙ b)
          (take_latency-none id t' first.ws.ping_timestamps gone)).0,
    )

module _ (is_json : Text → Bool) (decode_base64 : Text → List ℕ) (max_bytes : ℕ) (id : Text)
    (dto : SendMessageDto) (accepts : Bool) (now : ℕ) (app : App) where
  -- The timestamp is set before the socket is asked.
  abbrev stamped : App
  stamped = on_ws (λ w. record w { ping_timestamps = insert id now w.ping_timestamps }) app

  abbrev sent : ℕ → Payload → App
  sent handle payload =
      let size = payload_size payload in
      stamped
      |> on_ws (λ w. record w { calls = w.calls ++ WsCall.sends handle payload ∷ [] })
      |> on_sessions (record_message_sent id size)
      |> write_log (message_log id outward dto.payload size none) now
      |> emit id (lit "connection:message") (sent_data id dto size now)

  -- The branches of `send_message`.
  send_message_cases {κ} :
      (P : App × Result (Unit {0}) → Type κ)
      → ((e : Error) → P (app, err e))
      → P (stamped, err thrown)
      → ((handle : ℕ) (payload : Payload)
          → lookup id app.ws.sockets ≡ some handle
          → payload_of is_json decode_base64 dto ≡ ok payload
          → ltb max_bytes (payload_size payload) ≡ false
          → P (sent handle payload, ok tt))
      → P (send_message is_json decode_base64 max_bytes id dto accepts now app)
  unfolding send_message
  send_message_cases P refused threw accepted = elim (Option-cases (lookup id app.ws.sockets)) [
    | inl e ↦ rw (e, send_message) (refused _)
    | inr (handle, found) ↦
        rw (found, send_message)
          (elim (Result-cases (payload_of is_json decode_base64 dto)) [
            | inl (e, bad) ↦ rw bad (refused e)
            | inr (payload, good) ↦
                rw good (elim (Bool-cases (ltb max_bytes (payload_size payload))) [
                  | inl large ↦ rw large (refused _)
                  | inr fits ↦ rw fits (elim (Bool-cases accepts) [
                    | inl yes_sent ↦ rw yes_sent (accepted handle payload found good fits)
                    | inr no_sent ↦ rw no_sent threw
                  ])
                ])
          ])
  ]

  -- A message that is refused, for an unknown connection, for invalid JSON, for its size or by the
  -- socket, reaches neither the socket nor the counters, the log or the browser.
  pub send_message_refused :
      (e : Error)
      → (send_message is_json decode_base64 max_bytes id dto accepts now app).1 ≡ err e
      → let app' = (send_message is_json decode_base64 max_bytes id dto accepts now app).0 in
        (app'.ws.calls ≡ app.ws.calls)
        × (app'.sessions ≡ app.sessions)
        × (app'.logs ≡ app.logs)
        × (app'.emitted ≡ app.emitted)
  send_message_refused e =
      send_message_cases
        (λ r.
          r.1 ≡ err e
          → (r.0.ws.calls ≡ app.ws.calls)
            × (r.0.sessions ≡ app.sessions)
            × (r.0.logs ≡ app.logs)
            × (r.0.emitted ≡ app.emitted))
        (λ f h. (refl, refl, refl, refl)) (λ h. (refl, refl, refl, refl))
        (λ handle payload found good fits h. cc)

  -- A message that is accepted is within the size limit, is handed to the connection's socket once, is
  -- counted with its size, and is shown to the browser once.
  pub send_message_accepted :
      (send_message is_json decode_base64 max_bytes id dto accepts now app).1 ≡ ok tt
      → let app' = (send_message is_json decode_base64 max_bytes id dto accepts now app).0 in
        (handle : ℕ) × (payload : Payload) × (lookup id app.ws.sockets ≡ some handle)
        × (payload_of is_json decode_base64 dto ≡ ok payload)
        × (payload_size payload ≤ max_bytes)
        × (app'.ws.calls ≡ app.ws.calls ++ WsCall.sends handle payload ∷ [])
        × (app'.sessions ≡ record_message_sent id (payload_size payload) app.sessions)
        × (app'.emitted
            ≡ emit_to_connection id
                (lit "connection:message")
                (sent_data id dto (payload_size payload) now)
                app.emitted)
  send_message_accepted =
      send_message_cases
        (λ r.
          r.1 ≡ ok tt
          → (handle : ℕ) × (payload : Payload) × (lookup id app.ws.sockets ≡ some handle)
            × (payload_of is_json decode_base64 dto ≡ ok payload)
            × (payload_size payload ≤ max_bytes)
            × (r.0.ws.calls ≡ app.ws.calls ++ WsCall.sends handle payload ∷ [])
            × (r.0.sessions ≡ record_message_sent id (payload_size payload) app.sessions)
            × (r.0.emitted
                ≡ emit_to_connection id (lit "connection:message")
                    (sent_data id dto (payload_size payload) now) app.emitted))
        (λ f h. cc) (λ h. cc)
        (λ handle payload found good fits h.
          (handle, payload, found, good, ground arith, refl, refl, refl))

  send_message-network :
      (send_message is_json decode_base64 max_bytes id dto accepts now app).0.network ≡ app.network
  send_message-network =
      send_message_cases (λ r. r.0.network ≡ app.network) (λ e. refl) refl
        (λ handle payload a b c. refl)

  send_message-stamp :
      (send_message is_json decode_base64 max_bytes id dto accepts now app).1 ≡ ok tt
      → lookup id
          (send_message is_json decode_base64 max_bytes id dto accepts now app).0.ws.ping_timestamps
        ≡ some now
  send_message-stamp =
      send_message_cases (λ r. r.1 ≡ ok tt → lookup id r.0.ws.ping_timestamps ≡ some now)
        (λ e h. cc) (λ h. cc)
        (λ handle payload a b c h. lookup-insert_self id now app.ws.ping_timestamps)

  -- After a message was accepted at a positive time, the first message that comes back is recorded
  -- with the time since then as its latency and the next one with none, where neither is dropped.
  pub send_message_latency :
      (reply again : Text) (size size' : ℕ) (r r' q q' : Fraction) (t t' : ℕ)
      → (send_message is_json decode_base64 max_bytes id dto accepts now app).1 ≡ ok tt
      → 0 < now
      → should_drop id r app.network ≡ false
      → should_drop id r' app.network ≡ false
      → let first =
          on_message id reply size r q t
            (send_message is_json decode_base64 max_bytes id dto accepts now app).0 in
        let second = on_message id again size' r' q' t' first in
        (first.sessions
          ≡ record_message_received id size
              (some (t - now))
              (send_message is_json decode_base64 max_bytes id dto accepts now app).0.sessions)
        × (second.sessions ≡ record_message_received id size' none first.sessions)
  send_message_latency reply again size size' r r' q q' t t' h pos a b =
      on_message_twice id reply again size size' r r' q q' now t t'
        (send_message is_json decode_base64 max_bytes id dto accepts now app).0
        (send_message-stamp h) pos (ap (should_drop id r) send_message-network ∙ a)
        (ap (should_drop id r') send_message-network ∙ b)
