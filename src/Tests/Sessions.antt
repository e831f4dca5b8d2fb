-- ===== src/Tests/Sessions.antt =====
-- The sessions at a short history.
use socket_tester.Base.{
  ◌≡◌, ◌≢◌, refl, none, some, List, [], ◌∷◌, Text, lit, text_eq, lookup, insert, ne_of_text_eq,
}
use socket_tester.Session.{
  ConnectionSession, connected, websocket, mqtt, Sessions, new_session, create,
}
use socket_tester.Session.Calls.{
  Call, creates, sets_status, sends, receives, fails, buffers, adds_topic, run,
}
use socket_tester.Session.Isolation.{lookup-run_other}
use socket_tester.Session.Consistency.{AreConsistent, run-AreConsistent}
use socket_tester.Session.Counters.{Grows, counters-run}

abbrev left : Text
left = lit "a"

abbrev right : Text
right = lit "b"

abbrev two_sessions : Sessions
two_sessions =
    create right (lit "mqtt://h") mqtt 2000 (create left (lit "ws://h") websocket 1000 [])

abbrev history : List Call
history =
    sets_status left connected none 1010
    ∷ sends left 5
    ∷ receives left 7 (some 12)
    ∷ receives left 9 (some 15)
    ∷ fails left
    ∷ buffers left (lit "connection:message") []
    ∷ adds_topic left (lit "t")
    ∷ []

left-ne-right : left ≢ right
unfolding text_eq lit
left-ne-right = ne_of_text_eq left right refl

run-AreConsistent_example :
    AreConsistent (run [] (creates left (lit "ws://h") websocket 1000 ∷ history))
run-AreConsistent_example =
    run-AreConsistent (creates left (lit "ws://h") websocket 1000 ∷ history) [] tt

lookup-run_other_example : lookup right (run two_sessions history) ≡ lookup right two_sessions
lookup-run_other_example = lookup-run_other right history two_sessions (
  left-ne-right,
  (
    left-ne-right,
    (left-ne-right, (left-ne-right, (left-ne-right, (left-ne-right, (left-ne-right, tt))))),
  ),
)

found_left : lookup left two_sessions ≡ some (new_session left (lit "ws://h") websocket 1000)
unfolding create lookup insert text_eq lit
found_left = refl

counters-run_example :
    (t : ConnectionSession) × (lookup left (run two_sessions history) ≡ some t)
    × Grows left history (new_session left (lit "ws://h") websocket 1000) t
counters-run_example =
    counters-run left history two_sessions (new_session left (lit "ws://h") websocket 1000)
      found_left (tt, (tt, (tt, (tt, (tt, (tt, (tt, tt)))))))
