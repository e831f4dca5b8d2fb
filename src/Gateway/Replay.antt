-- ===== src/Gateway/Replay.antt =====
-- What a client that joins a connection's room is told.
use mathlib.Core.List.{append-nil, append_assoc}
use socket_tester.Base.{
  sym, ◌+◌, ◌≤◌, ◌<◌, length, length-append, lookup-modify_self, ℕ, ◌≡◌, ◌≢◌, refl, ◌∙◌, ap, Option,
  some, List, [], ◌∷◌, ◌++◌, map, Text, text_eq_iff, default, lookup, lookup-modify, arith,
}
use socket_tester.Session.{
  ConnectionSession, connected, Sessions, get, topics_of, buffer_message, with_buffered, push_shift,
  Buffered,
}
use socket_tester.Gateway.{
  open_reply, replay, topic_reply, with_empty_buffer, clear_buffer, join_as, handle_join_connection,
}

handle_join_connection_connected :
    (id : Text) (now : ℕ) (m : Sessions) (s : ConnectionSession)
    → get id m ≡ some s
    → s.status ≡ connected
    → handle_join_connection id now m ≡ join_as connected id now s m
unfolding handle_join_connection
handle_join_connection_connected id now m s e c = rw (e, handle_join_connection) (rw c)

-- The session with an empty buffer, and nothing else changed.
abbrev pub IsEmptied : Text → ConnectionSession → Sessions → Type 0
IsEmptied id s m =
    (b : Option (List Buffered)) × (get id m ≡ some (record s { buffered_messages = b }))
    × (default [] b ≡ [])

clear_buffer-IsEmptied :
    (id : Text) (m : Sessions) (s : ConnectionSession)
    → get id m ≡ some s
    → IsEmptied id s (clear_buffer id (default [] s.buffered_messages) m)
unfolding clear_buffer get
clear_buffer-IsEmptied id m s e = go (default [] s.buffered_messages) refl
  where
    go :
        (bs : List Buffered)
        → default [] s.buffered_messages ≡ bs
        → IsEmptied id s (clear_buffer id bs m)
    go [] q = (s.buffered_messages, e, q)
    go (b ∷ bs) q = (
      some [],
      lookup-modify_self id with_empty_buffer m s e ∙ unfold with_empty_buffer in refl,
      refl,
    )

lookup-clear_buffer :
    (id k : Text) (bs : List Buffered) (m : Sessions)
    → k ≢ id
    → lookup k (clear_buffer id bs m) ≡ lookup k m
unfolding clear_buffer
lookup-clear_buffer id k [] m h = refl
lookup-clear_buffer id k (b ∷ bs) m h =
    ground (arith, lookup-modify id k with_empty_buffer m, text_eq_iff id k)

handle_join_connection_room :
    (id : Text) (now : ℕ) (m : Sessions) (s : ConnectionSession)
    → get id m ≡ some s
    → s.status ≡ connected
    → let j = handle_join_connection id now m in
      (j.replies
        ≡ open_reply id now s
          ∷ (map replay (default [] s.buffered_messages)
              ++ map (topic_reply id now s) (topics_of s)))
      × IsEmptied id s j.sessions
unfolding join_as
handle_join_connection_room id now m s e c =
    rw (handle_join_connection_connected id now m s e c) (refl, clear_buffer-IsEmptied id m s e)

handle_join_connection_other :
    (id k : Text) (now : ℕ) (m : Sessions) (s : ConnectionSession)
    → get id m ≡ some s
    → s.status ≡ connected
    → k ≢ id
    → get k (handle_join_connection id now m).sessions ≡ get k m
unfolding join_as get
handle_join_connection_other id k now m s e c h =
    rw (handle_join_connection_connected id now m s e c)
      (lookup-clear_buffer id k (default [] s.buffered_messages) m h)

-- A client that joins the room of a connected session is told that it is open, then gets every
-- buffered message in order, then every subscribed topic; the buffer of that session is emptied, and
-- nothing else of it and no other session `k` changes.
pub handle_join_connection_lem :
    (id k : Text) (now : ℕ) (m : Sessions) (s : ConnectionSession)
    → get id m ≡ some s
    → s.status ≡ connected
    → k ≢ id
    → let j = handle_join_connection id now m in
      (j.replies
        ≡ open_reply id now s
          ∷ (map replay (default [] s.buffered_messages)
              ++ map (topic_reply id now s) (topics_of s)))
      × IsEmptied id s j.sessions
      × (get k j.sessions ≡ get k m)
handle_join_connection_lem id k now m s e c h =
    let (replies, emptied) = handle_join_connection_room id now m s e c in
    (replies, emptied, handle_join_connection_other id k now m s e c h)

-- Messages that arrive for the connection, each buffered when it is forwarded.
abbrev pub buffer_all : Text → List Buffered → Sessions → Sessions
buffer_all id [] m = m
buffer_all id (b ∷ bs) m = buffer_all id bs (buffer_message id b.event b.data_sent m)

push_shift_room {ℓ} :
    {A : Type ℓ} (n : ℕ) (xs : List A) (x : A) → length xs < n → push_shift n xs x ≡ xs ++ x ∷ []
unfolding push_shift
push_shift_room n xs x h = ground (arith, length-append xs (x ∷ []))

get-buffer_all :
    (id : Text) (bs old : List Buffered) (m : Sessions) (s : ConnectionSession)
    (b : Option (List Buffered))
    → get id m ≡ some (record s { buffered_messages = b })
    → default [] b ≡ old
    → length old + length bs ≤ 100
    → (b' : Option (List Buffered)) × (get id (buffer_all id bs m)
        ≡ some (record s { buffered_messages = b' }))
      × (default [] b' ≡ old ++ bs)
unfolding buffer_message get with_buffered
get-buffer_all id [] old m s b e q h = (b, e, q ∙ sym (append-nil old))
get-buffer_all id (x ∷ bs) old m s b e q h =
    let (b', e', q') =
      get-buffer_all id bs (old ++ x ∷ []) (buffer_message id x.event x.data_sent m) s
        (some (push_shift 100 (default [] b) x))
        (lookup-modify_self id (with_buffered x) m (record s { buffered_messages = b }) e)
        (ap (λ l. push_shift 100 l x) q ∙ push_shift_room 100 old x (omega arith))
        (omega (arith, length-append old (x ∷ []))) in
    (b', e', q' ∙ append_assoc old (x ∷ []) bs)

-- When a client has joined and up to 100 messages have been buffered since, the next join replays all
-- of them.
pub handle_join_connection_again :
    (id : Text) (now later : ℕ) (m : Sessions) (s : ConnectionSession) (bs : List Buffered)
    → get id m ≡ some s
    → s.status ≡ connected
    → length bs ≤ 100
    → (handle_join_connection id later
        (buffer_all id bs (handle_join_connection id now m).sessions)).replies
      ≡ open_reply id later s ∷ (map replay bs ++ map (topic_reply id later s) (topics_of s))
handle_join_connection_again id now later m s bs e c h =
    let (b, e', q) = (handle_join_connection_room id now m s e c).1 in
    let (b'', e'', q'') =
      get-buffer_all id bs [] (handle_join_connection id now m).sessions s b e' q (omega arith) in
    (handle_join_connection_room id later _ (record s { buffered_messages = b'' }) e'' c).0
    ∙ ap (λ l. open_reply id later s ∷ (map replay l ++ map (topic_reply id later s) (topics_of s)))
        q''
