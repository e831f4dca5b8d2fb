-- ===== src/Client/Messages/Feed.antt =====
-- What a tab's feed shows as messages of all connections come and go.
use socket_tester.Base.{
  ℕ, ◌≤◌, ◌≡◌, refl, Bool, true, not, ◌&&◌, some, List, [], ◌∷◌, ◌++◌, filter, drop, length,
  length-append, length-drop, leb, Text, text_eq, text_eq_iff, truthy, if◌then◌else◌, arith,
}
use socket_tester.Client.Messages.{
  Message, NewMessage, MessageState, connection, passes, get_filtered, add_message, clear_messages,
  message_of, push, max_messages,
}

filter-append :
    (p : Message → Bool) (xs ys : List Message) → filter p (xs ++ ys) ≡ filter p xs ++ filter p ys
filter-append p [] ys = refl
filter-append p (x ∷ xs) ys = ground (arith, filter-append p xs ys)

-- Keeping what another connection has, and then one connection's.
filter-filter :
    (id j : Text) (q : Message → Bool) (xs : List Message)
    → filter
        (λ m. text_eq m.connection_id id && q m)
        (filter (λ m. not (text_eq m.connection_id j)) xs)
      ≡ (if text_eq id j then [] else filter (λ m. text_eq m.connection_id id && q m) xs)
filter-filter id j q [] = ground arith
filter-filter id j q (x ∷ xs) = ground (
  arith,
  filter-filter id j q xs,
  text_eq_iff x.connection_id id,
  text_eq_iff x.connection_id j,
  text_eq_iff id j,
)

-- Under any filter, a message that is added to a store that is not full stands last in the feed of
-- its connection if it passes the filter, and no other feed changes; once a full store takes a
-- message, the feed is the one of the store without its oldest message.
pub get_filtered-add_message :
    (lower : Text → Text) (id : Text) (m : NewMessage) (uuid : Text) (now : ℕ) (st : MessageState)
    → let msg = message_of uuid now m in
      let old = if leb 1000 (length st.messages) then drop 1 st.messages else st.messages in
      get_filtered lower (connection id) (add_message m uuid now st)
      ≡ get_filtered lower (connection id) (record st { messages = old })
        ++ (if text_eq m.connection_id id && passes lower st.filters msg then msg ∷ [] else [])
unfolding get_filtered add_message push
get_filtered-add_message lower id m uuid now st = ground (
  arith,
  filter-append (λ x. text_eq x.connection_id id && passes lower st.filters x)
      (if leb 1000 (length st.messages) then drop 1 st.messages else st.messages)
      (message_of uuid now m ∷ []),
)

-- Clearing the messages of a connection, whose id is not empty, empties its feed and leaves the feed
-- of every other connection as it is, whatever the filter.
pub get_filtered-clear_messages :
    (lower : Text → Text) (id j : Text) (st : MessageState)
    → truthy j ≡ true
    → get_filtered lower (connection id) (clear_messages (some j) st)
      ≡ (if text_eq id j then [] else get_filtered lower (connection id) st)
unfolding get_filtered clear_messages
get_filtered-clear_messages lower id j st h =
    ground (arith, filter-filter id j (passes lower st.filters) st.messages)

-- The store never holds more than 1000 messages.
pub push_few :
    (msg : Message) (messages : List Message)
    → length messages ≤ max_messages
    → length (push msg messages) ≤ max_messages
unfolding push
push_few msg messages h = ground (
  arith,
  length-append (drop 1 messages) (msg ∷ []),
  length-append messages (msg ∷ []),
  length-drop 1 messages,
)
