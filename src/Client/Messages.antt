-- ===== src/Client/Messages.antt =====
-- src/client/src/stores/messageStore.ts: the messages of all connections that the feeds show.
-- `lower` is `toLowerCase()`; `null` and `undefined` are told apart where the code does.
pub mod Feed
use socket_tester.Base.{
  ℕ, Bool, true, false, not, ◌&&◌, ◌||◌, Option, none, some, List, [], ◌∷◌, ◌++◌, filter, drop,
  length, leb, Text, text_eq, truthy, includes, default, given, if◌then◌else◌,
}

pub data MessageDirection : Type 0 where
  sent received system : MessageDirection

pub data MessageType : Type 0 where
  text json binary : MessageType

-- The optional fields of some protocols only, spread into a message.
pub record Extras : Type 0 where
  pub event_name : Option Text
  pub topic : Option Text
  pub qos : Option ℕ
  pub retain : Option Bool
  pub exchange : Option Text
  pub routing_key : Option Text
  pub delivery_tag : Option Text

pub record Message : Type 0 where
  pub id : Text
  pub connection_id : Text
  pub payload : Text
  pub direction : MessageDirection
  pub kind : MessageType
  pub timestamp : ℕ
  pub size : ℕ
  pub latency : Option ℕ
  pub extras : Extras

pub data DirectionFilter : Type 0 where
  all_directions : DirectionFilter
  only_direction : MessageDirection → DirectionFilter

pub data TypeFilter : Type 0 where
  all_types : TypeFilter
  only_type : MessageType → TypeFilter
  only_system : TypeFilter

pub record MessageFilter : Type 0 where
  pub search : Text
  pub direction : DirectionFilter
  pub kind : TypeFilter

-- `Partial<MessageFilter>`
pub record PartialFilter : Type 0 where
  pub search : Option Text
  pub direction : Option DirectionFilter
  pub kind : Option TypeFilter

pub record MessageState : Type 0 where
  pub messages : List Message
  pub filters : MessageFilter

-- What a caller of `addMessage` gives; the defaults are filled in.
pub record NewMessage : Type 0 where
  pub connection_id : Text
  pub payload : Text
  pub direction : MessageDirection
  pub kind : MessageType
  pub size : Option ℕ
  pub latency : Option ℕ
  pub extras : Extras

abbrev pub max_messages : ℕ
max_messages = 1000

abbrev pub no_extras : Extras
no_extras = record {
  event_name = none;
  topic = none;
  qos = none;
  retain = none;
  exchange = none;
  routing_key = none;
  delivery_tag = none;
}

abbrev pub no_messages : MessageState
no_messages = record {
  messages = [];
  filters = record { search = []; direction = all_directions; kind = all_types };
}

abbrev pub message_of : Text → ℕ → NewMessage → Message
message_of uuid now m = record {
  id = uuid;
  connection_id = m.connection_id;
  payload = m.payload;
  direction = m.direction;
  kind = m.kind;
  timestamp = now;
  size = default 0 m.size;
  latency = m.latency;
  extras = m.extras;
}

unfoldable pub push : Message → List Message → List Message
push msg messages =
    (if leb max_messages (length messages) then drop 1 messages else messages) ++ msg ∷ []

unfoldable pub add_message : NewMessage → Text → ℕ → MessageState → MessageState
unfolding push
add_message m uuid now st = record st { messages = push (message_of uuid now m) st.messages }

-- Without an id, or with the empty one, everything goes.
unfoldable pub clear_messages : Option Text → MessageState → MessageState
clear_messages id st =
    let wanted = default [] id in
    record st {
      messages =
          if truthy wanted
          then filter (λ m. not (text_eq m.connection_id wanted)) st.messages
          else [];
    }

unfoldable pub set_filter : PartialFilter → MessageState → MessageState
set_filter partial st = record st {
  filters = record {
    search = given partial.search st.filters.search;
    direction = given partial.direction st.filters.direction;
    kind = given partial.kind st.filters.kind;
  };
}

unfoldable pub direction_eq : MessageDirection → MessageDirection → Bool
direction_eq sent sent = true
direction_eq received received = true
direction_eq system system = true
direction_eq _ _ = false

unfoldable pub type_eq : MessageType → MessageType → Bool
type_eq text text = true
type_eq json json = true
type_eq binary binary = true
type_eq _ _ = false

unfoldable pub has_direction : DirectionFilter → Message → Bool
unfolding direction_eq
has_direction all_directions m = true
has_direction (only_direction d) m = direction_eq m.direction d

unfoldable pub has_type : TypeFilter → Message → Bool
unfolding direction_eq type_eq
has_type all_types m = true
has_type (only_type t) m = type_eq m.kind t
has_type only_system m = direction_eq m.direction system

unfoldable pub is_found : (Text → Text) → Text → Message → Bool
is_found lower search m =
    not (truthy search)
    || includes (lower m.payload) (lower search)
    || includes (lower (default [] m.extras.event_name)) (lower search)
    || includes (lower (default [] m.extras.topic)) (lower search)

-- One message passes all parts of the filter.
unfoldable pub passes : (Text → Text) → MessageFilter → Message → Bool
unfolding has_direction has_type is_found
passes lower f m = has_direction f.direction m && (has_type f.kind m && is_found lower f.search m)

pub data Wanted : Type 0 where
  undefined : Wanted
  null : Wanted
  connection : Text → Wanted

unfoldable pub get_filtered : (Text → Text) → Wanted → MessageState → List Message
unfolding passes
get_filtered lower undefined st = filter (passes lower st.filters) st.messages
get_filtered lower null st = []
get_filtered lower (connection id) st =
    filter (λ m. text_eq m.connection_id id && passes lower st.filters m) st.messages
