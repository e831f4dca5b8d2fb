-- ===== src/Client/Import.antt =====
-- src/client/src/components/shared/ImportModal.tsx: the configurations that a file holds, one
-- exported configuration or a Postman collection, and their import.
pub mod Selection
use socket_tester.Base.{
  ℕ, zero, suc, Bool, true, false, not, ◌&&◌, ◌||◌, Option, none, some, List, [], ◌∷◌, ◌++◌, map,
  filter, any, length, Text, lit, text_eq, truthy, starts_with, is_some, default, if◌then◌else◌,
  ◌==◌,
}
use socket_tester.Json.{
  Value, null, bool, num, str, arr, obj, Items, nil, cons, Fields, end, field, get_field,
}
use socket_tester.Session.{ConnectionType, websocket, socketio}
use socket_tester.Client.Configs.{
  ProtocolConfig, Draft, SavedConfigs, no_config, save_config, ConnectionConfig,
}

-- `Boolean(v)`
abbrev is_truthy : Value → Bool
is_truthy null = false
is_truthy (bool b) = b
is_truthy (num n) = not (n == 0)
is_truthy (str s) = truthy s
is_truthy (arr items) = true
is_truthy (obj fs) = true

-- One string for each character, as iterating over a string gives them; none has fields.
abbrev characters : Text → List Value
characters [] = []
characters (c ∷ s) = str (c ∷ []) ∷ characters s

abbrev append_both : Option (List Value) → Option (List Value) → Option (List Value)
append_both none later = none
append_both (some xs) none = none
append_both (some xs) (some ys) = some (xs ++ ys)

-- `flattenPostmanItems`; what throws, an item that is null or a folder that cannot be iterated, is
-- `none`. The folder of an object is its field `item`, if that is truthy.
unfoldable mutual
  flatten_value : Value → Option (List Value)
  flatten_value null = none
  flatten_value (bool b) = none
  flatten_value (num n) = none
  flatten_value (str s) = some (characters s)
  flatten_value (arr items) = flatten_items items
  flatten_value (obj fs) = none

  flatten_items : Items → Option (List Value)
  flatten_items nil = some []
  flatten_items (cons v items) = append_both (flatten_item v) (flatten_items items)

  flatten_item : Value → Option (List Value)
  flatten_item null = none
  flatten_item (bool b) = some (bool b ∷ [])
  flatten_item (num n) = some (num n ∷ [])
  flatten_item (str s) = some (str s ∷ [])
  flatten_item (arr items) = some (arr items ∷ [])
  flatten_item (obj fs) = default (some (obj fs ∷ [])) (flatten_folder fs)

  -- The flattened field `item`, unless it is missing or falsy.
  flatten_folder : Fields → Option (Option (List Value))
  flatten_folder end = none
  flatten_folder (field k v fs) =
      let here = flatten_value v in
      let rest = flatten_folder fs in
      if text_eq k (lit "item") then (if is_truthy v then some here else none) else rest

abbrev field_of : Text → Value → Option Value
field_of k (obj fs) = get_field k fs
field_of k _ = none

abbrev text_of : Option Value → Text
text_of (some (str s)) = s
text_of _ = []

-- `item.request?.url`, and `raw?.raw ?? ''` where that is no string.
unfoldable extract_url : Value → Text
extract_url item = elim (field_of (lit "request") item) [
  | none ↦ []
  | some request ↦ elim (field_of (lit "url") request) [
    | none ↦ []
    | some url ↦ elim url [ str s ↦ s | obj fs ↦ text_of (get_field (lit "raw") fs) | _ ↦ [] ]
  ]
]

-- `item.name ?? url`; a name is a text.
unfoldable name_of : Value → Text → Text
name_of item url = elim (field_of (lit "name") item) [
  | none ↦ url
  | some name ↦ elim name [ str s ↦ s | _ ↦ url ]
]

abbrev draft_at : Text → ConnectionType → Text → Draft
draft_at name protocol url = record {
  name = name;
  protocol = protocol;
  config = record no_config { url = some url };
}

-- The configuration of one item, none where the address has another scheme.
unfoldable draft_of_item : Value → Option Draft
unfolding extract_url name_of
draft_of_item item =
    let url = extract_url item in
    let name = name_of item url in
    if starts_with url (lit "ws://") || starts_with url (lit "wss://")
    then some (draft_at name websocket url)
    else if starts_with url (lit "http://") || starts_with url (lit "https://")
    then some (draft_at name socketio url)
    else none

-- `.filter((x) => x !== null)`
unfoldable pub present : List (Option Draft) → List Draft
present [] = []
present (none ∷ ds) = present ds
present (some d ∷ ds) = d ∷ present ds

unfoldable pub drafts_of_items : List Value → List Draft
unfolding draft_of_item present
drafts_of_items items = present (map draft_of_item items)

pub data ParseError : Type 0 where
  invalid_json type_error unrecognised : ParseError

pub data Parsed : Type 0 where
  drafts : List Draft → Parsed
  throws : ParseError → Parsed

-- `parse` is `JSON.parse`; `as_draft` takes the fields `protocol` and `config` of an exported file as
-- they are, with this name.
module _ (parse : Text → Option Value) (as_draft : Text → Value → Value → Draft) where
  unfoldable collection : Option Value → Parsed
  unfolding flatten_value drafts_of_items
  collection none = throws unrecognised
  collection (some items) =
      if is_truthy items
      then elim (flatten_value items) [
        | none ↦ throws type_error
        | some leaves ↦ drafts (drafts_of_items leaves)
      ]
      else throws unrecognised

  unfoldable parse_value : Value → Parsed
  unfolding collection
  parse_value null = throws type_error
  parse_value (obj fs) = elim (get_field (lit "protocol") fs) [
    | none ↦ collection (get_field (lit "item") fs)
    | some protocol ↦ elim (get_field (lit "config") fs) [
      | none ↦ collection (get_field (lit "item") fs)
      | some config ↦ drafts (as_draft (name_of (obj fs) (lit "Imported")) protocol config ∷ [])
    ]
  ]
  parse_value other = throws unrecognised

  unfoldable pub parse_file : Text → Parsed
  unfolding parse_value
  parse_file text = elim (parse text) [ none ↦ throws invalid_json | some v ↦ parse_value v ]

-- The state of the dialog.
pub record ImportState : Type 0 where
  pub preview : List Draft
  pub selected : List ℕ
  pub import_error : Option ParseError

abbrev pub indices_from : ℕ → List Draft → List ℕ
indices_from i [] = []
indices_from i (d ∷ ds) = i ∷ indices_from (suc i) ds

-- `processFile`: everything is selected; an error leaves the selection.
unfoldable pub show_parsed : Parsed → ImportState → ImportState
show_parsed (drafts ds) st = record {
  preview = ds;
  selected = indices_from 0 ds;
  import_error = none;
}
show_parsed (throws e) st = record st { preview = []; import_error = some e }

unfoldable pub toggle_select : ℕ → Bool → ImportState → ImportState
toggle_select i checked st =
    let others = filter (λ j. not (j == i)) st.selected in
    record st { selected = if checked then others ++ i ∷ [] else others }

-- `handleImport`: each selected configuration is saved; `uuid` gives the i-th id.
unfoldable pub import_from :
    (List ConnectionConfig → Text)
    → (ℕ → Text)
    → ℕ
    → List ℕ
    → ℕ
    → List Draft
    → SavedConfigs
    → SavedConfigs
import_from stringify uuid now selected i [] st = st
import_from stringify uuid now selected i (d ∷ ds) st =
    import_from stringify uuid now selected (suc i) ds
      (if any (λ j. j == i) selected then save_config stringify d (uuid i) now st else st)

unfoldable pub handle_import :
    (List ConnectionConfig → Text) → (ℕ → Text) → ℕ → ImportState → SavedConfigs → SavedConfigs
unfolding import_from
handle_import stringify uuid now dialog st =
    import_from stringify uuid now dialog.selected 0 dialog.preview st
