-- ===== src/Client/Configs.antt =====
-- src/client/src/hooks/useSavedConfigs.ts: the saved configurations, at most 50, kept in local
-- storage. `parse` and `stringify` are those of JSON; a `parse` that throws is `none`.
pub mod Storage
use socket_tester.Base.{
  ℕ, suc, Bool, true, false, not, Option, none, some, List, [], ◌∷◌, ◌++◌, map, filter, length, leb,
  Text, text_eq, truthy, given, if◌then◌else◌,
}
use socket_tester.Session.{ConnectionType}

pub data AuthType : Type 0 where
  no_auth bearer apikey basic custom : AuthType

-- src/client/src/types/index.ts, in the fields that the form reads or writes; so below.
pub record AuthConfig : Type 0 where
  pub kind : AuthType
  pub socketio_auth : Option Text

-- The fields of all protocols' configurations, each absent where the object has none.
pub record ProtocolConfig : Type 0 where
  pub url : Option Text
  pub broker_url : Option Text
  pub headers : Option (List (Text × Text))
  pub protocols : Option Text
  pub auth : Option AuthConfig
  pub namespace : Option Text
  pub path : Option Text
  pub transports : Option (List Text)
  pub auto_reconnect : Option Bool
  pub reconnection_attempts : Option ℕ
  pub reconnection_delay : Option ℕ
  pub client_id : Option Text
  pub username : Option Text
  pub keepalive : Option ℕ
  pub clean : Option Bool
  pub vhost : Option Text
  pub heartbeat : Option ℕ

-- `Omit<ConnectionConfig, 'id' | 'createdAt' | 'updatedAt'>`
pub record Draft : Type 0 where
  pub name : Text
  pub protocol : ConnectionType
  pub config : ProtocolConfig

pub record ConnectionConfig : Type 0 where
  pub id : Text
  pub draft : Draft
  pub created_at : ℕ
  pub updated_at : ℕ

-- `Partial<ConnectionConfig>`, in the fields that may be given.
pub record PartialConfig : Type 0 where
  pub name : Option Text
  pub protocol : Option ConnectionType
  pub config : Option ProtocolConfig

-- `stored` is the item of local storage; `alerts` counts the warnings that the list is full.
pub record SavedConfigs : Type 0 where
  pub configs : List ConnectionConfig
  pub pending_load : Option ConnectionConfig
  pub stored : Option Text
  pub alerts : ℕ

abbrev pub max_configs : ℕ
max_configs = 50

abbrev pub no_config : ProtocolConfig
no_config = record {
  url = none;
  broker_url = none;
  headers = none;
  protocols = none;
  auth = none;
  namespace = none;
  path = none;
  transports = none;
  auto_reconnect = none;
  reconnection_attempts = none;
  reconnection_delay = none;
  client_id = none;
  username = none;
  keepalive = none;
  clean = none;
  vhost = none;
  heartbeat = none;
}

module _ (parse : Text → Option (List ConnectionConfig)) where
  unfoldable pub load_configs : Option Text → List ConnectionConfig
  load_configs none = []
  load_configs (some raw) = elim (parse raw) [
    | none ↦ []
    | some configs ↦ if truthy raw then configs else []
  ]

  -- The page loads.
  unfoldable pub initial : Option Text → SavedConfigs
  unfolding load_configs
  initial stored = record {
    configs = load_configs stored;
    pending_load = none;
    stored = stored;
    alerts = 0;
  }

unfoldable pub load_config : ConnectionConfig → SavedConfigs → SavedConfigs
load_config config st = record st { pending_load = some config }

unfoldable pub clear_pending_load : SavedConfigs → SavedConfigs
clear_pending_load st = record st { pending_load = none }

abbrev pub new_config : Draft → Text → ℕ → ConnectionConfig
new_config draft uuid now = record { id = uuid; draft = draft; created_at = now; updated_at = now }

abbrev pub update_draft : PartialConfig → Draft → Draft
update_draft updates d = record {
  name = given updates.name d.name;
  protocol = given updates.protocol d.protocol;
  config = given updates.config d.config;
}

module _ (stringify : List ConnectionConfig → Text) where
  -- `persistConfigs(next); set({ configs: next })`
  unfoldable pub keep : List ConnectionConfig → SavedConfigs → SavedConfigs
  keep next st = record st { configs = next; stored = some (stringify next) }

  unfoldable pub save_config : Draft → Text → ℕ → SavedConfigs → SavedConfigs
  unfolding keep
  save_config draft uuid now st =
      if leb max_configs (length st.configs)
      then record st { alerts = suc st.alerts }
      else keep (st.configs ++ new_config draft uuid now ∷ []) st

  unfoldable pub delete_config : Text → SavedConfigs → SavedConfigs
  unfolding keep
  delete_config id st = keep (filter (λ c. not (text_eq c.id id)) st.configs) st

  unfoldable pub update_config : Text → PartialConfig → ℕ → SavedConfigs → SavedConfigs
  unfolding keep
  update_config id updates now st =
      keep
        (map
          (λ c.
            if text_eq c.id id
            then record c { draft = update_draft updates c.draft; updated_at = now }
            else c)
          st.configs)
        st
