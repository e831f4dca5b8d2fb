-- ===== src/Client/Workspaces.antt =====
-- src/client/src/stores/workspaceStore.ts: workspaces with their environment variables, kept in the
-- browser's local storage. `uuid` is `crypto.randomUUID()`.
pub mod Storage
pub mod Variables
use mathlib.Core.Option
use socket_tester.Base.{
  ℕ, zero, suc, ◌-◌, ◌==◌, Option, none, some, List, [], ◌∷◌, ◌++◌, map, filter, find, any, length,
  Bool, true, false, not, ◌||◌, Text, lit, text_eq, starts_with, truthy, default, if◌then◌else◌,
}
use socket_tester.Json.{Value}

pub record EnvVar : Type 0 where
  pub key : Text
  pub value : Text
  pub is_secret : Option Bool

pub record Workspace : Type 0 where
  pub id : Text
  pub name : Text
  pub description : Option Text
  pub env_vars : List EnvVar
  pub connections : List Value
  pub created_at : ℕ
  pub updated_at : ℕ

-- The two entries of local storage.
pub record Stored : Type 0 where
  pub workspaces : Option Text
  pub active : Option Text

pub record WorkspaceState : Type 0 where
  pub workspaces : List Workspace
  pub active_id : Text
  -- the browser's side
  pub stored : Stored

unfoldable pub default_workspace : Text → ℕ → Workspace
default_workspace uuid now = record {
  id = uuid;
  name = lit "Default Workspace";
  description = none;
  env_vars = [];
  connections = [];
  created_at = now;
  updated_at = now;
}

abbrev pub has_id : Text → Workspace → Bool
has_id id w = text_eq w.id id

-- `workspaces.find((w) => w.id === id) ?? workspaces[0]`
unfoldable pub get_active_workspace : WorkspaceState → Option Workspace
get_active_workspace st = elim (find (has_id st.active_id) st.workspaces) [
  | some w ↦ some w
  | none ↦ elim st.workspaces [ [] ↦ none | w ∷ ws ↦ some w ]
]

-- The first variable with the key is replaced, or a new one added.
unfoldable pub put_var : EnvVar → List EnvVar → List EnvVar
put_var v [] = v ∷ []
put_var v (x ∷ xs) = let rest = put_var v xs in if text_eq x.key v.key then v ∷ xs else x ∷ rest

-- `s.split(needle).join(value)`, for a needle that is not empty. `skip` units belong to a match.
unfoldable pub replace_from : ℕ → Text → Text → Text → Text
replace_from skip needle value [] = []
replace_from (suc skip) needle value (c ∷ s) = replace_from skip needle value s
replace_from zero needle value (c ∷ s) =
    let matched = replace_from (length needle - 1) needle value s in
    let rest = replace_from zero needle value s in
    if starts_with (c ∷ s) needle then value ++ matched else c ∷ rest

-- `{{${key}}}`
abbrev pub placeholder : Text → Text
placeholder key = lit "{{" ++ (key ++ lit "}}")

unfoldable pub resolve_with : List EnvVar → Text → Text
unfolding replace_from
resolve_with [] s = s
resolve_with (v ∷ vs) s = resolve_with vs (replace_from zero (placeholder v.key) v.value s)

unfoldable pub resolve_env_vars : Text → WorkspaceState → Text
unfolding resolve_with
resolve_env_vars s st = elim (find (has_id st.active_id) st.workspaces) [
  | none ↦ s
  | some w ↦ resolve_with w.env_vars s
]

abbrev pub is_exported : EnvVar → Bool
is_exported v = not (default false v.is_secret)

-- The workspace that is written to the file, if there is one.
unfoldable pub export_workspace : Option Text → WorkspaceState → Option Workspace
export_workspace id st = elim (find (has_id (default st.active_id id)) st.workspaces) [
  | none ↦ none
  | some w ↦ some (record w { env_vars = filter is_exported w.env_vars })
]

-- `stringify` and `parse` are `JSON.stringify` and `JSON.parse` of the list; `parse` fails where that
-- or the use of its result throws.
module _ (stringify : List Workspace → Text) (parse : Text → Option (List Workspace)) where
  abbrev default_state : Text → ℕ → Stored → WorkspaceState
  default_state uuid now stored = record {
    workspaces = default_workspace uuid now ∷ [];
    active_id = uuid;
    stored = stored;
  }

  abbrev pub parsed_state : Text → ℕ → Stored → Option (List Workspace) → WorkspaceState
  parsed_state uuid now stored none = default_state uuid now stored
  parsed_state uuid now stored (some []) = default_state uuid now stored
  parsed_state uuid now stored (some (w ∷ ws)) = record {
    workspaces = w ∷ ws;
    active_id = default w.id stored.active;
    stored = stored;
  }

  -- `raw ? JSON.parse(raw) : []`
  unfoldable pub load_from_storage : Text → ℕ → Stored → WorkspaceState
  unfolding default_workspace
  load_from_storage uuid now stored =
      let raw = default [] stored.workspaces in
      parsed_state uuid now stored (if truthy raw then parse raw else some [])

  -- `persist(workspaces, id)` and the new state.
  unfoldable pub persist : List Workspace → Text → WorkspaceState
  persist workspaces id = record {
    workspaces = workspaces;
    active_id = id;
    stored = record { workspaces = some (stringify workspaces); active = some id };
  }

  unfoldable pub create_workspace : Text → Text → ℕ → WorkspaceState → WorkspaceState
  unfolding persist default_workspace
  create_workspace name uuid now st =
      persist (st.workspaces ++ record (default_workspace uuid now) { name = name } ∷ []) uuid

  -- Rename, and the three changes of the active workspace's variables.
  unfoldable pub change_workspace :
      Text → (Workspace → Workspace) → ℕ → WorkspaceState → WorkspaceState
  unfolding persist
  change_workspace id f now st =
      persist
        (map (λ w. if has_id id w then record (f w) { updated_at = now } else w) st.workspaces)
        st.active_id

  unfoldable pub rename_workspace : Text → Text → ℕ → WorkspaceState → WorkspaceState
  unfolding change_workspace
  rename_workspace id name = change_workspace id (λ w. record w { name = name })

  -- `workspaces[0].id` throws where no workspace is left.
  unfoldable pub delete_workspace : Text → WorkspaceState → Option WorkspaceState
  unfolding persist
  delete_workspace id st =
      let left = filter (λ w. not (has_id id w)) st.workspaces in
      if length st.workspaces == 1
      then some st
      else if text_eq st.active_id id
      then elim left [ [] ↦ none | w ∷ ws ↦ some (persist (w ∷ ws) w.id) ]
      else some (persist left st.active_id)

  unfoldable pub set_active_workspace : Text → WorkspaceState → WorkspaceState
  unfolding persist
  set_active_workspace id st = persist st.workspaces id

  unfoldable pub duplicate_workspace : Text → Text → ℕ → WorkspaceState → WorkspaceState
  unfolding persist
  duplicate_workspace id uuid now st = elim (find (has_id id) st.workspaces) [
    | none ↦ st
    | some w ↦
        persist
          (st.workspaces
            ++ record w {
              id = uuid;
              name = w.name ++ lit " (copy)";
              created_at = now;
              updated_at = now;
            }
              ∷ [])
          uuid
  ]

  unfoldable pub add_env_var : EnvVar → ℕ → WorkspaceState → WorkspaceState
  unfolding change_workspace put_var
  add_env_var v now st =
      change_workspace st.active_id (λ w. record w { env_vars = put_var v w.env_vars }) now st

  unfoldable pub update_env_var : Text → Text → ℕ → WorkspaceState → WorkspaceState
  unfolding change_workspace
  update_env_var key value now st =
      change_workspace st.active_id
        (λ w. record w {
          env_vars =
              map (λ v. if text_eq v.key key then record v { value = value } else v) w.env_vars;
        })
        now st

  unfoldable pub remove_env_var : Text → ℕ → WorkspaceState → WorkspaceState
  unfolding change_workspace
  remove_env_var key now st =
      change_workspace st.active_id
        (λ w. record w { env_vars = filter (λ v. not (text_eq v.key key)) w.env_vars }) now st

  -- `parsed` is `JSON.parse` of the file, if that returns; a missing id or name reads as empty.
  unfoldable pub import_workspace : Option Workspace → Text → ℕ → WorkspaceState → WorkspaceState
  unfolding persist
  import_workspace none uuid now st = st
  import_workspace (some w) uuid now st =
      if not (truthy w.id) || not (truthy w.name)
      then st
      else persist (st.workspaces ++ record w { id = uuid; updated_at = now } ∷ []) uuid
