-- ===== src/Client/WorkspacePanel.antt =====
-- src/client/src/components/shared/WorkspacePanel.tsx: the panel of the workspaces. A prompt and a
-- confirmation are given with their answers; a file with what `JSON.parse` makes of it, if that
-- returns.
use socket_tester.Base.{
  ℕ, Bool, false, not, Option, none, some, List, [], Text, trim, truthy, length, ltb, if◌then◌else◌,
}
use socket_tester.Client.Workspaces.{
  Workspace, WorkspaceState, create_workspace, delete_workspace, add_env_var, import_workspace,
}

pub record WorkspacePanel : Type 0 where
  pub new_key : Text
  pub new_value : Text
  pub collapsed : Bool

unfoldable pub toggle_collapsed : WorkspacePanel → WorkspacePanel
toggle_collapsed p = record p { collapsed = not p.collapsed }

-- `disabled` of the button that adds a variable.
unfoldable pub cannot_add : WorkspacePanel → Bool
cannot_add p = not (truthy (trim p.new_key))

module _ (stringify : List Workspace → Text) (parse : Text → Option (List Workspace)) where
  unfoldable pub handle_add_env_var :
      ℕ → WorkspacePanel → WorkspaceState → WorkspacePanel × WorkspaceState
  handle_add_env_var now p st = if not (truthy (trim p.new_key)) then (p, st) else (
    record p { new_key = []; new_value = [] },
    add_env_var stringify parse
        (record { key = trim p.new_key; value = trim p.new_value; is_secret = some false }) now st,
  )

  -- The button of a new workspace: `answer` is what the prompt returns.
  unfoldable pub ask_new_workspace : Option Text → Text → ℕ → WorkspaceState → WorkspaceState
  ask_new_workspace none uuid now st = st
  ask_new_workspace (some name) uuid now st =
      if truthy (trim name) then create_workspace stringify parse (trim name) uuid now st else st

  -- The button is there with more than one workspace only.
  unfoldable pub ask_delete_workspace : Bool → WorkspaceState → Option WorkspaceState
  ask_delete_workspace confirmed st =
      if ltb 1 (length st.workspaces)
      then (if confirmed then delete_workspace stringify parse st.active_id st else some st)
      else some st

  -- The file input: no file was chosen, or its text was read.
  unfoldable pub choose_file :
      Option (Option Workspace) → Text → ℕ → WorkspaceState → WorkspaceState
  choose_file none uuid now st = st
  choose_file (some parsed) uuid now st = import_workspace stringify parse parsed uuid now st
