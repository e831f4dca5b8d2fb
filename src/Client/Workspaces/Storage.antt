-- ===== src/Client/Workspaces/Storage.antt =====
-- What a reload of the page finds.
use mathlib.Core.Option.{some-injective}
use mathlib.Core.Path.{subst}
use socket_tester.Base.{
  ℕ, ◌≡◌, ◌≢◌, ◌⊎◌, refl, sym, ap, Option, none, some, List, [], ◌∷◌, map, filter, find, length,
  ◌==◌, true, not, ◌||◌, Text, text_eq, truthy, if◌then◌else◌, arith, Option-cases, Bool-cases, inl,
  inr,
}
use socket_tester.Client.Workspaces.{
  EnvVar, Workspace, Stored, WorkspaceState, has_id, load_from_storage, persist, create_workspace,
  rename_workspace, delete_workspace, set_active_workspace, duplicate_workspace, add_env_var,
  update_env_var, remove_env_var, import_workspace, change_workspace, put_var, default_workspace,
}

module _ (stringify : List Workspace → Text) (parse : Text → Option (List Workspace)) where
  -- What the page does, from a load on.
  pub data Step : WorkspaceState → WorkspaceState → Type 0 where
    creates :
        (name uuid : Text) (now : ℕ) (st : WorkspaceState)
        → Step st (create_workspace stringify parse name uuid now st)
    renames :
        (id name : Text) (now : ℕ) (st : WorkspaceState)
        → Step st (rename_workspace stringify parse id name now st)
    deletes :
        (id : Text) (st st' : WorkspaceState)
        → delete_workspace stringify parse id st ≡ some st'
        → Step st st'
    activates :
        (id : Text) (st : WorkspaceState) → Step st (set_active_workspace stringify parse id st)
    duplicates :
        (id uuid : Text) (now : ℕ) (st : WorkspaceState)
        → Step st (duplicate_workspace stringify parse id uuid now st)
    adds_var :
        (v : EnvVar) (now : ℕ) (st : WorkspaceState)
        → Step st (add_env_var stringify parse v now st)
    updates_var :
        (key value : Text) (now : ℕ) (st : WorkspaceState)
        → Step st (update_env_var stringify parse key value now st)
    removes_var :
        (key : Text) (now : ℕ) (st : WorkspaceState)
        → Step st (remove_env_var stringify parse key now st)
    imports :
        (w : Option Workspace) (uuid : Text) (now : ℕ) (st : WorkspaceState)
        → Step st (import_workspace stringify parse w uuid now st)

  -- From a load of what was stored.
  pub data Reach (uuid : Text) (now : ℕ) (stored : Stored) : WorkspaceState → Type 0 where
    start : Reach uuid now stored (load_from_storage stringify parse uuid now stored)
    next :
        {st st' : WorkspaceState}
        → Reach uuid now stored st
        → Step st st'
        → Reach uuid now stored st'

  -- Nothing changed, or the new workspaces were stored.
  abbrev Follows : WorkspaceState → WorkspaceState → Type 0
  Follows st st' =
      (st' ≡ st) ⊎ (ws : List Workspace) × (id : Text) × (st' ≡ persist stringify parse ws id)

  change_workspace-Follows :
      (id : Text) (f : Workspace → Workspace) (now : ℕ) (st : WorkspaceState)
      → Follows st (change_workspace stringify parse id f now st)
  unfolding change_workspace
  change_workspace-Follows id f now st = inr (_, st.active_id, refl)

  delete_workspace-Follows :
      (id : Text) (st st' : WorkspaceState)
      → delete_workspace stringify parse id st ≡ some st'
      → Follows st st'
  unfolding delete_workspace
  delete_workspace-Follows id st st' e = elim (Bool-cases (length st.workspaces == 1)) [
    | inl one ↦ inl (sym (some-injective _ _ (rw (one, delete_workspace) at e)))
    | inr more ↦ elim (Bool-cases (text_eq st.active_id id)) [
      | inl active ↦
          active_deleted (filter (λ w. not (has_id id w)) st.workspaces)
            (rw (more, active, delete_workspace) at e)
      | inr passive ↦ inr (
        filter (λ w. not (has_id id w)) st.workspaces,
        st.active_id,
        sym (some-injective _ _ (rw (more, passive, delete_workspace) at e)),
      )
    ]
  ]
    where
      active_deleted :
          (left : List Workspace)
          → elim left [ [] ↦ none | w ∷ ws ↦ some (persist stringify parse (w ∷ ws) w.id) ]
            ≡ some st'
          → Follows st st'
      active_deleted [] q = ground (arith, q)
      active_deleted (w ∷ ws) q = inr (w ∷ ws, w.id, sym (some-injective _ _ q))

  Step-Follows : {st st' : WorkspaceState} → Step st st' → Follows st st'
  unfolding create_workspace rename_workspace set_active_workspace duplicate_workspace add_env_var
      update_env_var remove_env_var import_workspace
  Step-Follows (creates name uuid now st) = inr (_, uuid, refl)
  Step-Follows (renames id name now st) =
      change_workspace-Follows id (λ w. record w { name = name }) now st
  Step-Follows (deletes id st st' e) = delete_workspace-Follows id st st' e
  Step-Follows (activates id st) = inr (st.workspaces, id, refl)
  Step-Follows (duplicates id uuid now st) = elim (Option-cases (find (has_id id) st.workspaces)) [
    | inl e ↦ rw (e, duplicate_workspace) (inl refl)
    | inr (w, e) ↦ rw (e, duplicate_workspace) (inr (_, uuid, refl))
  ]
  Step-Follows (adds_var v now st) =
      change_workspace-Follows st.active_id (λ w. record w { env_vars = put_var v w.env_vars }) now
        st
  Step-Follows (updates_var key value now st) =
      change_workspace-Follows st.active_id
        (λ w. record w {
          env_vars =
              map (λ v. if text_eq v.key key then record v { value = value } else v) w.env_vars;
        })
        now st
  Step-Follows (removes_var key now st) =
      change_workspace-Follows st.active_id
        (λ w. record w { env_vars = filter (λ v. not (text_eq v.key key)) w.env_vars }) now st
  Step-Follows (imports none uuid now st) = inl refl
  Step-Follows (imports (some w) uuid now st) =
      elim (Bool-cases (not (truthy w.id) || not (truthy w.name))) [
        | inl bad ↦ rw (bad, import_workspace) (inl refl)
        | inr good ↦ rw (good, import_workspace) (inr (_, uuid, refl))
      ]

  kept_workspaces :
      (ws : List Workspace) (id : Text) (st : WorkspaceState)
      → st ≡ persist stringify parse ws id
      → st.workspaces ≡ ws
  unfolding persist
  kept_workspaces ws id st e = ap (λ x. x.workspaces) e

  load-persist :
      (uuid : Text) (now : ℕ) (ws : List Workspace) (id : Text)
      → ws ≢ []
      → truthy (stringify ws) ≡ true
      → parse (stringify ws) ≡ some ws
      → load_from_storage stringify parse uuid now (persist stringify parse ws id).stored
        ≡ persist stringify parse ws id
  unfolding load_from_storage persist
  load-persist uuid now [] id h t p = absurd (h refl)
  load-persist uuid now (w ∷ ws) id h t p = rw t (rw p refl)

  -- Without a workspace a reload makes the default one.
  load-persist_nil :
      (uuid : Text) (now : ℕ) (id : Text)
      → truthy (stringify []) ≡ true
      → parse (stringify []) ≡ some []
      → (load_from_storage stringify parse uuid now
          (persist stringify parse [] id).stored).workspaces
        ≡ default_workspace uuid now ∷ []
  unfolding load_from_storage persist
  load-persist_nil uuid now id t p = rw t (rw p refl)

  -- Nothing changed since the load, or the workspaces are stored.
  Reach-Follows :
      {uuid : Text} {now : ℕ} {stored : Stored} {st : WorkspaceState}
      → Reach uuid now stored st
      → Follows (load_from_storage stringify parse uuid now stored) st
  Reach-Follows {uuid} {now} {stored} start = inl refl
  Reach-Follows {uuid} {now} {stored} (next {st} {st'} r s) = elim (Step-Follows s) [
    | inl same ↦
        subst (Follows (load_from_storage stringify parse uuid now stored)) (sym same)
          (Reach-Follows r)
    | inr stored_again ↦ inr stored_again
  ]

  -- What a reload with another fresh id and at another time gives.
  abbrev pub Reloads : Text → ℕ → WorkspaceState → List Workspace → Type 0
  Reloads fresh later st [] =
      (load_from_storage stringify parse fresh later st.stored).workspaces
      ≡ default_workspace fresh later ∷ []
  Reloads fresh later st (w ∷ ws) = load_from_storage stringify parse fresh later st.stored ≡ st

  reload :
      (fresh : Text) (later : ℕ) (ws : List Workspace) (id : Text)
      → truthy (stringify ws) ≡ true
      → parse (stringify ws) ≡ some ws
      → Reloads fresh later (persist stringify parse ws id) ws
  reload fresh later [] id t p = load-persist_nil fresh later id t p
  reload fresh later (w ∷ ws) id t p =
      load-persist fresh later (w ∷ ws) id (λ e. ground (arith, e)) t p

  -- In every state that the page reaches from a load, either nothing has changed since, or a reload
  -- gives the same workspaces and the same active one; where the last workspaces were deleted, which
  -- takes two of one id, it gives a default workspace instead. JSON.parse is taken to read back what
  -- JSON.stringify wrote of the workspaces, which is not empty.
  pub load_from_storage-Reach :
      (uuid fresh : Text) (now later : ℕ) (stored : Stored) (st : WorkspaceState)
      → Reach uuid now stored st
      → truthy (stringify st.workspaces) ≡ true
      → parse (stringify st.workspaces) ≡ some st.workspaces
      → (st ≡ load_from_storage stringify parse uuid now stored)
        ⊎ Reloads fresh later st st.workspaces
  load_from_storage-Reach uuid fresh now later stored st r t p = elim (Reach-Follows r) [
    | inl same ↦ inl same
    | inr (ws, id, e) ↦ inr (
        subst (λ x. Reloads fresh later x x.workspaces) (sym e)
          (unfold persist in
            (reload fresh later ws id
              (subst (λ x. truthy (stringify x) ≡ true) (kept_workspaces ws id st e) t)
              (subst (λ x. parse (stringify x) ≡ some x) (kept_workspaces ws id st e) p))))
  ]
