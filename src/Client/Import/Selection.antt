-- ===== src/Client/Import/Selection.antt =====
-- What an import saves.
use mathlib.Core.List.{append-nil, append_assoc}
use socket_tester.Base.{
  ℕ, zero, suc, ◌+◌, ◌-◌, ◌≤◌, ◌≡◌, refl, sym, ap, ◌∙◌, List, [], ◌∷◌, ◌++◌, any, take, length,
  length-append, leb, Text, ◌==◌, if◌then◌else◌, arith, Bool-cases, inl, inr,
}
use socket_tester.Client.Configs.{
  ConnectionConfig, Draft, SavedConfigs, max_configs, save_config, new_config,
}
use socket_tester.Client.Import.{ImportState, import_from, handle_import}

take_all : (n : ℕ) (xs : List ConnectionConfig) → length xs ≤ n → take n xs ≡ xs
take_all zero [] h = refl
take_all zero (x ∷ xs) h = absurd (omega arith)
take_all (suc n) [] h = refl
take_all (suc n) (x ∷ xs) h = ap (λ r. x ∷ r) (take_all n xs (omega arith))

take-append_full : (n : ℕ) (xs ys : List ConnectionConfig) → length xs ≡ n → take n (xs ++ ys) ≡ xs
take-append_full zero [] ys h = refl
take-append_full zero (x ∷ xs) ys h = absurd (omega arith)
take-append_full (suc n) [] ys h = absurd (omega arith)
take-append_full (suc n) (x ∷ xs) ys h = ap (λ r. x ∷ r) (take-append_full n xs ys (omega arith))

-- The configurations made from the selected drafts, in their order.
abbrev pub made : (ℕ → Text) → ℕ → List ℕ → ℕ → List Draft → List ConnectionConfig
made uuid now selected i [] = []
made uuid now selected i (d ∷ ds) =
    let rest = made uuid now selected (suc i) ds in
    if any (λ j. j == i) selected then new_config d (uuid i) now ∷ rest else rest

module _ (stringify : List ConnectionConfig → Text) (uuid : ℕ → Text) (now : ℕ) where
  save_config_then :
      (d : Draft) (id : Text) (st : SavedConfigs) (rest : List ConnectionConfig)
      → length st.configs ≤ max_configs
      → let after = save_config stringify d id now st in
        let new = new_config d id now in
        (length after.configs ≤ max_configs)
        × (take max_configs (after.configs ++ rest) ≡ take max_configs (st.configs ++ new ∷ rest))
        × (after.alerts + (length after.configs + length rest - max_configs)
            ≡ st.alerts + (length st.configs + suc (length rest) - max_configs))
  unfolding save_config
  save_config_then d id st rest h =
      let new = new_config d id now in
      elim (Bool-cases (leb max_configs (length st.configs))) [
        | inl full ↦
            let e : length st.configs ≡ max_configs = ground arith in
            rw (full, save_config)
              (
                h,
                take-append_full max_configs st.configs rest e
                    ∙ sym (take-append_full max_configs st.configs (new ∷ rest) e),
                omega arith,
              )
        | inr room ↦
            let one = length-append st.configs (new ∷ []) in
            rw (room, save_config)
              (
                ground (arith, one),
                ap (take max_configs) (append_assoc st.configs (new ∷ []) rest),
                omega (arith, one),
              )
      ]

  import_from_lem :
      (selected : List ℕ) (i : ℕ) (ds : List Draft) (st : SavedConfigs)
      → length st.configs ≤ max_configs
      → let new = made uuid now selected i ds in
        let after = import_from stringify uuid now selected i ds st in
        (after.configs ≡ take max_configs (st.configs ++ new))
        × (after.alerts ≡ st.alerts + (length st.configs + length new - max_configs))
  unfolding import_from
  import_from_lem selected i [] st h = (
    sym (
        take_all max_configs (st.configs ++ []) (omega (arith, length-append st.configs []))
        ∙ append-nil st.configs),
    omega arith,
  )
  import_from_lem selected i (d ∷ ds) st h = elim (Bool-cases (any (λ j. j == i) selected)) [
    | inr skipped ↦ rw (skipped, import_from) (import_from_lem selected (suc i) ds st h)
    | inl taken ↦
        let (few, same, alerts) =
          save_config_then d (uuid i) st (made uuid now selected (suc i) ds) h in
        let (configs, warned) =
          import_from_lem selected (suc i) ds (save_config stringify d (uuid i) now st) few in
        rw (taken, import_from) (configs ∙ same, warned ∙ alerts)
  ]

  -- An import into a list of at most 50 appends the selected configurations in the order of the file,
  -- as many of them as fit, and warns once for each that does not.
  pub handle_import_lem :
      (dialog : ImportState) (st : SavedConfigs)
      → length st.configs ≤ max_configs
      → let new = made uuid now dialog.selected 0 dialog.preview in
        let after = handle_import stringify uuid now dialog st in
        (after.configs ≡ take max_configs (st.configs ++ new))
        × (after.alerts ≡ st.alerts + (length st.configs + length new - max_configs))
  unfolding handle_import
  handle_import_lem dialog st h = import_from_lem dialog.selected 0 dialog.preview st h
