-- ===== src/Client/Configs/Storage.antt =====
-- Local storage keeps the saved configurations, of which there are at most 50.
use socket_tester.Base.{
  ℕ, ◌≤◌, ◌≡◌, refl, true, not, Option, some, List, [], ◌∷◌, ◌++◌, map, filter, length,
  length-append, length-filter, count-le-length, leb, Text, text_eq, truthy, arith, Bool-cases, inl,
  inr,
}
use socket_tester.Client.Configs.{
  ConnectionConfig, Draft, PartialConfig, SavedConfigs, max_configs, load_configs, initial,
  load_config, clear_pending_load, keep, save_config, delete_config, update_config, new_config,
}

length-map :
    (f : ConnectionConfig → ConnectionConfig) (cs : List ConnectionConfig)
    → length (map f cs) ≡ length cs
length-map f [] = refl
length-map f (c ∷ cs) = omega (arith, length-map f cs)

-- The states that the operations reach from a page that loads with at most 50 configurations.
module _ (parse : Text → Option (List ConnectionConfig))
    (stringify : List ConnectionConfig → Text) where
  pub data Reach : SavedConfigs → Type 0 where
    start :
        (stored : Option Text)
        → length (load_configs parse stored) ≤ max_configs
        → Reach (initial parse stored)
    loads : {st : SavedConfigs} (c : ConnectionConfig) → Reach st → Reach (load_config c st)
    clears : {st : SavedConfigs} → Reach st → Reach (clear_pending_load st)
    saves :
        {st : SavedConfigs} (draft : Draft) (uuid : Text) (now : ℕ)
        → Reach st
        → Reach (save_config stringify draft uuid now st)
    deletes : {st : SavedConfigs} (id : Text) → Reach st → Reach (delete_config stringify id st)
    updates :
        {st : SavedConfigs} (id : Text) (changes : PartialConfig) (now : ℕ)
        → Reach st
        → Reach (update_config stringify id changes now st)

  -- At most 50, and what the next page would load.
  abbrev pub IsKept : SavedConfigs → Type 0
  IsKept st = (length st.configs ≤ max_configs) × (load_configs parse st.stored ≡ st.configs)

  module _ (parsed : (cs : List ConnectionConfig) → parse (stringify cs) ≡ some cs)
      (written : (cs : List ConnectionConfig) → truthy (stringify cs) ≡ true) where
    keep-IsKept :
        (next : List ConnectionConfig) (st : SavedConfigs)
        → length next ≤ max_configs
        → IsKept (keep stringify next st)
    unfolding keep load_configs
    keep-IsKept next st h = (h, rw (parsed next, written next) refl)

    -- If JSON reads back what it writes, then after any operations there are at most 50 saved
    -- configurations, and a page that loads finds exactly these.
    pub Reach-IsKept : {st : SavedConfigs} → Reach st → IsKept st
    unfolding initial load_config clear_pending_load save_config delete_config update_config
    Reach-IsKept (start stored few) = (few, refl)
    Reach-IsKept (loads c r) = Reach-IsKept r
    Reach-IsKept (clears r) = Reach-IsKept r
    Reach-IsKept (saves {st} draft uuid now r) =
        let next = st.configs ++ new_config draft uuid now ∷ [] in
        elim (Bool-cases (leb max_configs (length st.configs))) [
          | inl full ↦ rw (full, save_config) (Reach-IsKept r)
          | inr room ↦
              rw (room, save_config)
                (keep-IsKept next st
                  (ground (arith, length-append st.configs (new_config draft uuid now ∷ []))))
        ]
    Reach-IsKept (deletes {st} id r) =
        let p = λ (c : ConnectionConfig). not (text_eq c.id id) in
        keep-IsKept (filter p st.configs) st (
          omega
            (arith, (Reach-IsKept r).0, length-filter p st.configs, count-le-length p st.configs))
    Reach-IsKept (updates {st} id changes now r) =
        keep-IsKept _ st (omega (arith, (Reach-IsKept r).0, length-map _ st.configs))
