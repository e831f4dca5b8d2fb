-- ===== src/Client/Palette/Selection.antt =====
-- The palette always has an action selected where it lists any.
use socket_tester.Base.{
  ℕ, zero, suc, ◌<◌, ◌≡◌, refl, true, Option, none, some, List, [], ◌∷◌, length, get_elem?, is_some,
  Text, arith, inl, inr, ltb, lt→ltb, sym, ◌∙◌, ◌⊎◌,
}
use socket_tester.Client.Palette.{
  Command, PaletteState, listed, opens, set_query, next_index, previous_index, arrow_down, arrow_up,
  chosen,
}

get_elem?-lt : (cs : List Command) (i : ℕ) → i < length cs → is_some (get_elem? cs i) ≡ true
get_elem?-lt [] i h = absurd (omega arith)
get_elem?-lt (c ∷ cs) zero h = refl
get_elem?-lt (c ∷ cs) (suc i) h = get_elem?-lt cs i (omega arith)

module _ (lower : Text → Text) where
  pub data Reach : PaletteState → Type 0 where
    start : Reach opens
    types : {p : PaletteState} (query : Text) → Reach p → Reach (set_query query)
    goes_down : {p : PaletteState} → Reach p → Reach (arrow_down lower p)
    goes_up : {p : PaletteState} → Reach p → Reach (arrow_up p)

  -- The index lies in the list, or the list is empty.
  abbrev IsIn : ℕ → Option ℕ → Type 0
  IsIn n none = n ≡ 0
  IsIn n (some i) = (i ≡ 0) ⊎ (i < n)

  next_index-IsIn : (n : ℕ) (o : Option ℕ) → IsIn n o → IsIn n (next_index n o)
  unfolding next_index
  next_index-IsIn zero o h = refl
  next_index-IsIn (suc n) none h = inl refl
  next_index-IsIn (suc n) (some i) h = inr (omega arith)

  previous_index-IsIn : (n : ℕ) (o : Option ℕ) → IsIn n o → IsIn n (previous_index o)
  unfolding previous_index
  previous_index-IsIn n none h = inl refl
  previous_index-IsIn n (some i) (inl h) = inl (omega arith)
  previous_index-IsIn n (some i) (inr h) = inr (omega arith)

  Reach-IsIn : {p : PaletteState} → Reach p → IsIn (length (listed lower p.query)) p.selected
  unfolding opens set_query arrow_down arrow_up
  Reach-IsIn start = inl refl
  Reach-IsIn (types query r) = inl refl
  Reach-IsIn (goes_down {p} r) =
      next_index-IsIn (length (listed lower p.query)) p.selected (Reach-IsIn r)
  Reach-IsIn (goes_up {p} r) =
      previous_index-IsIn (length (listed lower p.query)) p.selected (Reach-IsIn r)

  get_elem?-IsIn :
      (cs : List Command) (o : Option ℕ)
      → IsIn (length cs) o
      → is_some (elim o [ none ↦ none | some i ↦ get_elem? cs i ]) ≡ ltb 0 (length cs)
  get_elem?-IsIn [] none h = refl
  get_elem?-IsIn [] (some i) h = refl
  get_elem?-IsIn (c ∷ cs) none h = absurd (omega arith)
  get_elem?-IsIn (c ∷ cs) (some i) (inl h) =
      get_elem?-lt (c ∷ cs) i (omega arith) ∙ sym (lt→ltb 0 (length (c ∷ cs)) (omega arith))
  get_elem?-IsIn (c ∷ cs) (some i) (inr h) =
      get_elem?-lt (c ∷ cs) i h ∙ sym (lt→ltb 0 (length (c ∷ cs)) (omega arith))

  -- However the query is typed and the arrow keys are pressed, Enter finds a command exactly where the
  -- palette lists any.
  pub chosen-Reach :
      {p : PaletteState}
      → Reach p
      → is_some (chosen lower p) ≡ ltb 0 (length (listed lower p.query))
  unfolding chosen
  chosen-Reach {p} r = get_elem?-IsIn (listed lower p.query) p.selected (Reach-IsIn r)
