-- ===== src/Client/Workspaces/Variables.antt =====
-- Environment variables in texts and exports.
use socket_tester.Base.{
  ℕ, zero, suc, ◌-◌, ◌≡◌, ◌≢◌, refl, ap, ◌∙◌, List, [], ◌∷◌, ◌++◌, find, length, All, true, false,
  Text, lit, starts_with, includes, arith, Option-cases, Bool-cases, inl, inr,
}
use socket_tester.Client.Workspaces.{
  EnvVar, WorkspaceState, has_id, replace_from, placeholder, resolve_with, resolve_env_vars,
}

-- A match of `needle ++ more` is a match of `needle`.
starts_with-append :
    (s needle more : Text) → starts_with s (needle ++ more) ≡ true → starts_with s needle ≡ true
unfolding starts_with
starts_with-append s [] more h = refl
starts_with-append [] (c ∷ needle) more h = ground arith
starts_with-append (a ∷ s) (c ∷ needle) more h = ground (arith, starts_with-append s needle more)

replace_from-absent :
    (needle more value s : Text)
    → includes s needle ≡ false
    → replace_from zero (needle ++ more) value s ≡ s
unfolding replace_from includes
replace_from-absent needle more value [] h = refl
replace_from-absent [] more value (c ∷ s) h = ground arith
replace_from-absent (b ∷ needle) more value (c ∷ s) h =
    elim (Bool-cases (starts_with (c ∷ s) ((b ∷ needle) ++ more))) [
      | inl e ↦ ground (arith, starts_with-append (c ∷ s) (b ∷ needle) more e)
      | inr e ↦
          rw e (ap (λ x. c ∷ x) (replace_from-absent (b ∷ needle) more value s (ground arith)))
    ]

resolve_with-absent :
    (vs : List EnvVar) (s : Text) → includes s (lit "{{") ≡ false → resolve_with vs s ≡ s
unfolding resolve_with
resolve_with-absent [] s h = refl
resolve_with-absent (v ∷ vs) s h =
    ap (resolve_with vs) (replace_from-absent (lit "{{") (v.key ++ lit "}}") v.value s h)
    ∙ resolve_with-absent vs s h

-- A text without `{{` is left as it is, whatever variables the active workspace has.
pub resolve_env_vars-absent :
    (s : Text) (st : WorkspaceState) → includes s (lit "{{") ≡ false → resolve_env_vars s st ≡ s
unfolding resolve_env_vars
resolve_env_vars-absent s st h = elim (Option-cases (find (has_id st.active_id) st.workspaces)) [
  | inl e ↦ rw (e, resolve_env_vars) refl
  | inr (w, e) ↦ rw (e, resolve_env_vars) (resolve_with-absent w.env_vars s h)
]

replace_from-skip :
    (n : ℕ) (needle value a b : Text)
    → length a ≡ n
    → replace_from n needle value (a ++ b) ≡ replace_from zero needle value b
unfolding replace_from
replace_from-skip zero needle value [] b e = refl
replace_from-skip zero needle value (c ∷ a) b e = ground arith
replace_from-skip (suc n) needle value [] b e = ground arith
replace_from-skip (suc n) needle value (c ∷ a) b e =
    replace_from-skip n needle value a b (omega arith)

starts_with_self : (a b : Text) → starts_with (a ++ b) a ≡ true
unfolding starts_with
starts_with_self [] b = refl
starts_with_self (c ∷ a) b = ground (arith, starts_with_self a b)

replace_from-head :
    (c : ℕ) (needle value rest : Text)
    → replace_from zero (c ∷ needle) value ((c ∷ needle) ++ rest)
      ≡ value ++ replace_from zero (c ∷ needle) value rest
unfolding replace_from
replace_from-head c needle value rest = rw (starts_with_self (c ∷ needle) rest) (
    ap (λ x. value ++ x)
      (replace_from-skip (suc (length needle) - 1) (c ∷ needle) value needle rest (omega arith)))

replace_from-skip_other :
    (c d : ℕ) (needle value s : Text)
    → d ≢ c
    → replace_from zero (c ∷ needle) value (d ∷ s) ≡ d ∷ replace_from zero (c ∷ needle) value s
unfolding replace_from starts_with
replace_from-skip_other c d needle value s h = ground (arith, h)

-- The first placeholder of a variable in a text becomes its value when no brace stands before it, and
-- the text after it is replaced on; what stands before it is kept.
pub replace_from-placeholder :
    (key value before rest : Text)
    → All (λ c. c ≢ 123) before
    → replace_from zero (placeholder key) value (before ++ (placeholder key ++ rest))
      ≡ before ++ (value ++ replace_from zero (placeholder key) value rest)
unfolding lit
replace_from-placeholder key value [] rest h =
    replace_from-head 123 (123 ∷ (key ++ 125 ∷ 125 ∷ [])) value rest
replace_from-placeholder key value (c ∷ before) rest (p, h) =
    replace_from-skip_other 123 c (123 ∷ (key ++ 125 ∷ 125 ∷ [])) value
      (before ++ (placeholder key ++ rest)) p
    ∙ ap (λ x. c ∷ x) (replace_from-placeholder key value before rest h)
