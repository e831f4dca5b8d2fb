-- ===== src/WebSocket/Allowlist.antt =====
-- Which targets the allowlist admits.
use mathlib.Core.Path.{subst}
use mathlib.Core.Option.{some-injective}
use socket_tester.Base.{
  sym, ◌≡◌, ◌≢◌, ◌↔◌, ◌⊎◌, refl, inl, inr, Option, none, some, List, [], ◌∷◌, Bool, true, false,
  Text, text_eq_iff, arith, Option-cases,
}
use socket_tester.WebSocket.{entry_url, verdict, some_allowed, validate_allowlist}

verdict_iff : (o : Option Bool) → (verdict o ≡ none) ↔ (o ≡ some true)
unfolding verdict
verdict_iff none = ground arith
verdict_iff (some true) = ground arith
verdict_iff (some false) = ground arith

module _ (host_of : Text → Option Text) where
  -- Some entry names the host, and `new URL` accepts every entry before it.
  abbrev pub IsListed : Text → List Text → Type 0
  IsListed host [] = ⊥
  IsListed host (entry ∷ entries) =
      (host_of (entry_url entry) ≡ some host)
      ⊎ (host_of (entry_url entry) ≢ none) × IsListed host entries

  some_allowed_iff :
      (host : Text) (entries : List Text)
      → (some_allowed host_of host entries ≡ some true) ↔ IsListed host entries
  unfolding some_allowed
  some_allowed_iff host [] = ground arith
  some_allowed_iff host (entry ∷ entries) = elim (Option-cases (host_of (entry_url entry))) [
    | inl e ↦ rw (e, some_allowed) (ground arith)
    | inr (h, e) ↦
        rw (e, some_allowed) (ground (arith, text_eq_iff host h, some_allowed_iff host entries))
  ]

  listed_admits :
      (host entry : Text) (entries : List Text)
      → ((entry ∷ entries ≡ [])
          ⊎ ((h : Text) × (some host ≡ some h) × IsListed h (entry ∷ entries)))
      → verdict (some_allowed host_of host (entry ∷ entries)) ≡ none
  listed_admits host entry entries (inl e) = cc
  listed_admits host entry entries (inr (h, e, l)) =
      (verdict_iff (some_allowed host_of host (entry ∷ entries))).1 (
        (some_allowed_iff host (entry ∷ entries)).1
          (subst (λ x. IsListed x (entry ∷ entries)) (sym (some-injective _ _ e)) l))

  -- A target is admitted exactly when the allowlist is empty, or its host is the host of an entry such
  -- that `new URL` accepts every entry before it.
  pub validate_allowlist_iff :
      (allowlist : List Text) (url : Text)
      → (validate_allowlist host_of allowlist url ≡ none)
        ↔ ((allowlist ≡ []) ⊎ ((host : Text) × (host_of url ≡ some host) × IsListed host allowlist))
  unfolding validate_allowlist
  validate_allowlist_iff [] url = ((λ h. inl refl), (λ h. refl))
  validate_allowlist_iff (entry ∷ entries) url = elim (Option-cases (host_of url)) [
    | inl e ↦ rw (e, validate_allowlist) (ground arith)
    | inr (host, e) ↦
        rw (e, validate_allowlist)
          (
            (λ h. inr (
              host,
              refl,
              (some_allowed_iff host (entry ∷ entries)).0
                  ((verdict_iff (some_allowed host_of host (entry ∷ entries))).0 h),
            )),
            listed_admits host entry entries,
          )
  ]
