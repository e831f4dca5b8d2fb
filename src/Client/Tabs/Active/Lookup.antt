-- ===== src/Client/Tabs/Active/Lookup.antt =====
-- Looking a tab up after a change of the tabs.
use mathlib.Core.Option
use mathlib.Core.Option.{some-injective}
use socket_tester.Base.{
  ◌≡◌, refl, sym, ap, ◌∙◌, Option, none, some, List, [], ◌∷◌, ◌++◌, map, filter, find, last?,
  length, Bool, true, false, not, Text, text_eq, text_eq_iff, text_eq_refl, is_some, arith,
  Bool-cases, inl, inr,
}
use socket_tester.Client.Tabs.{ConnectionTab, has_id}

pub find_holds :
    (p : ConnectionTab → Bool) (ts : List ConnectionTab) (t : ConnectionTab)
    → find p ts ≡ some t
    → p t ≡ true
find_holds p [] t e = ground (arith, e)
find_holds p (x ∷ ts) t e = elim (Bool-cases (p x)) [
  | inl h ↦ ap p (sym (some-injective _ _ (rw h at e))) ∙ h
  | inr h ↦ find_holds p ts t (rw h at e)
]

-- A change of tabs that keeps their ids.
pub find-map :
    (f : ConnectionTab → ConnectionTab) (id : Text) (ts : List ConnectionTab)
    → ((t : ConnectionTab) → (f t).id ≡ t.id)
    → find (has_id id) (map f ts) ≡ Option.map f (find (has_id id) ts)
find-map f id [] h = refl
find-map f id (t ∷ ts) h = elim (Bool-cases (has_id id t)) [
  | inl e ↦ rw (ap (λ x. text_eq x id) (h t) ∙ e) (rw e refl)
  | inr e ↦ rw (ap (λ x. text_eq x id) (h t) ∙ e) (rw e (find-map f id ts h))
]

pub length-map :
    (f : ConnectionTab → ConnectionTab) (ts : List ConnectionTab) → length (map f ts) ≡ length ts
length-map f [] = refl
length-map f (t ∷ ts) = omega (arith, length-map f ts)

pub is_some-map :
    (f : ConnectionTab → ConnectionTab) (o : Option ConnectionTab)
    → is_some o ≡ true
    → is_some (Option.map f o) ≡ true
is_some-map f none h = h
is_some-map f (some t) h = refl

pub find-push :
    (id : Text) (ts : List ConnectionTab) (t : ConnectionTab)
    → find (has_id id) ts ≡ none
    → t.id ≡ id
    → find (has_id id) (ts ++ t ∷ []) ≡ some t
find-push id [] t h e = ground (arith, text_eq_iff t.id id)
find-push id (x ∷ ts) t h e = ground (arith, find-push id ts t)

pub find-filter_other :
    (a id : Text) (ts : List ConnectionTab)
    → text_eq a id ≡ false
    → find (has_id a) (filter (λ t. not (has_id id t)) ts) ≡ find (has_id a) ts
find-filter_other a id [] h = refl
find-filter_other a id (t ∷ ts) h =
    ground (
      arith,
      find-filter_other a id ts h,
      text_eq_iff t.id id,
      text_eq_iff t.id a,
      text_eq_iff a id,
    )

pub find-last :
    (ts : List ConnectionTab) (t : ConnectionTab)
    → last? ts ≡ some t
    → is_some (find (has_id t.id) ts) ≡ true
find-last [] t h = ground arith
find-last (x ∷ []) t h = ground (arith, text_eq_refl t.id)
find-last (x ∷ y ∷ ts) t h = ground (arith, find-last (y ∷ ts) t h)
