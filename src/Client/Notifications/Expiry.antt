-- ===== src/Client/Notifications/Expiry.antt =====
-- Every toast goes, by hand or by its timer.
use socket_tester.Base.{
  ℕ, ◌+◌, ◌≤◌, ◌≡◌, refl, Bool, true, not, List, [], ◌∷◌, ◌++◌, filter, any, All, All-append,
  filter-All, leb, Text, text_eq, text_eq_iff, text_eq_refl, arith, Bool-cases, inl, inr,
}
use socket_tester.Client.Notifications.{
  Toast, ToastType, Dismissal, ToastState, no_toasts, add_toast, remove_toast, dismiss, pass_time,
  auto_dismiss_ms,
}

-- The states of the store under a clock that does not run back, with the last reading of it.
pub data Reach : ℕ → ToastState → Type 0 where
  start : Reach 0 no_toasts
  adds :
      {t : ℕ} {st : ToastState} (message : Text) (kind : ToastType) (uuid : Text) (now : ℕ)
      → Reach t st
      → t ≤ now
      → Reach now (add_toast message kind uuid now st)
  removes : {t : ℕ} {st : ToastState} (id : Text) → Reach t st → Reach t (remove_toast id st)
  passes : {t : ℕ} {st : ToastState} (now : ℕ) → Reach t st → t ≤ now → Reach now (pass_time now st)

abbrev IsTimed : List Dismissal → Toast → Type 0
IsTimed ds t = any (λ d. text_eq d.toast t.id) ds ≡ true

-- Every toast has a timer, and every timer is due within five seconds.
abbrev pub AreTimed : ℕ → ToastState → Type 0
AreTimed now st =
    All (IsTimed st.timers) st.toasts × All (λ d. d.due ≤ now + auto_dismiss_ms) st.timers

any-append_left :
    (p : Dismissal → Bool) (xs ys : List Dismissal) → any p xs ≡ true → any p (xs ++ ys) ≡ true
any-append_left p [] ys h = cc
any-append_left p (x ∷ xs) ys h = ground (arith, any-append_left p xs ys)

any-append_right :
    (p : Dismissal → Bool) (xs ys : List Dismissal) → any p ys ≡ true → any p (xs ++ ys) ≡ true
any-append_right p [] ys h = h
any-append_right p (x ∷ xs) ys h = ground (arith, any-append_right p xs ys h)

All-IsTimed_more :
    (ds es : List Dismissal) (ts : List Toast) → All (IsTimed ds) ts → All (IsTimed (ds ++ es)) ts
All-IsTimed_more ds es [] h = tt
All-IsTimed_more ds es (t ∷ ts) (p, h) =
    (any-append_left (λ d. text_eq d.toast t.id) ds es p, All-IsTimed_more ds es ts h)

All-due_mono :
    (lo hi : ℕ) (ds : List Dismissal)
    → lo ≤ hi
    → All (λ d. d.due ≤ lo + auto_dismiss_ms) ds
    → All (λ d. d.due ≤ hi + auto_dismiss_ms) ds
All-due_mono lo hi [] le h = tt
All-due_mono lo hi (d ∷ ds) le (p, h) = (omega arith, All-due_mono lo hi ds le h)

All-due_by :
    (t now : ℕ) (ds : List Dismissal)
    → t + auto_dismiss_ms ≤ now
    → All (λ d. d.due ≤ t + auto_dismiss_ms) ds
    → All (λ d. d.due ≤ now) ds
All-due_by t now [] le h = tt
All-due_by t now (d ∷ ds) le (p, h) = (omega arith, All-due_by t now ds le h)

-- Without the toasts of a timer, the others have their timers still.
IsTimed-after_remove :
    (d : Dismissal) (ds : List Dismissal) (ts : List Toast)
    → All (IsTimed (d ∷ ds)) ts
    → All (IsTimed ds) (filter (λ t. not (text_eq t.id d.toast)) ts)
IsTimed-after_remove d ds [] h = tt
IsTimed-after_remove d ds (t ∷ ts) (p, h) =
    ground
      (arith, IsTimed-after_remove d ds ts h, text_eq_iff t.id d.toast, text_eq_iff d.toast t.id)

dismiss-AreTimed :
    (now t : ℕ) (ds : List Dismissal) (st : ToastState)
    → All (IsTimed ds) st.toasts
    → All (λ d. d.due ≤ t + auto_dismiss_ms) ds
    → AreTimed t (dismiss now ds st)
unfolding dismiss remove_toast
dismiss-AreTimed now t [] st h k = (h, tt)
dismiss-AreTimed now t (d ∷ ds) st h (k, ks) = elim (Bool-cases (leb d.due now)) [
  | inl e ↦
      rw (e, dismiss)
        (dismiss-AreTimed now t ds (remove_toast d.toast st) (IsTimed-after_remove d ds st.toasts h)
          ks)
  | inr e ↦ rw (e, dismiss) (h, (k, ks))
]

Reach-AreTimed : {t : ℕ} {st : ToastState} → Reach t st → AreTimed t st
unfolding add_toast remove_toast pass_time
Reach-AreTimed start = (tt, tt)
Reach-AreTimed (adds {t} {st} message kind uuid now r le) =
    let (timed, due) = Reach-AreTimed r in
    let timer : Dismissal = record { toast = uuid; due = now + auto_dismiss_ms } in
    let toast : Toast = record { id = uuid; message = message; kind = kind; created_at = now } in
    (
      All-append (IsTimed (st.timers ++ timer ∷ [])) st.toasts (toast ∷ [])
          (All-IsTimed_more st.timers (timer ∷ []) st.toasts timed)
          (
            any-append_right (λ d. text_eq d.toast uuid) st.timers (timer ∷ [])
                (ground (arith, text_eq_refl uuid)),
            tt,
          ),
      All-append (λ d. d.due ≤ now + auto_dismiss_ms) st.timers (timer ∷ [])
          (All-due_mono t now st.timers le due) (omega arith, tt),
    )
Reach-AreTimed (removes {t} {st} id r) =
    let (timed, due) = Reach-AreTimed r in
    (filter-All (IsTimed st.timers) (λ x. not (text_eq x.id id)) st.toasts timed, due)
Reach-AreTimed (passes {t} {st} now r le) =
    let (timed, due) = Reach-AreTimed r in
    dismiss-AreTimed now now st.timers st timed (All-due_mono t now st.timers le due)

le→leb : (a b : ℕ) → a ≤ b → leb a b ≡ true
le→leb a b h = ground arith

none_timed : (ts : List Toast) → All (IsTimed []) ts → ts ≡ []
none_timed [] h = refl
none_timed (t ∷ ts) (p, h) = cc

-- No toast is left once all timers were due.
dismiss_everything :
    (now : ℕ) (ds : List Dismissal) (st : ToastState)
    → All (λ d. d.due ≤ now) ds
    → All (IsTimed ds) st.toasts
    → (dismiss now ds st).toasts ≡ []
unfolding dismiss remove_toast
dismiss_everything now [] st due h = none_timed st.toasts h
dismiss_everything now (d ∷ ds) st (k, ks) h =
    rw (le→leb d.due now k, dismiss)
      (dismiss_everything now ds (remove_toast d.toast st) ks
        (IsTimed-after_remove d ds st.toasts h))

-- Whatever toasts were added, removed and dismissed up to a time, no toast is left once the timers
-- that are due five seconds later have run.
pub pass_time_clears :
    {t : ℕ} {st : ToastState} (now : ℕ)
    → Reach t st
    → t + auto_dismiss_ms ≤ now
    → (pass_time now st).toasts ≡ []
unfolding pass_time
pass_time_clears {t} {st} now r le =
    let (timed, due) = Reach-AreTimed r in
    dismiss_everything now st.timers st (All-due_by t now st.timers le due) timed
