-- ===== src/Client/Notifications.antt =====
-- src/client/src/stores/notificationStore.ts: the toasts, each of which is taken away after five
-- seconds. The timers that `setTimeout` starts are data: all wait as long, so the oldest is due first.
pub mod Expiry
use socket_tester.Base.{
  ℕ, ◌+◌, ◌≤◌, ◌≡◌, refl, Bool, true, false, not, Option, none, some, List, [], ◌∷◌, ◌++◌, filter,
  find, leb, Text, text_eq, text_eq_iff, text_eq_refl, if◌then◌else◌, arith,
}

pub data ToastType : Type 0 where
  success warning error info : ToastType

pub record Toast : Type 0 where
  pub id : Text
  pub message : Text
  pub kind : ToastType
  pub created_at : ℕ

pub record Dismissal : Type 0 where
  pub toast : Text
  pub due : ℕ

pub record ToastState : Type 0 where
  pub toasts : List Toast
  pub timers : List Dismissal

abbrev pub auto_dismiss_ms : ℕ
auto_dismiss_ms = 5000

abbrev pub no_toasts : ToastState
no_toasts = record { toasts = []; timers = [] }

unfoldable pub add_toast : Text → ToastType → Text → ℕ → ToastState → ToastState
add_toast message kind uuid now st = record {
  toasts = st.toasts ++ record { id = uuid; message = message; kind = kind; created_at = now } ∷ [];
  timers = st.timers ++ record { toast = uuid; due = now + auto_dismiss_ms } ∷ [];
}

unfoldable pub remove_toast : Text → ToastState → ToastState
remove_toast id st = record st { toasts = filter (λ t. not (text_eq t.id id)) st.toasts }

-- The timers that are due at `now` run, oldest first.
unfoldable pub dismiss : ℕ → List Dismissal → ToastState → ToastState
unfolding remove_toast
dismiss now [] st = record st { timers = [] }
dismiss now (d ∷ ds) st =
    let later = dismiss now ds (remove_toast d.toast st) in
    if leb d.due now then later else record st { timers = d ∷ ds }

unfoldable pub pass_time : ℕ → ToastState → ToastState
unfolding dismiss
pass_time now st = dismiss now st.timers st
