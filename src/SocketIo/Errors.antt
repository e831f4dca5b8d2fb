-- ===== src/SocketIo/Errors.antt =====
-- Connection errors of Socket.IO.
use socket_tester.Base.{
  ℕ, ◌≡◌, refl, List, [], ◌∷◌, ◌++◌, true, any, Text, text_eq, text_eq_refl, Bool-cases, inl, inr,
  arith,
}
use socket_tester.App.{App}
use socket_tester.Mqtt.{add_to_set}
use socket_tester.SocketIo.Refusals.{ConnectError, on_connect_error, is_failed}

pub any-add_to_set : (x : Text) (xs : List Text) → any (text_eq x) (add_to_set x xs) ≡ true
unfolding add_to_set
any-add_to_set x xs = elim (Bool-cases (any (text_eq x) xs)) [
  | inl e ↦ rw e e
  | inr e ↦ rw e (go xs)
]
  where
    go : (ys : List Text) → any (text_eq x) (ys ++ x ∷ []) ≡ true
    go [] = ground (arith, text_eq_refl x)
    go (y ∷ ys) = ground (arith, go ys)

on_connect_error-fails :
    (id url : Text) (client : ℕ) (e : ConnectError) (now : ℕ) (app : App)
    → is_failed id (on_connect_error id url client e now app) ≡ true
unfolding on_connect_error
on_connect_error-fails id url client e now app = elim (Bool-cases (is_failed id app)) [
  | inl h ↦ rw h h
  | inr h ↦ rw h (any-add_to_set id app.sio.failed_connections)
]

-- Until a failed connection is cleaned up, its later connection errors change nothing: the failure is
-- counted, shown and scheduled for clean-up once.
pub on_connect_error_again :
    (id url : Text) (client : ℕ) (e later_error : ConnectError) (now later : ℕ) (app : App)
    → let failed = on_connect_error id url client e now app in
      on_connect_error id url client later_error later failed ≡ failed
unfolding on_connect_error
on_connect_error_again id url client e f now later app =
    rw (on_connect_error-fails id url client e now app) refl
