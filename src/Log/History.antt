-- ===== src/Log/History.antt =====
-- What a connection's log holds after a history of calls of `LogService`.
use socket_tester.Base.{
  zero, suc, insert, ℕ, ◌+◌, ◌≤◌, ◌<◌, ◌≡◌, refl, sym, ap, ◌∙◌, none, List, [], ◌∷◌, ◌++◌, Text,
  text_eq, text_eq_iff, lookup, default, last_n, length, last_n-push, last_n_all, if◌then◌else◌,
  arith, lookup-insert, lookup-delete, All, All-append, Bool-cases, inl, inr, drop, ltb, has,
}
use socket_tester.Log.{
  LogInput, LogEntry, LogState, log, trim, new_entry, max_per_connection, get_by_connection,
  clear_by_connection, delete_by_connection, empty_logs,
}

pub data Call : Type 0 where
  logs : LogInput → ℕ → Call
  clears deletes : Text → Call

unfoldable pub step : LogState → Call → LogState
step st (logs e now) = log e now st
step st (clears id) = clear_by_connection id st
step st (deletes id) = delete_by_connection id st

unfoldable pub run : LogState → List Call → LogState
run st [] = st
run st (c ∷ cs) = run (step st c) cs

-- The log of `id` without a bound: all that was logged for it since it was last cleared or deleted,
-- after what `old` holds. The n-th call of `log`, over all connections, gives serial n.
abbrev pub recorded : Text → List LogEntry → ℕ → List Call → List LogEntry
recorded id old n [] = old
recorded id old n (logs e now ∷ cs) =
    recorded id (if text_eq e.connection_id id then old ++ new_entry now (n + 1) e ∷ [] else old)
      (n + 1) cs
recorded id old n (clears j ∷ cs) = recorded id (if text_eq j id then [] else old) n cs
recorded id old n (deletes j ∷ cs) = recorded id (if text_eq j id then [] else old) n cs

-- The entries of one connection, oldest first.
abbrev entries : Text → LogState → List LogEntry
entries id st = default [] (lookup id st.logs)

trim_lem : (n : ℕ) (xs : List LogEntry) → trim n xs ≡ last_n n xs
unfolding trim
trim_lem n xs = elim (Bool-cases (ltb n (length xs))) [
  | inl more ↦ rw more
  | inr fits ↦ rw (fits, trim) (sym (last_n_all n xs (ground arith)))
]

entries-log :
    (id : Text) (e : LogInput) (now : ℕ) (st : LogState)
    → entries id (log e now st) ≡ (
        if text_eq e.connection_id id
        then trim max_per_connection (entries id st ++ new_entry now (st.counter + 1) e ∷ [])
        else entries id st)
unfolding log
entries-log id e now st =
    let c = e.connection_id in
    let opened = if has c st.logs then st.logs else insert c [] st.logs in
    let grown = default [] (lookup c opened) ++ new_entry now (st.counter + 1) e ∷ [] in
    ground (
      arith,
      lookup-insert c id (trim max_per_connection grown) opened,
      lookup-insert c id [] st.logs,
      lookup-insert c c [] st.logs,
      text_eq_iff c id,
      text_eq_iff c c,
    )

counter-log : (e : LogInput) (now : ℕ) (st : LogState) → (log e now st).counter ≡ st.counter + 1
unfolding log
counter-log e now st = refl

entries-run :
    (id : Text) (cs : List Call) (st : LogState) (old : List LogEntry)
    → entries id st ≡ last_n max_per_connection old
    → entries id (run st cs) ≡ last_n max_per_connection (recorded id old st.counter cs)
unfolding run step clear_by_connection delete_by_connection
entries-run id [] st old h = h
entries-run id (logs e now ∷ cs) st old h =
    let entry = new_entry now (st.counter + 1) e in
    entries-run id cs (log e now st) (if text_eq e.connection_id id then old ++ entry ∷ [] else old)
      (ground (
        arith,
        entries-log id e now st,
        trim_lem max_per_connection (entries id st ++ entry ∷ []),
        last_n-push max_per_connection old entry,
      ))
    ∙ ap
        (λ n.
          last_n max_per_connection
            (recorded id (if text_eq e.connection_id id then old ++ entry ∷ [] else old) n cs))
        (counter-log e now st)
entries-run id (clears j ∷ cs) st old h =
    entries-run id cs (clear_by_connection j st) (if text_eq j id then [] else old)
      (ground (arith, lookup-insert j id [] st.logs))
entries-run id (deletes j ∷ cs) st old h =
    entries-run id cs (delete_by_connection j st) (if text_eq j id then [] else old)
      (ground (arith, lookup-delete j id st.logs))

-- After any history of calls from an empty store, a connection's log reads as the last 5000 of the
-- entries that were logged for it since it was last cleared or deleted, oldest first.
pub get_by_connection-run :
    (id : Text) (cs : List Call)
    → get_by_connection id none (run empty_logs cs)
      ≡ last_n max_per_connection (recorded id [] 0 cs)
unfolding get_by_connection lookup
get_by_connection-run id cs = entries-run id cs empty_logs [] refl

-- Every serial is at most `hi`, and later entries have larger ones.
abbrev pub IsAscending : List LogEntry → ℕ → Type 0
IsAscending [] hi = Unit {0}
IsAscending (x ∷ xs) hi =
    (x.id.serial ≤ hi) × All (λ y. x.id.serial < y.id.serial) xs × IsAscending xs hi

IsAscending-concat :
    (xs : List LogEntry) (e : LogEntry) (hi : ℕ)
    → IsAscending xs hi
    → hi < e.id.serial
    → IsAscending (xs ++ e ∷ []) e.id.serial
IsAscending-concat [] e hi h k = (omega arith, tt, tt)
IsAscending-concat (x ∷ xs) e hi (le, above, h) k = (
  omega arith,
  All-append (λ y. x.id.serial < y.id.serial) xs (e ∷ []) above (omega arith, tt),
  IsAscending-concat xs e hi h k,
)

IsAscending-mono :
    (xs : List LogEntry) (lo hi : ℕ) → lo ≤ hi → IsAscending xs lo → IsAscending xs hi
IsAscending-mono [] lo hi le h = tt
IsAscending-mono (x ∷ xs) lo hi le (b, above, h) =
    (omega arith, above, IsAscending-mono xs lo hi le h)

IsAscending-drop :
    (n : ℕ) (xs : List LogEntry) (hi : ℕ) → IsAscending xs hi → IsAscending (drop n xs) hi
IsAscending-drop zero xs hi h = h
IsAscending-drop (suc n) [] hi h = h
IsAscending-drop (suc n) (x ∷ xs) hi h = IsAscending-drop n xs hi h.2

recorded-IsAscending :
    (id : Text) (cs : List Call) (old : List LogEntry) (n : ℕ)
    → IsAscending old n
    → IsAscending (recorded id old n cs) (n + length cs)
recorded-IsAscending id [] old n h = IsAscending-mono old n (n + 0) (omega arith) h
recorded-IsAscending id (logs e now ∷ cs) old n h =
    let entry = new_entry now (n + 1) e in
    let new = if text_eq e.connection_id id then old ++ entry ∷ [] else old in
    IsAscending-mono (recorded id new (n + 1) cs) (n + 1 + length cs) (n + suc (length cs))
      (omega arith)
      (recorded-IsAscending id cs new (n + 1) (
        ground (
          arith,
          IsAscending-concat old entry n h (omega arith),
          IsAscending-mono old n (n + 1) (omega arith) h,
        )))
recorded-IsAscending id (clears j ∷ cs) old n h =
    let new = if text_eq j id then [] else old in
    IsAscending-mono (recorded id new n cs) (n + length cs) (n + suc (length cs)) (omega arith)
      (recorded-IsAscending id cs new n (ground arith))
recorded-IsAscending id (deletes j ∷ cs) old n h =
    let new = if text_eq j id then [] else old in
    IsAscending-mono (recorded id new n cs) (n + length cs) (n + suc (length cs)) (omega arith)
      (recorded-IsAscending id cs new n (ground arith))

-- After any history of calls the serials of a connection's log increase from entry to entry, so no
-- two of its entries have the same id.
pub get_by_connection-IsAscending :
    (id : Text) (cs : List Call)
    → IsAscending (get_by_connection id none (run empty_logs cs)) (length cs)
get_by_connection-IsAscending id cs = rw (get_by_connection-run id cs) (
    IsAscending-drop _ (recorded id [] 0 cs) (length cs) (
      IsAscending-mono (recorded id [] 0 cs) (0 + length cs) (length cs) (omega arith)
        (recorded-IsAscending id cs [] 0 tt)))
