-- ===== src/Client/Series/Figures.antt =====
-- What each call changes in the series of every connection, and what the buckets count.
use socket_tester.Base.{
  ℕ, ◌+◌, ◌/◌, ◌≡◌, Bool, true, false, ◌&&◌, Option, List, [], ◌∷◌, last?, Text, text_eq,
  text_eq_iff, lookup-insert, lookup-delete, if◌then◌else◌, ltb, ◌==◌, total, arith, Option-cases,
}
use socket_tester.Client.Series.{
  MsgBucket, StatsState, Direction, outgoing, incoming, empty_time_series, recent, into_last,
  put_message, get_time_series, record_message, record_error, clear_connection, with_message,
  with_error, count_message, new_bucket,
}

pub get_time_series-record_message :
    (id j : Text) (d : Direction) (n : ℕ) (l : Option ℕ) (now : ℕ) (st : StatsState)
    → get_time_series j (record_message id d n l now st) ≡ (
        if text_eq id j
        then with_message d n l now (get_time_series id st)
        else get_time_series j st)
unfolding get_time_series record_message
get_time_series-record_message id j d n l now st =
    ground
      (arith, lookup-insert id j (with_message d n l now (get_time_series id st)) st.time_series)

pub get_time_series-record_error :
    (id j : Text) (now : ℕ) (st : StatsState)
    → get_time_series j (record_error id now st)
      ≡ (if text_eq id j then with_error now (get_time_series id st) else get_time_series j st)
unfolding get_time_series record_error
get_time_series-record_error id j now st =
    ground (arith, lookup-insert id j (with_error now (get_time_series id st)) st.time_series)

pub get_time_series-clear_connection :
    (id j : Text) (st : StatsState)
    → get_time_series j (clear_connection id st)
      ≡ (if text_eq id j then empty_time_series else get_time_series j st)
unfolding get_time_series clear_connection
get_time_series-clear_connection id j st = ground (arith, lookup-delete id j st.time_series)

-- The messages of one direction in the bucket of one second.
abbrev pub counted : Direction → MsgBucket → ℕ
counted outgoing b = b.sent
counted incoming b = b.received

abbrev pub direction_eq : Direction → Direction → Bool
direction_eq outgoing outgoing = true
direction_eq incoming incoming = true
direction_eq _ _ = false

abbrev at : ℕ → Direction → MsgBucket → ℕ
at sec d b = if b.time == sec then counted d b else 0

abbrev pub count_at : ℕ → Direction → List MsgBucket → ℕ
count_at sec d bs = total (at sec d) bs

count_at-recent :
    (now sec : ℕ) (d : Direction) (bs : List MsgBucket)
    → count_at sec d (recent (λ b. b.time) now bs)
      ≡ (if ltb now (sec + 60) then count_at sec d bs else 0)
count_at-recent now sec d [] = ground arith
count_at-recent now sec d (b ∷ bs) = ground (arith, count_at-recent now sec d bs)

count_at-into_last :
    (now sec : ℕ) (d e : Direction) (bs : List MsgBucket)
    → count_at sec e (into_last (λ b. b.time) now (count_message d) (new_bucket now d) bs)
      ≡ count_at sec e bs + (if (now == sec) && direction_eq d e then 1 else 0)
count_at-into_last now sec outgoing outgoing [] = ground arith
count_at-into_last now sec outgoing incoming [] = ground arith
count_at-into_last now sec incoming outgoing [] = ground arith
count_at-into_last now sec incoming incoming [] = ground arith
count_at-into_last now sec outgoing outgoing (b ∷ []) = ground arith
count_at-into_last now sec outgoing incoming (b ∷ []) = ground arith
count_at-into_last now sec incoming outgoing (b ∷ []) = ground arith
count_at-into_last now sec incoming incoming (b ∷ []) = ground arith
count_at-into_last now sec d e (a ∷ b ∷ bs) =
    ground (arith, count_at-into_last now sec d e (b ∷ bs), Option-cases (last? (b ∷ bs)))

put_message_counts :
    (now sec : ℕ) (d e : Direction) (bs : List MsgBucket)
    → count_at sec e (put_message now d bs)
      ≡ (if ltb now (sec + 60) then count_at sec e bs else 0)
        + (if (now == sec) && direction_eq d e then 1 else 0)
unfolding put_message
put_message_counts now sec d e bs = omega (
  arith,
  count_at-into_last now sec d e (recent (λ b. b.time) now bs),
  count_at-recent now sec e bs,
)

-- Recording a message adds one to the count of its direction at the current second, drops the counts
-- of the seconds that are 60 or more seconds old, and leaves every other count, and the charts of
-- every other connection, as they are.
pub record_message_counts :
    (id j : Text) (d e : Direction) (n : ℕ) (l : Option ℕ) (now sec : ℕ) (st : StatsState)
    → count_at sec e (get_time_series j (record_message id d n l now st)).messages ≡ (
        if text_eq id j
        then (if ltb (now / 1000) (sec + 60)
            then count_at sec e (get_time_series j st).messages
            else 0)
          + (if (now / 1000 == sec) && direction_eq d e then 1 else 0)
        else count_at sec e (get_time_series j st).messages)
unfolding with_message
record_message_counts id j d e n l now sec st =
    let old = (get_time_series id st).messages in
    ground (
      arith,
      get_time_series-record_message id j d n l now st,
      text_eq_iff id j,
      put_message_counts (now / 1000) sec d e old,
    )
