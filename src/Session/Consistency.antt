-- ===== src/Session/Consistency.antt =====
-- What every call keeps true of every session.
use socket_tester.Base.{
  ℕ, ◌≤◌, ◌<◌, ◌≡◌, refl, Option, none, some, List, [], ◌∷◌, ◌++◌, Bool, false, not, length, total,
  last?, any, filter, All, Text, text_eq, text_eq_iff, values, default, arith, length-append,
  All-modify, All-insert, All-delete,
}
use socket_tester.Session.{
  ConnectionSession, Sessions, ConnectionStatus, ConnectionType, new_session, push_shift, round_div,
  with_latency, with_status, with_sent, with_received, with_error, with_reconnection, with_buffered,
  with_topic, without_topic, topics_of, create, update_status, record_message_sent,
  record_message_received, record_error, increment_reconnection, buffer_message, add_mqtt_topic,
  remove_mqtt_topic, delete_session, Buffered,
}
use socket_tester.Session.Calls.{
  Call, creates, sets_status, sends, receives, fails, reconnects, deletes, buffers, adds_topic,
  removes_topic, step, run,
}

-- The rounded mean of the samples; none of no samples.
abbrev mean : List ℕ → Option ℕ
mean [] = none
mean (x ∷ xs) = some (round_div (total (λ n. n) (x ∷ xs)) (length (x ∷ xs)))

abbrev Distinct : List Text → Type 0
Distinct [] = Unit {0}
Distinct (x ∷ xs) = (any (text_eq x) xs ≡ false) × Distinct xs

pub record IsConsistent (s : ConnectionSession) : Type 0 where
  pub samples_bounded : length s.stats.latency_samples ≤ 100
  pub buffer_bounded : length (default [] s.buffered_messages) ≤ 100
  pub average : s.stats.latency_avg ≡ mean s.stats.latency_samples
  pub newest : s.stats.latency_last ≡ last? s.stats.latency_samples
  pub topics : Distinct (topics_of s)

module _ {ℓ} {A : Type ℓ} where
  length-push_shift-le :
      (n : ℕ) (xs : List A) (x : A) → length xs ≤ n → length (push_shift n xs x) ≤ n
  unfolding push_shift
  length-push_shift-le n [] x h = ground arith
  length-push_shift-le n (y ∷ xs) x h = ground (arith, length-append xs (x ∷ []))

  last?-concat : (xs : List A) (x : A) → last? (xs ++ x ∷ []) ≡ some x
  last?-concat [] x = refl
  last?-concat (y ∷ []) x = refl
  last?-concat (y ∷ z ∷ xs) x = last?-concat (z ∷ xs) x

  last?-push_shift : (n : ℕ) (xs : List A) (x : A) → 0 < n → last? (push_shift n xs x) ≡ some x
  unfolding push_shift
  last?-push_shift n [] x h = ground arith
  last?-push_shift n (y ∷ xs) x h = ground (arith, last?-concat xs x, last?-concat (y ∷ xs) x)

mean_of_last? :
    (xs : List ℕ) (x : ℕ)
    → last? xs ≡ some x
    → mean xs ≡ some (round_div (total (λ n. n) xs) (length xs))
mean_of_last? [] x h = cc
mean_of_last? (y ∷ xs) x h = refl

any-concat :
    (p : Text → Bool) (xs : List Text) (y : Text)
    → any p xs ≡ false
    → p y ≡ false
    → any p (xs ++ y ∷ []) ≡ false
any-concat p [] y h k = ground arith
any-concat p (x ∷ xs) y h k = ground (arith, any-concat p xs y)

Distinct-concat :
    (xs : List Text) (y : Text) → Distinct xs → any (text_eq y) xs ≡ false → Distinct (xs ++ y ∷ [])
Distinct-concat [] y d h = (refl, tt)
Distinct-concat (x ∷ xs) y (p, d) h = (
  any-concat (text_eq x) xs y p (ground (arith, text_eq_iff x y, text_eq_iff y x)),
  Distinct-concat xs y d (ground arith),
)

any-filter : (p q : Text → Bool) (xs : List Text) → any p xs ≡ false → any p (filter q xs) ≡ false
any-filter p q [] h = refl
any-filter p q (x ∷ xs) h = ground (arith, any-filter p q xs)

Distinct-filter : (q : Text → Bool) (xs : List Text) → Distinct xs → Distinct (filter q xs)
Distinct-filter q [] d = tt
Distinct-filter q (x ∷ xs) (p, d) =
    ground (arith, Distinct-filter q xs d, any-filter (text_eq x) q xs p)

new_session-IsConsistent :
    (id url : Text) (kind : ConnectionType) (now : ℕ) → IsConsistent (new_session id url kind now)
new_session-IsConsistent id url kind now = record {
  samples_bounded = omega arith;
  buffer_bounded = omega arith;
  average = refl;
  newest = refl;
  topics = tt;
}

with_status-IsConsistent :
    (status : ConnectionStatus) (message : Option Text) (now : ℕ) (s : ConnectionSession)
    → IsConsistent s
    → IsConsistent (with_status status message now s)
unfolding with_status
with_status-IsConsistent ConnectionStatus.connected message now s v = ground arith
with_status-IsConsistent _ message now s v = ground arith

with_received-IsConsistent :
    (bytes : ℕ) (latency : Option ℕ) (s : ConnectionSession)
    → IsConsistent s
    → IsConsistent (with_received bytes latency s)
unfolding with_received with_latency
with_received-IsConsistent bytes none s v = ground arith
with_received-IsConsistent bytes (some latency) s v =
    let newest = last?-push_shift 100 s.stats.latency_samples latency (omega arith) in
    record {
      samples_bounded = length-push_shift-le 100 s.stats.latency_samples latency v.samples_bounded;
      buffer_bounded = v.buffer_bounded;
      average = cc (mean_of_last? (push_shift 100 s.stats.latency_samples latency) latency newest);
      newest = cc newest;
      topics = v.topics;
    }

with_buffered-IsConsistent :
    (b : Buffered) (s : ConnectionSession) → IsConsistent s → IsConsistent (with_buffered b s)
unfolding with_buffered
with_buffered-IsConsistent b s v = record {
  samples_bounded = v.samples_bounded;
  buffer_bounded = length-push_shift-le 100 (default [] s.buffered_messages) b v.buffer_bounded;
  average = v.average;
  newest = v.newest;
  topics = v.topics;
}

with_topic-IsConsistent :
    (topic : Text) (s : ConnectionSession) → IsConsistent s → IsConsistent (with_topic topic s)
unfolding with_topic
with_topic-IsConsistent topic s v = record {
  samples_bounded = v.samples_bounded;
  buffer_bounded = v.buffer_bounded;
  average = v.average;
  newest = v.newest;
  topics = ground (arith, v.topics, Distinct-concat (topics_of s) topic v.topics);
}

topics_of-without_topic :
    (topic : Text) (s : ConnectionSession)
    → topics_of (without_topic topic s) ≡ filter (λ t. not (text_eq t topic)) (topics_of s)
unfolding without_topic
topics_of-without_topic topic s = ground arith

without_topic-IsConsistent :
    (topic : Text) (s : ConnectionSession) → IsConsistent s → IsConsistent (without_topic topic s)
unfolding without_topic
without_topic-IsConsistent topic s v = record {
  samples_bounded = v.samples_bounded;
  buffer_bounded = v.buffer_bounded;
  average = v.average;
  newest = v.newest;
  topics = rw (topics_of-without_topic topic s) (Distinct-filter _ (topics_of s) v.topics);
}

abbrev pub AreConsistent : Sessions → Type 0
AreConsistent m = All IsConsistent (values m)

pub step-AreConsistent : (m : Sessions) (c : Call) → AreConsistent m → AreConsistent (step m c)
unfolding step create update_status record_message_sent record_message_received record_error
    increment_reconnection delete_session buffer_message add_mqtt_topic remove_mqtt_topic with_sent
    with_error with_reconnection
step-AreConsistent m (creates id url kind now) v =
    All-insert IsConsistent id _ m (new_session-IsConsistent id url kind now) v
step-AreConsistent m (sets_status id status message now) v =
    All-modify IsConsistent id _ m (with_status-IsConsistent status message now) v
step-AreConsistent m (sends id bytes) v = All-modify IsConsistent id _ m (λ s w. ground arith) v
step-AreConsistent m (receives id bytes latency) v =
    All-modify IsConsistent id _ m (with_received-IsConsistent bytes latency) v
step-AreConsistent m (fails id) v = All-modify IsConsistent id _ m (λ s w. ground arith) v
step-AreConsistent m (reconnects id) v = All-modify IsConsistent id _ m (λ s w. ground arith) v
step-AreConsistent m (deletes id) v = All-delete IsConsistent id m v
step-AreConsistent m (buffers id event sent) v =
    All-modify IsConsistent id _ m (with_buffered-IsConsistent _) v
step-AreConsistent m (adds_topic id topic) v =
    All-modify IsConsistent id _ m (with_topic-IsConsistent topic) v
step-AreConsistent m (removes_topic id topic) v =
    All-modify IsConsistent id _ m (without_topic-IsConsistent topic) v

-- After any history of calls every session keeps at most 100 latency samples and 100 buffered
-- messages, its average is the rounded mean of the samples that it keeps, its last latency is the
-- newest of them, and no topic is listed twice, provided that this holds at the start, as it does
-- of no sessions.
pub run-AreConsistent : (cs : List Call) (m : Sessions) → AreConsistent m → AreConsistent (run m cs)
unfolding run
run-AreConsistent [] m v = v
run-AreConsistent (c ∷ cs) m v = run-AreConsistent cs (step m c) (step-AreConsistent m c v)
