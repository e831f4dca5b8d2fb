-- ===== src/Mqtt/Agreement/Synced.antt =====
-- The topics of one connection in both records.
use mathlib.Core.Option
use mathlib.Core.Option.{some-injective}
use socket_tester.Base.{
  text_eq_iff, ℕ, ◌≡◌, refl, sym, ap, ◌∙◌, Option, some, List, [], true, Text, text_eq, Map, lookup,
  insert, lookup-insert, if◌then◌else◌, arith, Bool-cases, inl, inr,
}
use socket_tester.Session.{
  ConnectionSession, ConnectionStatus, ConnectionType, Sessions, create, new_session, set_close,
  with_close, update_status, with_status, with_received, topics_of, close_mqtt,
}
use socket_tester.App.{App, on_sessions}
use socket_tester.Mqtt.{CreateMqttConnectionDto, create_connection}
use socket_tester.Mqtt.Topics.{AreSynced, modify-AreSynced}

abbrev pub IsSynced : App → Type 0
IsSynced app = AreSynced app.sessions app.mqtt.subscribed_topics

pub with_status-topics :
    (status : ConnectionStatus) (message : Option Text) (now : ℕ) (s : ConnectionSession)
    → topics_of (with_status status message now s) ≡ topics_of s
unfolding with_status
with_status-topics ConnectionStatus.connected message now s = refl
with_status-topics ConnectionStatus.error message now s = refl
with_status-topics _ message now s = refl

pub with_received-topics :
    (bytes : ℕ) (latency : Option ℕ) (s : ConnectionSession)
    → topics_of (with_received bytes latency s) ≡ topics_of s
unfolding with_received
with_received-topics bytes latency s = refl

pub update_status-IsSynced :
    (id : Text) (status : ConnectionStatus) (message : Option Text) (now : ℕ) (app : App)
    → IsSynced app
    → IsSynced (on_sessions (update_status id status message now) app)
unfolding update_status
update_status-IsSynced id status message now app v =
    modify-AreSynced id (with_status status message now) app.sessions app.mqtt.subscribed_topics
      (with_status-topics status message now) v

pub insert_same {ℓ} :
    {V : Type ℓ} (id k : Text) (x : V) (m : Map V)
    → text_eq id k ≡ true
    → lookup k (insert id x m) ≡ some x
insert_same id k x m h = ground (arith, lookup-insert id k x m)

pub insert-AreSynced :
    (id : Text) (new : ConnectionSession) (m : Sessions) (subs : Map (List Text))
    → topics_of new ≡ []
    → AreSynced m subs
    → AreSynced (insert id new m) (insert id [] subs)
insert-AreSynced id new m subs empty v k ts s e g = elim (Bool-cases (text_eq id k)) [
  | inl same ↦
      ap topics_of (some-injective _ _ (sym g ∙ insert_same id k new m same))
      ∙ empty
      ∙ some-injective _ _ (sym (insert_same id k [] subs same) ∙ e)
  | inr other ↦
      v k ts s (ground (arith, lookup-insert id k [] subs))
        (ground (arith, lookup-insert id k new m))
]

pub create_connection-IsSynced :
    (dto : CreateMqttConnectionDto) (id uuid : Text) (client now : ℕ) (app : App)
    → IsSynced app
    → IsSynced (create_connection dto id uuid client now app).0
unfolding create_connection create set_close with_close
create_connection-IsSynced dto id uuid client now app v =
    modify-AreSynced id (with_close (close_mqtt client))
      (insert id (new_session id dto.broker_url ConnectionType.mqtt now) app.sessions)
      (insert id [] app.mqtt.subscribed_topics) (λ s. refl)
      (insert-AreSynced id (new_session id dto.broker_url ConnectionType.mqtt now) app.sessions
        app.mqtt.subscribed_topics refl v)

pub insert_as_modify :
    (id : Text) (g : List Text → List Text) (old : List Text) (subs : Map (List Text))
    → lookup id subs ≡ some old
    → (k : Text)
    → lookup k (insert id (g old) subs)
      ≡ (if text_eq id k then Option.map g (lookup k subs) else lookup k subs)
insert_as_modify id g old subs e k = elim (Bool-cases (text_eq id k)) [
  | inl same ↦
      let there : lookup k subs ≡ some old =
        ap (λ x. lookup x subs) (sym ((text_eq_iff id k).0 same)) ∙ e in
      insert_same id k (g old) subs same ∙ rw same (rw there refl)
  | inr other ↦ ground (arith, lookup-insert id k (g old) subs)
]
