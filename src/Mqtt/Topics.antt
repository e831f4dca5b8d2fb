-- ===== src/Mqtt/Topics.antt =====
-- The two records of the topics that a connection is subscribed to: the service's set, and the list
-- in the session, which the browser is told.
use mathlib.Core.Option
use mathlib.Core.Option.{some-injective}
use socket_tester.Base.{
  ◌≡◌, refl, sym, ap, ◌∙◌, some, List, true, Text, text_eq, Map, lookup, delete, modify,
  lookup-delete, lookup-modify, if◌then◌else◌, arith, Option-cases, Bool-cases, inl, inr,
}
use socket_tester.Session.{
  ConnectionSession, Sessions, with_topic, without_topic, drop_topic, topics_of,
}
use socket_tester.Mqtt.{add_to_set, delete_from_set}

-- Where a connection has both, they are equal.
abbrev pub AreSynced : Sessions → Map (List Text) → Type 0
AreSynced m subs =
    (k : Text) (ts : List Text) (s : ConnectionSession)
    → lookup k subs ≡ some ts
    → lookup k m ≡ some s
    → topics_of s ≡ ts

found-modify :
    (id k : Text) (f : ConnectionSession → ConnectionSession) (m : Sessions) (s : ConnectionSession)
    → text_eq id k ≡ true
    → lookup k (modify id f m) ≡ some s
    → (t : ConnectionSession) × (lookup k m ≡ some t) × (s ≡ f t)
found-modify id k f m s same g = elim (Option-cases (lookup k m)) [
  | inl q ↦ ground (arith, lookup-modify id k f m)
  | inr (t, q) ↦ (t, q, some-injective _ _ (sym g ∙ lookup-modify id k f m ∙ rw same (rw q refl)))
]

-- One session changes, and its set, if there is one, in the same way.
pub change-AreSynced :
    (id : Text) (f : ConnectionSession → ConnectionSession) (g : List Text → List Text)
    (m : Sessions) (subs subs' : Map (List Text))
    → ((s : ConnectionSession) → topics_of (f s) ≡ g (topics_of s))
    → ((k : Text)
        → lookup k subs' ≡ (if text_eq id k then Option.map g (lookup k subs) else lookup k subs))
    → AreSynced m subs
    → AreSynced (modify id f m) subs'
change-AreSynced id f g m subs subs' h c v k ts s e q = elim (Bool-cases (text_eq id k)) [
  | inl same ↦
      let (t, found, new) = found-modify id k f m s same q in
      elim (Option-cases (lookup k subs)) [
        | inl none_there ↦ ground (arith, c k)
        | inr (old, there) ↦
            ap topics_of new
            ∙ h t
            ∙ ap g (v k old t there found)
            ∙ some-injective _ _ (sym (c k ∙ rw same (rw there refl)) ∙ e)
      ]
  | inr other ↦ v k ts s (ground (arith, c k)) (ground (arith, lookup-modify id k f m))
]

pub modify-AreSynced :
    (id : Text) (f : ConnectionSession → ConnectionSession) (m : Sessions) (subs : Map (List Text))
    → ((s : ConnectionSession) → topics_of (f s) ≡ topics_of s)
    → AreSynced m subs
    → AreSynced (modify id f m) subs
modify-AreSynced id f m subs h v =
    change-AreSynced id f (λ ts. ts) m subs subs h
      (λ k. elim (Bool-cases (text_eq id k)) [
        | inl e ↦
            rw e
              (elim (Option-cases (lookup k subs)) [ inl q ↦ rw q refl | inr (t, q) ↦ rw q refl ])
        | inr e ↦ rw e refl
      ])
      v

pub delete-AreSynced :
    (id : Text) (m : Sessions) (subs : Map (List Text))
    → AreSynced m subs
    → AreSynced m (delete id subs)
delete-AreSynced id m subs v k ts s e g = v k ts s (ground (arith, lookup-delete id k subs)) g

pub with_topic-topics :
    (topic : Text) (s : ConnectionSession)
    → topics_of (with_topic topic s) ≡ add_to_set topic (topics_of s)
unfolding with_topic add_to_set
with_topic-topics topic s = refl

pub without_topic-topics :
    (topic : Text) (s : ConnectionSession)
    → topics_of (without_topic topic s) ≡ delete_from_set topic (topics_of s)
unfolding without_topic drop_topic
without_topic-topics topic s = elim (Option-cases s.extra) [
  | inl e ↦ rw e refl
  | inr (x, e) ↦
      rw e (elim (Option-cases x.mqtt_topics) [ inl q ↦ rw q refl | inr (t, q) ↦ rw q refl ])
]
