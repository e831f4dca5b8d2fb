-- ===== src/Amqp/Acks.antt =====
-- Acknowledging deliveries.
use socket_tester.Base.{
  arith, sym, Option-cases, inl, inr, ℕ, ◌≡◌, refl, ap, ◌∙◌, none, some, List, [], ◌∷◌, ◌++◌, Text,
  lit, lookup, insert, delete, modify, lookup-modify_self, lookup-insert_self, lookup-delete_self,
  decimal,
}
use socket_tester.App.{App, ok, err, bad_request, AmqpState, AmqpCall, AmqpPart, on_amqp}
use socket_tester.Amqp.{state_of}
use socket_tester.Amqp.Channel.{ack, AmqpAckDto, settle_call, on_delivery, Delivered}

-- Changing the state object of a connection that is in the map.
state_of-modify :
    (id : Text) (p : AmqpPart) (calls : List AmqpCall) (f : AmqpState → AmqpState) (s : AmqpState)
    → state_of id p ≡ some s
    → state_of id (record p { calls = calls; objects = modify id f p.objects }) ≡ some (f s)
unfolding state_of
state_of-modify id p calls f s e = elim (Option-cases (lookup id p.states)) [
  | inl h ↦ ground (arith, rw (h, state_of) at e)
  | inr (c, h) ↦ rw (h, state_of) (lookup-modify_self id f p.objects s (rw (h, state_of) at e))
]

-- The channel's state without one tag.
abbrev without_tag : Text → AmqpState → AmqpState
without_tag tag s = record s { delivery_tags = delete tag s.delivery_tags }

ack_known :
    (id : Text) (dto : AmqpAckDto) (app : App) (s : AmqpState) (tag : ℕ)
    → state_of id app.amqp ≡ some s
    → lookup dto.delivery_tag s.delivery_tags ≡ some tag
    → ack id dto app ≡ (
      on_amqp
          (λ p. record p {
            calls = p.calls ++ settle_call s.channel tag dto ∷ [];
            objects = modify id (without_tag dto.delivery_tag) p.objects;
          })
          app,
      ok tt,
    )
unfolding ack
ack_known id dto app s tag e f = rw (e, ack) (rw f)

ack_unknown :
    (id : Text) (dto : AmqpAckDto) (app : App) (s : AmqpState)
    → state_of id app.amqp ≡ some s
    → lookup dto.delivery_tag s.delivery_tags ≡ none
    → ack id dto app ≡ (app, err (bad_request (lit "Unknown delivery tag " ++ dto.delivery_tag)))
unfolding ack
ack_unknown id dto app s e f = rw (e, ack) (rw f)

-- A delivery of a known connection can be acknowledged under its tag once: the broker gets the one call
-- for that tag, and a second acknowledgement is refused and changes nothing.
pub ack-on_delivery :
    (id queue : Text) (msg : Delivered) (dto again : AmqpAckDto) (now : ℕ) (app : App)
    (s : AmqpState)
    → state_of id app.amqp ≡ some s
    → dto.delivery_tag ≡ decimal msg.delivery_tag
    → again.delivery_tag ≡ decimal msg.delivery_tag
    → let first = ack id dto (on_delivery id queue (some msg) now app) in
      (first.1 ≡ ok tt)
      × (first.0.amqp.calls ≡ app.amqp.calls ++ settle_call s.channel msg.delivery_tag dto ∷ [])
      × (ack id again first.0
          ≡ (first.0, err (bad_request (lit "Unknown delivery tag " ++ again.delivery_tag))))
ack-on_delivery id queue msg dto again now app s e d a =
    let tag = msg.delivery_tag in
    let app1 = on_delivery id queue (some msg) now app in
    let s1 : AmqpState = record s { delivery_tags = insert (decimal tag) tag s.delivery_tags } in
    let e1 : state_of id app1.amqp ≡ some s1 =
      unfold on_delivery in state_of-modify id app.amqp app.amqp.calls _ s e in
    let acked = ack_known id dto app1 s1 tag e1 (
      ap (λ t. lookup t s1.delivery_tags) d
      ∙ lookup-insert_self (decimal tag) tag s.delivery_tags) in
    let app2 =
      on_amqp
        (λ p. record p {
          calls = p.calls ++ settle_call s.channel tag dto ∷ [];
          objects = modify id (without_tag dto.delivery_tag) p.objects;
        })
        app1 in
    rw acked (
      refl,
      unfold on_delivery in refl,
      ack_unknown id again app2 (without_tag dto.delivery_tag s1)
          (state_of-modify id app1.amqp _ (without_tag dto.delivery_tag) s1 e1)
          (ap (λ t. lookup t (delete dto.delivery_tag s1.delivery_tags)) (a ∙ sym d)
            ∙ lookup-delete_self dto.delivery_tag s1.delivery_tags),
    )
