-- ===== src/Client/Form/RoundTrip.antt =====
-- A configuration that the form saves fills the form in again.
use socket_tester.Base.{
  ◌≡◌, refl, Bool, true, [], ◌∷◌, Text, truthy, default, trim-trim, lit, arith, Bool-cases,
}
use socket_tester.Session.{ConnectionType, websocket, socketio, mqtt, amqp}
use socket_tester.Client.Form.{Form, fill_in, build_config, if_given, address}

if_given-default : (s : Text) → if_given (default [] (if_given s)) ≡ if_given s
if_given-default [] = refl
if_given-default (c ∷ s) = refl

-- An empty virtual host is not saved, and loads as `/`.
abbrev pub has_vhost : ConnectionType → Form → Bool
has_vhost amqp f = truthy f.amqp_vhost
has_vhost _ f = true

if_given-vhost :
    (s : Text) → truthy s ≡ true → if_given (default (lit "/") (if_given s)) ≡ if_given s
if_given-vhost [] h = cc
if_given-vhost (c ∷ s) h = refl

-- Whatever the form held before, filling it in with the configuration that it saved for a protocol
-- gives a form that saves the same configuration, and that connects to the same address; for AMQP
-- where the virtual host is not left empty.
pub build_config-fill_in :
    (p : ConnectionType) (f g : Form)
    → has_vhost p f ≡ true
    → (build_config p (fill_in p (build_config p f) g) ≡ build_config p f)
      × (address p (fill_in p (build_config p f) g) ≡ address p f)
unfolding build_config fill_in address
build_config-fill_in websocket f g h =
    ground (arith, trim-trim f.url, if_given-default f.wss_protocols)
build_config-fill_in socketio f g h = ground (
  arith,
  trim-trim f.url,
  if_given-default f.namespace,
  if_given-default f.sio_path,
  Bool-cases (truthy f.auth_json),
)
build_config-fill_in mqtt f g h = ground (
  arith,
  trim-trim f.broker_url,
  if_given-default f.mqtt_client_id,
  if_given-default f.mqtt_username,
)
build_config-fill_in amqp f g h =
    ground
      (arith, trim-trim f.amqp_url, if_given-vhost f.amqp_vhost h, if_given-default f.amqp_username)
