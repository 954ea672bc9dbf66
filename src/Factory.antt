-- ===== src/Factory.antt =====
-- src/implementation/MessageBrokerFactory.cpp, MessageBrokerWrapper.cpp and .h, and the start of
-- RedisBrokerConnector's constructor: from the user's configuration to a broker on a connection.
mod Tests
use oregano.Base.{
  ℕ, ◌%◌, ◌^◌, String, ◌≡◌, refl, ◌∙◌, ap, Result, ok, err, List, [], ◌∷◌, some, true,
}
use oregano.Connector.Queue
use oregano.Broker.{
  call_event_callbacks, call_transaction_callbacks, Brokered, ConnectorCallback, as_broker,
}
use oregano.Broker
use oregano.Config.{Redis, Configuration, redis, RedisImpl, as_redis, copied}
use oregano.Config
use oregano.Config.Settings.{
  Setting, host, port, user, password, put_in, configure, copied-configure,
}
use oregano.Connector.Methods.{RedisBrokerConnector, connector}
use oregano.Connector.Methods
use oregano.Connector.Redis.{RedisLists, RedisChannels}
use oregano.Interfaces.{IMessageBroker}

-- What the source sets of the client's `sw::redis::ConnectionOptions`.
pub record ConnectionOptions : Type 0 where
  pub host : String
  pub port : ℕ
  pub user : String
  pub password : String

unfoldable pub options : {X : Type 0} → Redis X → X → ConnectionOptions
options r c = record {
  host = r.get_host c;
  port = r.get_port c;
  user = r.get_user c;
  password = r.get_password c;
}

-- A class that has a broker, over the state `S` of the broker.
pub record IMessageBrokerWrapper (C S : Type 0) : Type 0 where
  pub get_message_broker : IMessageBroker C S

-- What becomes of the value, unless there is an exception.
abbrev pub map_ok : {A B : Type 0} → (A → B) → Result A → Result B
map_ok f (ok a) = ok (f a)
map_ok f (err e) = err e

map_ok-map_ok :
    {A B D : Type 0} (f : B → D) (g : A → B) (x : Result A)
    → map_ok f (map_ok g x) ≡ map_ok (λ a. f (g a)) x
map_ok-map_ok f g (ok a) = refl
map_ok-map_ok f g (err e) = refl

-- The reference: what the settings of a user come to for the client. Each setting counts from the
-- last time that it is made; a host, a user and a password are taken as they are, and a port by its
-- last 16 bits.
abbrev pub settled : List Setting → ConnectionOptions → ConnectionOptions
settled [] o = o
settled (host s ∷ ss) o = settled ss (record o { host = s })
settled (port n ∷ ss) o = settled ss (record o { port = n % 2 ^ 16 })
settled (user s ∷ ss) o = settled ss (record o { user = s })
settled (password s ∷ ss) o = settled ss (record o { password = s })

-- what holds before any setting is made
abbrev pub by_default : ConnectionOptions
by_default = record { host = ""; port = 0; user = "default"; password = "" }

options-configure :
    (ss : List Setting) (c : RedisImpl)
    → options as_redis (configure ss c) ≡ settled ss (options as_redis c)
unfolding options as_redis configure put_in Config.set_host Config.set_port Config.set_user
    Config.set_password
options-configure [] c = refl
options-configure (host s ∷ ss) c = options-configure ss (Config.set_host s c)
options-configure (port n ∷ ss) c = options-configure ss (Config.set_port n c)
options-configure (user s ∷ ss) c = options-configure ss (Config.set_user s c)
options-configure (password s ∷ ss) c = options-configure ss (Config.set_password s c)

options-create :
    (ss : List Setting) → options as_redis (configure ss Config.create) ≡ settled ss by_default
unfolding options as_redis Config.create
options-create ss = options-configure ss Config.create

-- `connect` stands for the client's constructors, which open the connection to the server.
module _ {R P : Type 0} (lists : RedisLists R) (pubsub : RedisChannels P)
    (connect : ConnectionOptions → Result (R × P)) where
  -- The constructor of the connector, as its callers have it.
  unfoldable pub create_connector : RedisImpl → String → Result (RedisBrokerConnector R P)
  unfolding options
  create_connector configuration technical_channel =
      map_ok (λ (server, channels). Methods.create lists pubsub technical_channel server channels)
        (connect (options as_redis configuration))

  -- `IMessageBroker::create`; the text is what `sole::uuid4().base62()` draws.
  unfoldable pub create_broker :
      {C : Type 0} → Configuration → String → Result (Brokered C (RedisBrokerConnector R P))
  unfolding create_connector
  create_broker (redis r c) id =
      map_ok (Broker.create (connector lists pubsub)) (create_connector (copied r c) id)

  -- The wrapper of a broker on this connector.
  unfoldable pub message_broker_wrapper :
      {C : Type 0} → IMessageBrokerWrapper C (Brokered C (RedisBrokerConnector R P))
  message_broker_wrapper = record { get_message_broker = as_broker (connector lists pubsub) }

  -- `IMessageBrokerWrapper::create`: the state of the broker in the new wrapper.
  unfoldable pub create_wrapper :
      {C : Type 0} → Configuration → String → Result (Brokered C (RedisBrokerConnector R P))
  unfolding create_broker
  create_wrapper configuration id = create_broker configuration id

  -- The reference: a broker without subscriptions and callbacks, whose two callbacks are set in a
  -- connector that is subscribed to its technical channel and has it on the list of its worker.
  abbrev pub connected : {C : Type 0} → String → R → P → Brokered C (RedisBrokerConnector R P)
  connected technical_channel server channels = record {
    broker = record {
      channel_subscriptions = [];
      queue_subscriptions = [];
      event_callbacks = [];
      transaction_callbacks = [];
    };
    connector = record {
      queue = record {
        technical_channel = technical_channel;
        queue_subscriptions = technical_channel ∷ [];
        queue_subscriptions_changed = true;
      };
      server = server;
      channels = pubsub.subscribe technical_channel channels;
      on_subscribe_callback = some call_event_callbacks;
      on_queue_callback = some call_transaction_callbacks;
    };
  }

  -- Whatever setters the user has called on a new configuration: the client is asked for a
  -- connection with the host, the port, the user and the password that were set last, a port by its
  -- last 16 bits, and where one was never set with "", 0, "default" and "". The client's exception
  -- is passed on, and otherwise the wrapper has a new broker on a new connector with that
  -- connection, subscribed to the technical channel that was drawn.
  pub configured :
      {C : Type 0} (settings : List Setting) (id : String)
      → create_wrapper {C = C} (redis as_redis (configure settings Config.create)) id
        ≡ map_ok
            (λ (server, channels). connected id server channels)
            (connect (settled settings by_default))
  unfolding create_wrapper create_broker create_connector connector Broker.create Methods.create
      Queue.create Methods.set_on_queue_callback Methods.set_on_subscriber_callback
  configured settings id =
      rw (copied-configure settings, options-create settings) (map_ok-map_ok _ _ (connect _))
