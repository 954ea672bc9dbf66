-- ===== src/Connector/Methods.antt =====
-- The connector as the broker has it: each method from its first line to its last, where
-- m_subscription_lock and m_queue_subscription_lock keep calls apart. `subscribe` and `unsubscribe`
-- return when the server has confirmed the command, and do not throw while the connection works
-- (Handshake).
use oregano.Base.{String, Option, none, some, ite, String_discrete, ok, Void, pure}
use oregano.Broker.{ConnectorCallback}
use oregano.Interfaces.{IMessageBrokerConnector}
use oregano.Connector.Redis.{RedisLists, RedisChannels}
use oregano.Connector.Queue.{QueueState}
use oregano.Connector.Queue

-- The members, with the server's lists and the channels of m_redis_subscriber. A callback that is
-- not set does nothing.
pub record RedisBrokerConnector (R P : Type 0) : Type 0 where
  pub queue : QueueState
  pub server : R
  pub channels : P
  pub on_subscribe_callback : Option ConnectorCallback
  pub on_queue_callback : Option ConnectorCallback

module _ {R P : Type 0} (lists : RedisLists R) (pubsub : RedisChannels P) where
  -- The constructor.
  unfoldable pub create : String → R → P → RedisBrokerConnector R P
  create technical_channel server channels = record {
    queue = Queue.create technical_channel;
    server = server;
    channels = pubsub.subscribe technical_channel channels;
    on_subscribe_callback = none;
    on_queue_callback = none;
  }

  unfoldable pub set_on_subscriber_callback : ConnectorCallback → Void (RedisBrokerConnector R P)
  set_on_subscriber_callback f k = (ok tt, record k { on_subscribe_callback = some f })

  unfoldable pub set_on_queue_callback : ConnectorCallback → Void (RedisBrokerConnector R P)
  set_on_queue_callback f k = (ok tt, record k { on_queue_callback = some f })

  unfoldable pub publish : String → String → Void (RedisBrokerConnector R P)
  publish channel message k =
      (ok tt, record k { channels = pubsub.publish channel message k.channels })

  unfoldable pub notify_event_subscription_change : RedisBrokerConnector R P → P → P
  notify_event_subscription_change k = pubsub.publish k.queue.technical_channel ""

  unfoldable pub subscribe : String → Void (RedisBrokerConnector R P)
  unfolding notify_event_subscription_change
  subscribe channel k = (
    ok tt,
    record k {
      channels = notify_event_subscription_change k (pubsub.subscribe channel k.channels);
    },
  )

  unfoldable pub unsubscribe : String → Void (RedisBrokerConnector R P)
  unfolding notify_event_subscription_change
  unsubscribe channel k = (
    ok tt,
    record k {
      channels = notify_event_subscription_change k (pubsub.unsubscribe channel k.channels);
    },
  )

  unfoldable pub send_request : String → String → Void (RedisBrokerConnector R P)
  send_request queue message k =
      (ok tt, record k { server = Queue.send_request lists queue message k.server })

  unfoldable pub listen : String → Void (RedisBrokerConnector R P)
  listen queue k =
      let (q, r) = Queue.listen lists queue k.queue k.server in
      (ok tt, record k { queue = q; server = r })

  unfoldable pub stop_listening : String → Void (RedisBrokerConnector R P)
  stop_listening queue k =
      let (q, r) = Queue.stop_listening lists queue k.queue k.server in
      (ok tt, record k { queue = q; server = r })

  unfoldable pub connector : IMessageBrokerConnector ConnectorCallback (RedisBrokerConnector R P)
  connector = record {
    set_on_subscriber_callback = set_on_subscriber_callback;
    set_on_queue_callback = set_on_queue_callback;
    publish = publish;
    subscribe = subscribe;
    unsubscribe = unsubscribe;
    send_request = send_request;
    listen = listen;
    stop_listening = stop_listening;
  }

  -- The lambda of the constructor that receives what is published; `invoke` calls a callback.
  module _ {W : Type 0} (invoke : ConnectorCallback → String → String → Void W) where
    unfoldable pub on_message : RedisBrokerConnector R P → String → String → Void W
    on_message k channel message =
        ite (String_discrete channel k.queue.technical_channel) (pure tt)
          (elim (k.on_subscribe_callback) [ none ↦ pure tt | some f ↦ invoke f channel message ])

    -- What m_queue_worker does with an element that `brpop` has taken from a queue.
    unfoldable pub on_request : RedisBrokerConnector R P → String → String → Void W
    on_request k queue message =
        ite (String_discrete queue k.queue.technical_channel) (pure tt)
          (elim (k.on_queue_callback) [ none ↦ pure tt | some f ↦ invoke f queue message ])
