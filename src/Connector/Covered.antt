-- ===== src/Connector/Covered.antt =====
-- The connector as the broker relies on it: Interfaces/Topics over the channels and the queues.
use oregano.Base.{String, ◌≢◌, ◌∙◌, refl}
use oregano.Interfaces.Topics.{Topics}
use oregano.Connector.Redis.{RedisLists, RedisChannels}
use oregano.Connector.Queue.{QueueState}
use oregano.Connector.Queue
use oregano.Connector.Queue.Listed.{is_in, listen-stop_listening}
use oregano.Connector.Methods.{
  connector, subscribe, unsubscribe, listen, stop_listening, notify_event_subscription_change,
}

module _ {R P : Type 0} (lists : RedisLists R) (pubsub : RedisChannels P) where
  -- The channels and queues of the connector, without the technical channel.
  unfoldable pub topics : String → Topics (connector lists pubsub)
  unfolding connector subscribe unsubscribe listen stop_listening notify_event_subscription_change
      Queue.listen Queue.stop_listening
  topics technical_channel = record {
    IsTopic = λ j. j ≢ technical_channel;
    subscribed = λ k. pubsub.subscribed k.channels;
    listened = λ k j. is_in j k.queue.queue_subscriptions;
    subscribe_topics =
        λ t k j h. pubsub.subscribed-publish _ _ _ j ∙ pubsub.subscribed-subscribe t k.channels j;
    unsubscribe_topics =
        λ t k j h. pubsub.subscribed-publish _ _ _ j ∙ pubsub.subscribed-unsubscribe t k.channels j;
    listen_topics = λ t k j h. (listen-stop_listening lists t j k.queue k.server).0;
    stop_listening_topics = λ t k j h. (listen-stop_listening lists t j k.queue k.server).1;
    subscribe_listened = λ t k j h. refl;
    unsubscribe_listened = λ t k j h. refl;
    listen_subscribed = λ t k j h. refl;
    stop_listening_subscribed = λ t k j h. refl;
    subscribe_returns = λ t k. refl;
    unsubscribe_returns = λ t k. refl;
    listen_returns = λ t k. refl;
    stop_listening_returns = λ t k. refl;
  }
