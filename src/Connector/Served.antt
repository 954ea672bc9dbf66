-- ===== src/Connector/Served.antt =====
-- The whole of the layers on Redis: managers on the broker, the broker on this connector.
use oregano.Base.{
  ℕ, ◌+◌, ◌<◌, String, ◌≡◌, ◌≢◌, ◌∙◌, sym, false, not, List, if_neg, String_discrete, All, length,
  map, ◌==◌,
}
use oregano.Broker.{Brokered, as_broker}
use oregano.Broker
use oregano.Connector.Methods.{
  RedisBrokerConnector, create, connector, set_on_subscriber_callback, set_on_queue_callback,
}
use oregano.Connector.Covered.{topics}
use oregano.Connector.Queue
use oregano.Connector.Queue.Listed.{is_in}
use oregano.Connector.Redis.{RedisLists, RedisChannels}
use oregano.Interfaces.RefCounts.{size_mod}
use oregano.Manager
use oregano.Manager.{SubscriptionType, event, transaction}
use oregano.Manager.References.{IsNamed}
use oregano.Manager.Requests.{Request}
use oregano.Sharing.{Shared, run_all}
use oregano.Sharing.Counts.{total}
use oregano.Sharing.Topics.{opened, run_all_topics}

module _ (C : Type 0) {R P : Type 0} (lists : RedisLists R) (pubsub : RedisChannels P)
    (technical_channel : String) (server : R) (channels : P) where
  -- New interfaces on a new broker, on a new connector.
  abbrev pub deployed : List SubscriptionType → Shared (Brokered C (RedisBrokerConnector R P))
  deployed ts =
      opened (connector lists pubsub) (topics lists pubsub technical_channel) ts
        (create lists pubsub technical_channel server channels)

  new_channels :
      ((j : String) → pubsub.subscribed channels j ≡ false)
      → (j : String) → j ≢ technical_channel
      → pubsub.subscribed
          (Broker.create {C = C}
            (connector lists pubsub)
            (create lists pubsub technical_channel server channels)).connector.channels
          j
        ≡ false
  unfolding Broker.create connector create set_on_subscriber_callback set_on_queue_callback
  new_channels fresh j n =
      pubsub.subscribed-subscribe technical_channel channels j
      ∙ if_neg (String_discrete technical_channel j) (λ e. n (sym e)) _ _
      ∙ fresh j

  new_queues :
      (j : String)
      → j ≢ technical_channel
      → is_in j
          (Broker.create {C = C} (connector lists pubsub) (
            create lists pubsub technical_channel server
              channels)).connector.queue.queue_subscriptions
        ≡ false
  unfolding Broker.create connector create set_on_subscriber_callback set_on_queue_callback
      Queue.create
  new_queues j n = if_neg (String_discrete technical_channel j) (λ e. n (sym e)) _ _

  -- After any calls of the managers of new interfaces, over the connection to Redis: the connection
  -- is subscribed to a channel, other than the technical one, if some event manager has an entry
  -- for it, and only then; and so for the queues of the worker and the transaction managers.
  pub deployed_topics :
      (ts : List SubscriptionType) (rs : List (ℕ × Request))
      → All IsNamed ts
      → length (map Manager.create ts) + 1 < size_mod
      → ((j : String) → pubsub.subscribed channels j ≡ false)
      → (j : String) → j ≢ technical_channel
      → let after = run_all (as_broker {C = C} (connector lists pubsub)) rs (deployed ts) in
        (pubsub.subscribed after.broker.connector.channels j
          ≡ not (total event after.managers j == 0))
        × (is_in j after.broker.connector.queue.queue_subscriptions
            ≡ not (total transaction after.managers j == 0))
  unfolding topics
  deployed_topics ts rs named few fresh j n =
      run_all_topics C (connector lists pubsub) (topics lists pubsub technical_channel) ts
        (create lists pubsub technical_channel server channels) rs named few (new_channels fresh)
        new_queues j n
