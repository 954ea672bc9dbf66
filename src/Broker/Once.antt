-- ===== src/Broker/Once.antt =====
-- The first subscription of a channel, and the removal of its only one.
use oregano.Base.{String, ◌≡◌, none, arith}
use oregano.Dict.{find, put}
use oregano.Dict.Laws.{find-put, put-put, erase-put}
use oregano.Interfaces.{IMessageBrokerConnector}
use oregano.Broker.{
  MessageBroker, Brokered, ConnectorCallback, count_at, increment, decrement, on_connector,
}
use oregano.Broker

-- a broker that counts one subscription of a channel
abbrev pub counting_one : {C : Type 0} → String → MessageBroker C → MessageBroker C
counting_one channel b = record b { channel_subscriptions = put channel 1 b.channel_subscriptions }

module _ {C K : Type 0} (c : IMessageBrokerConnector ConnectorCallback K) where
  pub subscribe_first :
      (channel : String) (b : MessageBroker C) (k : K)
      → find channel b.channel_subscriptions ≡ none
      → Broker.subscribe c channel (record { broker = b; connector = k })
        ≡ on_connector
            (c.subscribe channel)
            (record { broker = counting_one channel b; connector = k })
  unfolding Broker.subscribe increment count_at
  subscribe_first channel b k e = ground (arith, find-put channel channel 1 b.channel_subscriptions)

  pub unsubscribe_last :
      (channel : String) (b : MessageBroker C) (k : K)
      → find channel b.channel_subscriptions ≡ none
      → Broker.unsubscribe c channel (record { broker = counting_one channel b; connector = k })
        ≡ on_connector (c.unsubscribe channel) (record { broker = b; connector = k })
  unfolding Broker.unsubscribe decrement count_at
  unsubscribe_last channel b k e = ground (
    arith,
    find-put channel channel 1 b.channel_subscriptions,
    find-put channel channel 0 b.channel_subscriptions,
    put-put channel 1 0 b.channel_subscriptions,
    erase-put channel 0 b.channel_subscriptions,
  )
