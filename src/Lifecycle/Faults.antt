-- ===== src/Lifecycle/Faults.antt =====
-- A connector that throws while a transaction interface is created.
use oregano.Base.{ℕ, ◌≡◌, none, [], ◌∷◌, ◌++◌, ok, err, Exception, arith, for_each}
use oregano.Dict.{find, emplace, put}
use oregano.Interfaces.{IMessageBrokerConnector}
use oregano.Broker.{MessageBroker, Brokered, ConnectorCallback, as_broker}
use oregano.Broker
use oregano.Broker.Callbacks.{IsFresh, drop_id-append}
use oregano.Broker.Once.{subscribe_first, unsubscribe_last}
use oregano.Manager
use oregano.Manager.{
  announce, withdraw, contains, add_message_handler, remove_everywhere, without, sweep, push_new,
}
use oregano.Events
use oregano.Lifecycle.{
  Drawn, create_event, connect, connected, destroy_event, destroy_members, create_transaction,
}

module _ {K : Type 0} (c : IMessageBrokerConnector ConnectorCallback K) where
  -- The connector throws when the response channel is subscribed, and the removal of the channel
  -- returns: the exception goes on, the event callback and the count of the channel are taken back,
  -- and the transaction callback stays registered, with the address of an interface that is gone.
  pub create_throws :
      (d : Drawn) (w : Brokered ℕ K) {x : Exception} {k l : K}
      → IsFresh d.event_id w.broker.event_callbacks
      → find d.response_channel w.broker.channel_subscriptions ≡ none
      → c.subscribe d.response_channel w.connector ≡ (err x, k)
      → c.unsubscribe d.response_channel k ≡ (ok tt, l)
      → create_transaction (as_broker c) d w ≡ (
        err x,
        record {
          broker = record (w.broker) {
            transaction_callbacks = w.broker.transaction_callbacks ++ (d.id, d.address) ∷ [];
          };
          connector = l;
        },
      )
  unfolding create_transaction create_event connect connected Events.subscribe as_broker
      add_message_handler emplace find put push_new contains announce Manager.create
      Broker.register_event_callback Broker.register_transaction_callback destroy_members
      destroy_event Events.destroy remove_everywhere sweep without withdraw for_each
      Broker.remove_event_callback
  create_throws d w {x} {k} {l} n e p q = ground (
    arith,
    drop_id-append d.event_id d.event_address w.broker.event_callbacks n,
    subscribe_first c d.response_channel
        (record (w.broker) {
          event_callbacks = w.broker.event_callbacks ++ (d.event_id, d.event_address) ∷ [];
          transaction_callbacks = w.broker.transaction_callbacks ++ (d.id, d.address) ∷ [];
        })
        w.connector e,
    unsubscribe_last c d.response_channel
        (record (w.broker) {
          event_callbacks = w.broker.event_callbacks ++ (d.event_id, d.event_address) ∷ [];
          transaction_callbacks = w.broker.transaction_callbacks ++ (d.id, d.address) ∷ [];
        })
        k e,
  )
