-- ===== src/Lifecycle/Reopening.antt =====
-- A transaction interface that is created and destroyed again.
use oregano.Base.{ℕ, ◌≡◌, none, [], ◌∷◌, ◌++◌, ok, arith, for_each, ◌>>=◌}
use oregano.Dict.{find, emplace, put}
use oregano.Interfaces.{IMessageBrokerConnector}
use oregano.Interfaces.Topics.{Topics}
use oregano.Broker.{MessageBroker, Brokered, ConnectorCallback, as_broker}
use oregano.Broker
use oregano.Broker.Callbacks.{IsFresh, drop_id-append}
use oregano.Broker.Once.{counting_one, subscribe_first, unsubscribe_last}
use oregano.Manager
use oregano.Manager.{
  event, transaction, announce, withdraw, contains, add_message_handler, remove_everywhere, without,
  sweep, push_new,
}
use oregano.Events
use oregano.Lifecycle.{
  Drawn, Transactions, create_event, connect, connected, destroy_event, destroy_members,
  create_transaction, destroy_transaction,
}

-- the interface that stands when nothing was thrown
abbrev pub transactions : Drawn → Transactions
transactions d = record {
  address = d.address;
  manager = Manager.create transaction;
  event_interface = record {
    address = d.event_address;
    manager = record {
      subscription_type = event;
      channel_subscriptions = (d.response_channel, d.subscriber ∷ []) ∷ [];
    };
    callback_register_id = d.event_id;
  };
  callback_register_id = d.id;
  subscriber = d.subscriber;
  responses = record { response_channel = d.response_channel; on_response_callbacks = [] };
}

-- a broker with the two callbacks of a transaction interface
abbrev pub with_callbacks : Drawn → MessageBroker ℕ → MessageBroker ℕ
with_callbacks d b = record b {
  event_callbacks = b.event_callbacks ++ (d.event_id, d.event_address) ∷ [];
  transaction_callbacks = b.transaction_callbacks ++ (d.id, d.address) ∷ [];
}

module _ {K : Type 0} (c : IMessageBrokerConnector ConnectorCallback K) (l : Topics c) where
  pub create_lem :
      (d : Drawn) (b : MessageBroker ℕ) (k : K)
      → find d.response_channel b.channel_subscriptions ≡ none
      → create_transaction (as_broker c) d (record { broker = b; connector = k }) ≡ (
        ok (transactions d),
        record {
          broker = counting_one d.response_channel (with_callbacks d b);
          connector = (c.subscribe d.response_channel k).1;
        },
      )
  unfolding create_transaction create_event connect connected Events.subscribe as_broker
      add_message_handler emplace find put push_new contains announce Manager.create
      Broker.register_event_callback Broker.register_transaction_callback
  create_lem d b k e =
      rw (subscribe_first c d.response_channel (with_callbacks d b) k e)
        (ground (arith, l.subscribe_returns d.response_channel k))

  destroy_lem :
      (d : Drawn) (b : MessageBroker ℕ) (k : K)
      → IsFresh d.event_id b.event_callbacks
      → IsFresh d.id b.transaction_callbacks
      → find d.response_channel b.channel_subscriptions ≡ none
      → destroy_transaction
          (as_broker c)
          (transactions d)
          (record { broker = counting_one d.response_channel (with_callbacks d b); connector = k })
        ≡ (ok tt, record { broker = b; connector = (c.unsubscribe d.response_channel k).1 })
  unfolding destroy_transaction destroy_members destroy_event Events.destroy as_broker
      remove_everywhere sweep without withdraw for_each Broker.remove_event_callback
      Broker.remove_transaction_callback
  destroy_lem d b k n m e = ground (
    arith,
    drop_id-append d.event_id d.event_address b.event_callbacks n,
    drop_id-append d.id d.address b.transaction_callbacks m,
    unsubscribe_last c d.response_channel
        (record b { event_callbacks = b.event_callbacks ++ (d.event_id, d.event_address) ∷ [] }) k
        e,
    l.unsubscribe_returns d.response_channel k,
  )

  -- A transaction interface whose two callback ids and response channel are new to the broker is
  -- created without an exception, and its destruction takes everything back: no exception, and a
  -- broker as it was before, whose connector has seen one `subscribe` and one `unsubscribe` of the
  -- response channel.
  pub reopening :
      (d : Drawn) (w : Brokered ℕ K)
      → IsFresh d.event_id w.broker.event_callbacks
      → IsFresh d.id w.broker.transaction_callbacks
      → find d.response_channel w.broker.channel_subscriptions ≡ none
      → (create_transaction (as_broker c) d >>= destroy_transaction (as_broker c)) w ≡ (
        ok tt,
        record w {
          connector =
              (c.unsubscribe d.response_channel (c.subscribe d.response_channel w.connector).1).1;
        },
      )
  reopening d w n m e =
      rw (create_lem d w.broker w.connector e)
        (destroy_lem d w.broker (c.subscribe d.response_channel w.connector).1 n m e)
