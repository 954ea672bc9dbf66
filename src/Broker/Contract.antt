-- ===== src/Broker/Contract.antt =====
-- The broker as its clients rely on it: Interfaces/RefCounts over the counts of the broker.
use oregano.Base.{String, ◌≡◌, false, ap}
use oregano.Interfaces.{IMessageBrokerConnector}
use oregano.Interfaces.RefCounts.{RefCounts}
use oregano.Interfaces.Topics.{Topics}
use oregano.Broker.{Brokered, ConnectorCallback, count_at, create, as_broker}
use oregano.Broker.Counting.{
  IsValid, create-IsValid, subscribe_counts, unsubscribe_counts, listen_counts,
  stop_listening_counts, unsubscribe_returns, stop_listening_returns, subscribe-maps,
  unsubscribe-maps, listen-maps, stop_listening-maps,
}
use oregano.Broker.Sync.{
  Operation, subscribes, unsubscribes, listens, stops, IsAllowed, IsInSync, operate,
  operate-IsValid, operate-IsInSync, create-IsInSync,
}

-- The broker's whole invariant, and its contract with its clients.
module _ {C K : Type 0} (c : IMessageBrokerConnector ConnectorCallback K) (l : Topics c) where
  pub record IsSound (w : Brokered C K) : Type 0 where
    pub valid : IsValid w.broker
    pub synced : IsInSync c l w

  pub operate-IsSound :
      (w : Brokered C K) (o : Operation)
      → IsSound w
      → IsAllowed w.broker o
      → IsSound (operate c l o w).1
  operate-IsSound w o s a = record {
    valid = operate-IsValid c l w o s.valid;
    synced = operate-IsInSync c l w o s.valid a s.synced;
  }

  pub create-IsSound :
      (k : K)
      → ((j : String) → l.IsTopic j → l.subscribed (create {C = C} c k).connector j ≡ false)
      → ((j : String) → l.IsTopic j → l.listened (create {C = C} c k).connector j ≡ false)
      → IsSound (create {C = C} c k)
  create-IsSound k p q = record { valid = create-IsValid c k; synced = create-IsInSync c l k p q }

  -- The broker counts the subscriptions of its clients as they rely on it.
  unfoldable pub contract : RefCounts (as_broker {C = C} c)
  unfolding as_broker operate
  contract = record {
    IsValid = IsSound;
    channels = λ w j. count_at j w.broker.channel_subscriptions;
    queues = λ w j. count_at j w.broker.queue_subscriptions;
    subscribe_counts = λ t w s room j. subscribe_counts c t w room j;
    unsubscribe_counts = λ t w s pos j. unsubscribe_counts c t w s.valid pos j;
    listen_counts = λ t w s room j. listen_counts c t w room j;
    stop_listening_counts = λ t w s pos j. stop_listening_counts c t w s.valid pos j;
    unsubscribe_returns = unsubscribe_returns c l;
    stop_listening_returns = stop_listening_returns c l;
    subscribe_queues = λ t w j. ap (λ m. count_at j m.queue_subscriptions) (subscribe-maps c t w);
    unsubscribe_queues =
        λ t w j. ap (λ m. count_at j m.queue_subscriptions) (unsubscribe-maps c t w);
    listen_channels = λ t w j. ap (λ m. count_at j m.channel_subscriptions) (listen-maps c t w);
    stop_listening_channels =
        λ t w j. ap (λ m. count_at j m.channel_subscriptions) (stop_listening-maps c t w);
    subscribe-IsValid = λ t w s a. operate-IsSound w (subscribes t) s a;
    unsubscribe-IsValid = λ t w s a. operate-IsSound w (unsubscribes t) s a;
    listen-IsValid = λ t w s a. operate-IsSound w (listens t) s a;
    stop_listening-IsValid = λ t w s a. operate-IsSound w (stops t) s a;
  }
