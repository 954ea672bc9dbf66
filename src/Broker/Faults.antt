-- ===== src/Broker/Faults.antt =====
-- Calls that the counting does not survive: an `unsubscribe` with nothing to give up, and a `listen`
-- that is refused.
use oregano.Base.{ℕ, ◌+◌, ◌-◌, ◌%◌, String, ◌≡◌, arith, ok, err}
use oregano.Dict.{Dict}
use oregano.Dict.Laws.{find-put}
use oregano.Interfaces.{IMessageBrokerConnector}
use oregano.Interfaces.RefCounts.{size_mod}
use oregano.Broker.{
  Brokered, ConnectorCallback, count_at, increment, decrement, second_listener, subscribe,
  unsubscribe, listen, stop_listening,
}

pub count_at-increment_self :
    (t : String) (m : Dict ℕ) → count_at t (increment t m) ≡ (count_at t m + 1) % size_mod
unfolding count_at increment
count_at-increment_self t m = ground (arith, find-put t t ((count_at t m + 1) % size_mod) m)

count_at-decrement_self :
    (t : String) (m : Dict ℕ)
    → count_at t (decrement t m) ≡ (count_at t m + size_mod - 1) % size_mod
unfolding count_at decrement
count_at-decrement_self t m =
    ground (arith, find-put t t ((count_at t m + size_mod - 1) % size_mod) m)

module _ {C K : Type 0} (c : IMessageBrokerConnector ConnectorCallback K) (w : Brokered C K)
    (t : String) where
  open w.broker use {channel_subscriptions as channels, queue_subscriptions as queues}

  -- After an `unsubscribe` of a channel without a subscription, the next `subscribe` returns and
  -- never reaches the connector: the count has wrapped round to 2^64 - 1.
  pub unsubscribe_unmatched :
      count_at t channels ≡ 0
      → (count_at t (unsubscribe c t w).1.broker.channel_subscriptions ≡ size_mod - 1)
        × ((subscribe c t (unsubscribe c t w).1).0 ≡ ok tt)
        × ((subscribe c t (unsubscribe c t w).1).1.connector ≡ w.connector)
  unfolding subscribe unsubscribe
  unsubscribe_unmatched e =
      ground (
        arith,
        count_at-decrement_self t channels,
        count_at-increment_self t (decrement t channels),
      )

  -- A second `listen` throws and yet is counted: when the only listener stops, the connector is not
  -- told, and the next `listen` throws although nobody listens any more.
  pub listen_refused :
      count_at t queues ≡ 1
      → let refused = (listen c t w).1 in
        let stopped = (stop_listening c t refused).1 in
        ((listen c t w).0 ≡ err second_listener)
        × (stopped.connector ≡ w.connector)
        × ((listen c t stopped).0 ≡ err second_listener)
  unfolding listen stop_listening
  listen_refused e = ground (
    arith,
    count_at-increment_self t queues,
    count_at-decrement_self t (increment t queues),
    count_at-increment_self t (decrement t (increment t queues)),
  )
