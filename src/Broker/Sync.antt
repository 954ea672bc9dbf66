-- ===== src/Broker/Sync.antt =====
-- The counts of the broker against the topics of its connector.
use oregano.Base.{◌+◌, ◌≤◌, ◌<◌, String, ◌≡◌, false, not, ◌∙◌, Void, arith, ◌==◌}
use oregano.Interfaces.{IMessageBrokerConnector}
use oregano.Interfaces.RefCounts.{size_mod}
use oregano.Interfaces.Topics.{Topics}
use oregano.Broker.{
  MessageBroker, Brokered, ConnectorCallback, count_at, increment, subscribe, unsubscribe, listen,
  stop_listening, create,
}
use oregano.Dict.{find}
use oregano.Broker.Counting.{
  IsValid, create-IsValid, subscribe-IsValid, unsubscribe-IsValid, listen-IsValid,
  stop_listening-IsValid, subscribe-maps, unsubscribe-maps, listen-maps, stop_listening-maps,
  count_at-increment, count_at-decrement, released, count_at-released,
}

-- The operations that a client may call: none without a subscription to give up, and none that
-- would overflow a `size_t`.
pub data Operation : Type 0 where
  subscribes : String → Operation
  unsubscribes : String → Operation
  listens : String → Operation
  stops : String → Operation

abbrev pub IsAllowed : {C : Type 0} → MessageBroker C → Operation → Type 0
IsAllowed m (subscribes t) = count_at t m.channel_subscriptions + 1 < size_mod
IsAllowed m (unsubscribes t) = 1 ≤ count_at t m.channel_subscriptions
IsAllowed m (listens t) = count_at t m.queue_subscriptions + 1 < size_mod
IsAllowed m (stops t) = 1 ≤ count_at t m.queue_subscriptions

module _ {C K : Type 0} (c : IMessageBrokerConnector ConnectorCallback K) (l : Topics c) where
  pub record IsInSync (w : Brokered C K) : Type 0 where
    pub channels :
        (j : String)
        → l.IsTopic j
        → l.subscribed w.connector j ≡ not (count_at j w.broker.channel_subscriptions == 0)
    pub queues :
        (j : String)
        → l.IsTopic j
        → l.listened w.connector j ≡ not (count_at j w.broker.queue_subscriptions == 0)

  module _ (w : Brokered C K) (u : IsValid w.broker) (y : IsInSync w) (t : String) where
    open w.broker use {channel_subscriptions as channels, queue_subscriptions as queues}

    subscribe_channels :
        (j : String)
        → l.IsTopic j
        → count_at t channels + 1 < size_mod
        → l.subscribed (subscribe c t w).1.connector j
          ≡ not (count_at j (increment t channels) == 0)
    unfolding subscribe
    subscribe_channels j h room = ground (
      arith,
      l.subscribe_topics t w.connector j,
      y.channels j h,
      count_at-increment t channels room j,
      count_at-increment t channels room t,
    )

    unsubscribe_channels :
        (j : String)
        → l.IsTopic j
        → 1 ≤ count_at t channels
        → l.subscribed (unsubscribe c t w).1.connector j
          ≡ not (count_at j (released t channels) == 0)
    unfolding unsubscribe
    unsubscribe_channels j h pos = ground (
      arith,
      l.unsubscribe_topics t w.connector j,
      y.channels j h,
      count_at-released t channels u.channels pos j,
      count_at-decrement t channels pos (u.channels.small t) j,
      count_at-decrement t channels pos (u.channels.small t) t,
    )

    listen_queues :
        (j : String)
        → l.IsTopic j
        → count_at t queues + 1 < size_mod
        → l.listened (listen c t w).1.connector j ≡ not (count_at j (increment t queues) == 0)
    unfolding listen
    listen_queues j h room = ground (
      arith,
      l.listen_topics t w.connector j,
      y.queues j h,
      count_at-increment t queues room j,
      count_at-increment t queues room t,
    )

    stop_listening_queues :
        (j : String)
        → l.IsTopic j
        → 1 ≤ count_at t queues
        → l.listened (stop_listening c t w).1.connector j
          ≡ not (count_at j (released t queues) == 0)
    unfolding stop_listening
    stop_listening_queues j h pos = ground (
      arith,
      l.stop_listening_topics t w.connector j,
      y.queues j h,
      count_at-released t queues u.queues pos j,
      count_at-decrement t queues pos (u.queues.small t) j,
      count_at-decrement t queues pos (u.queues.small t) t,
    )

    other_topics :
        (j : String)
        → l.IsTopic j
        → (l.listened (subscribe c t w).1.connector j ≡ l.listened w.connector j)
          × (l.listened (unsubscribe c t w).1.connector j ≡ l.listened w.connector j)
          × (l.subscribed (listen c t w).1.connector j ≡ l.subscribed w.connector j)
          × (l.subscribed (stop_listening c t w).1.connector j ≡ l.subscribed w.connector j)
    unfolding subscribe unsubscribe listen stop_listening
    other_topics j h = ground (
      arith,
      l.subscribe_listened t w.connector j,
      l.unsubscribe_listened t w.connector j,
      l.listen_subscribed t w.connector j,
      l.stop_listening_subscribed t w.connector j,
    )

  unfoldable pub operate : Operation → Void (Brokered C K)
  operate (subscribes t) = subscribe c t
  operate (unsubscribes t) = unsubscribe c t
  operate (listens t) = listen c t
  operate (stops t) = stop_listening c t

  pub operate-IsValid :
      (w : Brokered C K) (o : Operation) → IsValid w.broker → IsValid (operate o w).1.broker
  unfolding operate
  operate-IsValid w (subscribes t) u = subscribe-IsValid c t w u
  operate-IsValid w (unsubscribes t) u = unsubscribe-IsValid c t w u
  operate-IsValid w (listens t) u = listen-IsValid c t w u
  operate-IsValid w (stops t) u = stop_listening-IsValid c t w u

  -- One allowed operation keeps the connector in step with the counts, also when it throws.
  pub operate-IsInSync :
      (w : Brokered C K) (o : Operation)
      → IsValid w.broker
      → IsAllowed w.broker o
      → IsInSync w
      → IsInSync (operate o w).1
  unfolding operate
  operate-IsInSync w (subscribes t) u a y = record {
    channels = λ j h. rw subscribe-maps (subscribe_channels w u y t j h a);
    queues = λ j h. rw subscribe-maps ((other_topics w u y t j h).0 ∙ y.queues j h);
  }
  operate-IsInSync w (unsubscribes t) u a y = record {
    channels = λ j h. rw unsubscribe-maps (unsubscribe_channels w u y t j h a);
    queues = λ j h. rw unsubscribe-maps ((other_topics w u y t j h).1 ∙ y.queues j h);
  }
  operate-IsInSync w (listens t) u a y = record {
    channels = λ j h. rw listen-maps ((other_topics w u y t j h).2 ∙ y.channels j h);
    queues = λ j h. rw listen-maps (listen_queues w u y t j h a);
  }
  operate-IsInSync w (stops t) u a y = record {
    channels = λ j h. rw stop_listening-maps ((other_topics w u y t j h).3 ∙ y.channels j h);
    queues = λ j h. rw stop_listening-maps (stop_listening_queues w u y t j h a);
  }

  -- The states after allowed operations on a new broker.
  pub data Reach (k : K) : Brokered C K → Type 0 where
    start : Reach k (create c k)
    later :
        {w : Brokered C K} (o : Operation)
        → Reach k w
        → IsAllowed w.broker o
        → Reach k (operate o w).1

  Reach-IsValid : {k : K} {w : Brokered C K} → Reach k w → IsValid w.broker
  Reach-IsValid {k} start = create-IsValid c k
  Reach-IsValid (later {w = v} o r a) = operate-IsValid v o (Reach-IsValid r)

  Reach-IsInSync : {k : K} {w : Brokered C K} → IsInSync (create c k) → Reach k w → IsInSync w
  Reach-IsInSync y start = y
  Reach-IsInSync y (later {w = v} o r a) =
      operate-IsInSync v o (Reach-IsValid r) a (Reach-IsInSync y r)

  pub create-IsInSync :
      (k : K)
      → ((j : String) → l.IsTopic j → l.subscribed (create {C = C} c k).connector j ≡ false)
      → ((j : String) → l.IsTopic j → l.listened (create {C = C} c k).connector j ≡ false)
      → IsInSync (create c k)
  unfolding create count_at find
  create-IsInSync k p q = record { channels = p; queues = q }

  -- Over a connector that starts with no topic: after any allowed operations, and of the names
  -- that are topics, the connector is subscribed to just the channels whose count is not 0, and
  -- listens to just such queues.
  pub operations_topics :
      (k : K)
      → ((j : String) → l.IsTopic j → l.subscribed (create {C = C} c k).connector j ≡ false)
      → ((j : String) → l.IsTopic j → l.listened (create {C = C} c k).connector j ≡ false)
      → {w : Brokered C K} → Reach k w
      → (j : String) → l.IsTopic j
      → (l.subscribed w.connector j ≡ not (count_at j w.broker.channel_subscriptions == 0))
        × (l.listened w.connector j ≡ not (count_at j w.broker.queue_subscriptions == 0))
  operations_topics k p q r j h =
      let y = Reach-IsInSync (create-IsInSync k p q) r in (y.channels j h, y.queues j h)
