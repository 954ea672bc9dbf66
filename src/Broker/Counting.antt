-- ===== src/Broker/Counting.antt =====
-- The counts of the broker, operation by operation.
use oregano.Base.{ℕ, ◌+◌, ◌-◌, ◌%◌, ◌≤◌, ◌<◌, String, ◌≡◌, arith, ok, ◌==◌, if◌then◌else◌}
use oregano.Dict.{Dict, find, erase, IsMap}
use oregano.Dict.Laws.{find-put, find-erase, put-IsMap, erase-IsMap}
use oregano.Interfaces.{IMessageBrokerConnector}
use oregano.Interfaces.RefCounts.{one_at, size_mod}
use oregano.Interfaces.Topics.{Topics}
use oregano.Broker.{
  MessageBroker, Brokered, ConnectorCallback, count_at, increment, decrement, subscribe,
  unsubscribe, listen, stop_listening, create,
}

pub count_at-increment :
    (c : String) (m : Dict ℕ)
    → count_at c m + 1 < size_mod
    → (j : String) → count_at j (increment c m) ≡ count_at j m + one_at c j
unfolding count_at increment
count_at-increment c m room j = ground (arith, find-put j c ((count_at c m + 1) % size_mod) m)

pub count_at-decrement :
    (c : String) (m : Dict ℕ)
    → 1 ≤ count_at c m
    → count_at c m < size_mod
    → (j : String) → count_at j (decrement c m) + one_at c j ≡ count_at j m
unfolding count_at decrement
count_at-decrement c m pos small j =
    ground (arith, find-put j c ((count_at c m + size_mod - 1) % size_mod) m)

-- What holds of the counts at every moment.
pub record IsCount (m : Dict ℕ) : Type 0 where
  pub keys : IsMap m
  pub small : (j : String) → count_at j m < size_mod

-- The branch of `unsubscribe` and of `stop_listening` that forgets a count of 0.
abbrev pub released : String → Dict ℕ → Dict ℕ
released c m = if count_at c (decrement c m) == 0 then erase c (decrement c m) else decrement c m

decrement-IsMap : (c : String) (m : Dict ℕ) → IsMap m → IsMap (decrement c m)
unfolding decrement
decrement-IsMap c m u = put-IsMap c _ m u

pub count_at-erase :
    (c j : String) (m : Dict ℕ)
    → IsCount m
    → count_at c (decrement c m) ≡ 0
    → count_at j (erase c (decrement c m)) ≡ count_at j (decrement c m)
unfolding count_at
count_at-erase c j m u e =
    ground (arith, find-erase j c (decrement c m) (decrement-IsMap c m u.keys))

pub count_at-released :
    (c : String) (m : Dict ℕ)
    → IsCount m
    → 1 ≤ count_at c m
    → (j : String) → count_at j (released c m) + one_at c j ≡ count_at j m
count_at-released c m u pos j =
    ground (arith, count_at-decrement c m pos (u.small c) j, count_at-erase c j m u)

increment-IsCount : (c : String) (m : Dict ℕ) → IsCount m → IsCount (increment c m)
unfolding count_at increment
increment-IsCount c m u = record {
  keys = put-IsMap c _ m u.keys;
  small = λ j. ground (arith, find-put j c ((count_at c m + 1) % size_mod) m, u.small j);
}

released-IsCount : (c : String) (m : Dict ℕ) → IsCount m → IsCount (released c m)
unfolding count_at decrement
released-IsCount c m u = record {
  keys = ground (
    arith,
    erase-IsMap c (decrement c m) (decrement-IsMap c m u.keys),
    decrement-IsMap c m u.keys,
  );
  small = λ j. ground (
    arith,
    find-erase j c (decrement c m) (decrement-IsMap c m u.keys),
    find-put j c ((count_at c m + size_mod - 1) % size_mod) m,
    u.small j,
  );
}

-- What holds of a broker at every moment.
pub record IsValid {C : Type 0} (m : MessageBroker C) : Type 0 where
  pub channels : IsCount m.channel_subscriptions
  pub queues : IsCount m.queue_subscriptions

module _ {C K : Type 0} (c : IMessageBrokerConnector ConnectorCallback K) where
  pub create-IsValid : (k : K) → IsValid (create {C = C} c k).broker
  unfolding create count_at find
  create-IsValid k = record {
    channels = record { keys = tt; small = λ j. omega arith };
    queues = record { keys = tt; small = λ j. omega arith };
  }

  module _ (t : String) (w : Brokered C K) where
    open w.broker use {channel_subscriptions as channels, queue_subscriptions as queues}

    -- What each method makes of the two maps, on all its branches.
    pub subscribe-maps :
        (subscribe c t w).1.broker
        ≡ record (w.broker) { channel_subscriptions = increment t channels }
    unfolding subscribe
    subscribe-maps = ground arith

    pub unsubscribe-maps :
        (unsubscribe c t w).1.broker
        ≡ record (w.broker) { channel_subscriptions = released t channels }
    unfolding unsubscribe
    unsubscribe-maps = ground arith

    pub listen-maps :
        (listen c t w).1.broker ≡ record (w.broker) { queue_subscriptions = increment t queues }
    unfolding listen
    listen-maps = ground arith

    pub stop_listening-maps :
        (stop_listening c t w).1.broker
        ≡ record (w.broker) { queue_subscriptions = released t queues }
    unfolding stop_listening
    stop_listening-maps = ground arith

    pub subscribe_counts :
        count_at t channels + 1 < size_mod
        → (j : String)
        → count_at j (subscribe c t w).1.broker.channel_subscriptions
          ≡ count_at j channels + one_at t j
    subscribe_counts room j = rw subscribe-maps (count_at-increment t channels room j)

    pub listen_counts :
        count_at t queues + 1 < size_mod
        → (j : String)
        → count_at j (listen c t w).1.broker.queue_subscriptions ≡ count_at j queues + one_at t j
    listen_counts room j = rw listen-maps (count_at-increment t queues room j)

    module _ (u : IsValid w.broker) where
      pub unsubscribe_counts :
          1 ≤ count_at t channels
          → (j : String)
          → count_at j (unsubscribe c t w).1.broker.channel_subscriptions + one_at t j
            ≡ count_at j channels
      unsubscribe_counts pos j = rw unsubscribe-maps (count_at-released t channels u.channels pos j)

      pub stop_listening_counts :
          1 ≤ count_at t queues
          → (j : String)
          → count_at j (stop_listening c t w).1.broker.queue_subscriptions + one_at t j
            ≡ count_at j queues
      stop_listening_counts pos j =
          rw stop_listening-maps (count_at-released t queues u.queues pos j)

      pub subscribe-IsValid : IsValid (subscribe c t w).1.broker
      subscribe-IsValid =
          rw subscribe-maps
            (record { channels = increment-IsCount t channels u.channels; queues = u.queues })

      pub unsubscribe-IsValid : IsValid (unsubscribe c t w).1.broker
      unsubscribe-IsValid =
          rw unsubscribe-maps
            (record { channels = released-IsCount t channels u.channels; queues = u.queues })

      pub listen-IsValid : IsValid (listen c t w).1.broker
      listen-IsValid =
          rw listen-maps
            (record { channels = u.channels; queues = increment-IsCount t queues u.queues })

      pub stop_listening-IsValid : IsValid (stop_listening c t w).1.broker
      stop_listening-IsValid =
          rw stop_listening-maps
            (record { channels = u.channels; queues = released-IsCount t queues u.queues })

module _ {C K : Type 0} (c : IMessageBrokerConnector ConnectorCallback K) (l : Topics c) where
  pub unsubscribe_returns : (t : String) (w : Brokered C K) → (unsubscribe c t w).0 ≡ ok tt
  unfolding unsubscribe
  unsubscribe_returns t w = ground (arith, l.unsubscribe_returns t w.connector)

  pub stop_listening_returns : (t : String) (w : Brokered C K) → (stop_listening c t w).0 ≡ ok tt
  unfolding stop_listening
  stop_listening_returns t w = ground (arith, l.stop_listening_returns t w.connector)
