-- ===== src/Broker.antt =====
-- src/implementation/MessageBroker.cpp and .h: subscriptions counted, so that the connector is
-- asked for the first and the last one only, and the callbacks that get every message. Each method
-- holds its lock throughout, so it is one step. `size_t` is a number below 2^64.
pub mod Counting
pub mod Sync
pub mod Contract
pub mod Callbacks
pub mod Once
pub mod Faults
mod Tests
use oregano.Base.{
  ℕ, ◌+◌, ◌-◌, ◌%◌, String, Option, get_or, List, [], ◌∷◌, ◌++◌, ite, String_discrete, Exception,
  ok, err, Exec, Void, pure, throw, for_each, ◌>>=◌, ◌>>◌, ◌==◌, if◌then◌else◌,
}
use oregano.Dict.{Dict, find, put, erase}
use oregano.Interfaces.{IMessageBroker, IMessageBrokerConnector}
use oregano.Interfaces.RefCounts.{size_mod}

pub record MessageBroker (C : Type 0) : Type 0 where
  pub channel_subscriptions : Dict ℕ
  pub queue_subscriptions : Dict ℕ
  pub event_callbacks : List (String × C)
  pub transaction_callbacks : List (String × C)

-- A broker beside the state of the connector that it owns.
pub record Brokered (C K : Type 0) : Type 0 where
  pub broker : MessageBroker C
  pub connector : K

abbrev pub second_listener : Exception
second_listener =
    Exception.runtime_error "Only one message handler should listen a given command channel!"

-- m[k], which the map answers by 0 where there is no entry
unfoldable pub count_at : String → Dict ℕ → ℕ
count_at k m = get_or (find k m) 0

-- m[k]++ and m[k]--
unfoldable pub increment : String → Dict ℕ → Dict ℕ
unfolding count_at
increment k m = put k ((count_at k m + 1) % size_mod) m

unfoldable pub decrement : String → Dict ℕ → Dict ℕ
unfolding count_at
decrement k m = put k ((count_at k m + size_mod - 1) % size_mod) m

-- remove_if on a list of callbacks
unfoldable pub drop_id : {C : Type 0} → String → List (String × C) → List (String × C)
drop_id id [] = []
drop_id id ((i, f) ∷ cs) = ite (String_discrete i id) (drop_id id cs) ((i, f) ∷ drop_id id cs)

abbrev pub on_connector : {C K A : Type 0} → Exec K A → Exec (Brokered C K) A
on_connector f w = let (r, k) = f w.connector in (r, record w { connector = k })

abbrev pub with_channels : {C K : Type 0} → Brokered C K → Dict ℕ → Brokered C K
with_channels w m = record w { broker = record (w.broker) { channel_subscriptions = m } }

abbrev pub with_queues : {C K : Type 0} → Brokered C K → Dict ℕ → Brokered C K
with_queues w m = record w { broker = record (w.broker) { queue_subscriptions = m } }

-- The two lambdas that the constructor hands to the connector.
pub data ConnectorCallback : Type 0 where
  call_event_callbacks : ConnectorCallback
  call_transaction_callbacks : ConnectorCallback

module _ {C K : Type 0} (c : IMessageBrokerConnector ConnectorCallback K) where
  unfoldable pub create : K → Brokered C K
  create k = record {
    broker = record {
      channel_subscriptions = [];
      queue_subscriptions = [];
      event_callbacks = [];
      transaction_callbacks = [];
    };
    connector =
        (c.set_on_queue_callback call_transaction_callbacks
          (c.set_on_subscriber_callback call_event_callbacks k).1).1;
  }

  unfoldable pub publish : String → String → Void (Brokered C K)
  publish channel message = on_connector (c.publish channel message)

  unfoldable pub subscribe : String → Void (Brokered C K)
  subscribe channel w =
      let subs = increment channel w.broker.channel_subscriptions in
      let counted = with_channels w subs in
      if count_at channel subs == 1
      then on_connector (c.subscribe channel) counted
      else (ok tt, counted)

  unfoldable pub unsubscribe : String → Void (Brokered C K)
  unsubscribe channel w =
      let subs = decrement channel w.broker.channel_subscriptions in
      if count_at channel subs == 0
      then on_connector (c.unsubscribe channel) (with_channels w (erase channel subs))
      else (ok tt, with_channels w subs)

  unfoldable pub send_request : String → String → Void (Brokered C K)
  send_request queue message = on_connector (c.send_request queue message)

  unfoldable pub listen : String → Void (Brokered C K)
  listen queue w =
      let subs = increment queue w.broker.queue_subscriptions in
      let counted = with_queues w subs in
      if count_at queue subs == 1
      then on_connector (c.listen queue) counted
      else (err second_listener, counted)

  unfoldable pub stop_listening : String → Void (Brokered C K)
  stop_listening queue w =
      let subs = decrement queue w.broker.queue_subscriptions in
      if count_at queue subs == 0
      then on_connector (c.stop_listening queue) (with_queues w (erase queue subs))
      else (ok tt, with_queues w subs)

-- `id` is what `sole::uuid4().base62()` draws.
module _ {C K : Type 0} where
  unfoldable pub register_event_callback : String → C → Exec (Brokered C K) String
  register_event_callback id callback w = (
    ok id,
    record w {
      broker = record (w.broker) {
        event_callbacks = w.broker.event_callbacks ++ (id, callback) ∷ [];
      };
    },
  )

  unfoldable pub remove_event_callback : String → Void (Brokered C K)
  unfolding drop_id
  remove_event_callback id w = (
    ok tt,
    record w {
      broker = record (w.broker) { event_callbacks = drop_id id w.broker.event_callbacks };
    },
  )

  unfoldable pub register_transaction_callback : String → C → Exec (Brokered C K) String
  register_transaction_callback id callback w = (
    ok id,
    record w {
      broker = record (w.broker) {
        transaction_callbacks = w.broker.transaction_callbacks ++ (id, callback) ∷ [];
      };
    },
  )

  unfoldable pub remove_transaction_callback : String → Void (Brokered C K)
  unfolding drop_id
  remove_transaction_callback id w = (
    ok tt,
    record w {
      broker = record (w.broker) {
        transaction_callbacks = drop_id id w.broker.transaction_callbacks;
      };
    },
  )

-- What the lambdas do with a message; `invoke` calls a callback.
module _ {C W : Type 0} (invoke : C → String → String → Void W) where
  unfoldable pub call_back : ConnectorCallback → MessageBroker C → String → String → Void W
  call_back call_event_callbacks m channel message =
      for_each (λ element. invoke element.1 channel message) m.event_callbacks
  call_back call_transaction_callbacks m channel message =
      for_each (λ element. invoke element.1 channel message) m.transaction_callbacks

-- The class as its clients see it.
unfoldable pub as_broker :
    {C K : Type 0} → IMessageBrokerConnector ConnectorCallback K → IMessageBroker C (Brokered C K)
as_broker c = record {
  publish = publish c;
  subscribe = subscribe c;
  unsubscribe = unsubscribe c;
  register_event_callback = register_event_callback;
  remove_event_callback = remove_event_callback;
  send_request = send_request c;
  listen = listen c;
  stop_listening = stop_listening c;
  register_transaction_callback = register_transaction_callback;
  remove_transaction_callback = remove_transaction_callback;
}
