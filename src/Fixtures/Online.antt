-- ===== src/Fixtures/Online.antt =====
-- Two processes on a server of Redis, to run transactions on.
use oregano.Base.{ℕ, String, Bool, false, [], ◌∷◌}
use oregano.Broker.{call_event_callbacks, call_transaction_callbacks}
use oregano.Connector.Memory.{Memory, memory, flags, nothing}
use oregano.Connector.Methods.{
  RedisBrokerConnector, set_on_subscriber_callback, set_on_queue_callback,
}
use oregano.Connector.Methods
use oregano.Connector.Requested.{Process}
use oregano.Manager.{MessageHandlerManager, SubscriptionType, event, transaction}
use oregano.Requester.{Requesting}

-- a connector with the callbacks of a broker
abbrev pub online : RedisBrokerConnector Memory (String → Bool)
online =
    (set_on_queue_callback memory flags call_transaction_callbacks
      (set_on_subscriber_callback memory flags call_event_callbacks
        (Methods.create memory flags "technical" nothing (λ j. false))).1).1

abbrev pub listening_on : SubscriptionType → String → ℕ → MessageHandlerManager
listening_on t c h = record { subscription_type = t; channel_subscriptions = (c, h ∷ []) ∷ [] }

-- a process that has one interface, and waits for responses
abbrev pub asking : Requesting (Process Memory (String → Bool))
asking = record {
  transaction = record { response_channel = "responses"; on_response_callbacks = [] };
  broker = record {
    broker = record {
      channel_subscriptions = ("responses", 1) ∷ [];
      queue_subscriptions = [];
      event_callbacks = ("b", listening_on event "responses" 9) ∷ [];
      transaction_callbacks = [];
    };
    connector = online;
  };
}

-- a process with one handler of requests
abbrev pub answering : String → Process Memory (String → Bool)
answering queue = record {
  broker = record {
    channel_subscriptions = [];
    queue_subscriptions = (queue, 1) ∷ [];
    event_callbacks = [];
    transaction_callbacks = ("c", listening_on transaction queue 4) ∷ [];
  };
  connector = online;
}
