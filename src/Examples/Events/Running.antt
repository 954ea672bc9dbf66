-- ===== src/Examples/Events/Running.antt =====
-- The subscriber in its last loop: its objects, and what they do with a message.
use oregano.Base.{
  ℕ, String, ◌≡◌, ◌≢◌, refl, ◌∙◌, ap, and_then, and_then-ok, true, [], ◌∷◌, Result, ok, Void,
  if_neg, if_pos, ℕ_discrete, String_discrete, for_each, pure, some,
}
use oregano.Broker.{
  Brokered, as_broker, call_back, call_event_callbacks, call_transaction_callbacks,
}
use oregano.Broker
use oregano.Connector.Methods.{RedisBrokerConnector, connector, on_message}
use oregano.Connector.Methods
use oregano.Connector.Redis.{RedisLists, RedisChannels}
use oregano.Connector.Queue
use oregano.Dict.{find, put, emplace}
use oregano.Events
use oregano.Events.{Subscriber}
use oregano.Examples.{local_server, Console}
use oregano.Examples.Connected.{connected_lem}
use oregano.Examples.Events.{channel, event_program, subscriber_main}
use oregano.Factory.{ConnectionOptions}
use oregano.Manager
use oregano.Manager.{SubscriptionType}
use oregano.Messages.{Base64, or_throw, decode_error}
use oregano.Lifecycle.{create_event}
use oregano.User.{Handling, create_subscriber, event_interface}

module _ (base64 : Base64) {R P : Type 0} (lists : RedisLists R) (pubsub : RedisChannels P) where
  module _ {S : Type 0} (connect : ConnectionOptions → Result (R × P)) (server : R) (channels : P)
      (technical_channel : String) (address : ℕ) (id : String) (this : ℕ) where
    -- the subscriber's objects, in its last loop
    abbrev pub running :
        (String → String → Void (Console S))
        → Handling (Subscriber (Console S)) (Brokered ℕ (RedisBrokerConnector R P))
    running callback = record {
      handler = record { on_message_callback = callback };
      managed = record {
        manager = record {
          subscription_type = SubscriptionType.event;
          channel_subscriptions = (channel, this ∷ []) ∷ [];
        };
        broker = record {
          broker = record {
            channel_subscriptions = (channel, 1) ∷ [];
            queue_subscriptions = [];
            event_callbacks = (id, address) ∷ [];
            transaction_callbacks = [];
          };
          connector = record (Methods.create lists pubsub technical_channel server channels) {
            channels =
                pubsub.publish technical_channel ""
                  (pubsub.subscribe channel (pubsub.subscribe technical_channel channels));
            on_subscribe_callback = some call_event_callbacks;
            on_queue_callback = some call_transaction_callbacks;
          };
        };
      };
    }

    pub main-running :
        (callback : String → String → Void (Console S))
        → connect local_server ≡ ok (server, channels)
        → subscriber_main lists pubsub connect base64 technical_channel address id this callback
          ≡ ok (running callback)
    unfolding subscriber_main event_program create_event Broker.create Methods.create as_broker
        Broker.register_event_callback connector Methods.set_on_queue_callback
        Methods.set_on_subscriber_callback event_interface create_subscriber Events.create
        Events.set_on_message_callback Events.subscribe Manager.create Manager.add_message_handler
        Manager.push_new Manager.contains Manager.announce find put emplace Broker.subscribe
        Broker.increment Broker.count_at Methods.subscribe Methods.notify_event_subscription_change
        Queue.create String_discrete ℕ_discrete
    main-running callback e =
        rw (connected_lem lists pubsub connect server channels technical_channel {C = ℕ} e) refl

    -- the channel is subscribed to
    pub running-subscribed :
        (callback : String → String → Void (Console S))
        → pubsub.subscribed (running callback).managed.broker.connector.channels channel ≡ true
    running-subscribed callback =
        pubsub.subscribed-publish technical_channel "" _ channel
        ∙ pubsub.subscribed-subscribe channel _ channel
        ∙ if_pos (String_discrete channel channel) refl _ _

    -- what the broker does with a message on the channel
    abbrev invoked : (String → String → Void (Console S)) → String → Void (Console S)
    invoked callback t =
        call_back
          (λ _.
            Manager.on_message (Events.receive base64 (λ _. (running callback).handler))
              (running callback).managed.manager)
          call_event_callbacks (running callback).managed.broker.broker channel (base64.encode t)

    invoked-calls :
        (callback : String → String → Void (Console S)) (t : String) (x : Console S)
        → invoked callback t x ≡ callback channel t x
    unfolding call_back for_each Manager.on_message find String_discrete Events.receive
        Events.on_message
    invoked-calls callback t x =
        and_then-ok _
        ∙ and_then-ok _
        ∙ ap (λ d. and_then (callback channel) (or_throw decode_error d x)) (base64.decode-encode t)

    -- what the connection brings on the channel goes to the callback, decoded
    pub running-calls :
        (callback : String → String → Void (Console S)) (t : String) (x : Console S)
        → channel ≢ technical_channel
        → on_message lists pubsub
            (λ d.
              call_back
                (λ _.
                  Manager.on_message
                    (Events.receive base64 (λ _. (running callback).handler))
                    (running callback).managed.manager)
                d
                (running callback).managed.broker.broker)
            (running callback).managed.broker.connector
            channel
            (base64.encode t)
            x
          ≡ callback channel t x
    unfolding on_message Methods.create Queue.create
    running-calls callback t x n =
        (λ i.
          if_neg (String_discrete channel technical_channel) n (pure tt) (invoked callback t) i x)
        ∙ invoked-calls callback t x
