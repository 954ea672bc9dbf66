-- ===== src/Examples/Transactions/Programs/Serving.antt =====
-- The programs on a server that accepts their connection.
use oregano.Base.{
  ℕ, ◌+◌, ◌%◌, ◌^◌, ◌≤◌, ◌<◌, String, ◌≡◌, ◌≢◌, refl, ◌∙◌, ap, true, [], ◌∷◌, ◌++◌, Result, ok,
  Exec, Void, pure, and_then, and_then-ok, if_pos, if_neg, String_discrete, ℕ_discrete, for_each,
}
use oregano.Broker.{
  Brokered, as_broker, call_back, call_event_callbacks, call_transaction_callbacks,
}
use oregano.Broker
use oregano.Broker.Once.{counting_one}
use oregano.Connector.Covered.{topics}
use oregano.Connector.Methods.{RedisBrokerConnector, connector}
use oregano.Connector.Methods
use oregano.Connector.Queue
use oregano.Connector.Queue.Listed.{is_in, listen-stop_listening}
use oregano.Connector.Redis.{RedisLists, RedisChannels}
use oregano.Dict.{find, put, emplace}
use oregano.Examples.{ExampleJson, Console, local_server, main_then}
use oregano.Examples.Connected.{connected_lem}
use oregano.Examples.Transactions.{channel, sum_request, on_request}
use oregano.Examples.Transactions.Sums.{answered_by, consumed, on_request_lem}
use oregano.Examples.Transactions.Programs.{transaction_program, producer_main, consumer_main}
use oregano.Factory.{ConnectionOptions}
use oregano.Lifecycle.{Drawn}
use oregano.Lifecycle.Reopening.{transactions, with_callbacks, create_lem}
use oregano.Manager
use oregano.Manager.{SubscriptionType}
use oregano.Messages.{JsonLibrary, Base64, Field, text as text_value}
use oregano.Responder
use oregano.Responder.{RequestHandler, response_frame}
use oregano.RoundTrip.{request_text, request_answered}
use oregano.User.{Handling, transaction_interface, create_request_handler}

-- The frame that is due: the answer in Base64, and the id of the request.
abbrev pub framed : (json : JsonLibrary) → Base64 → String → String → json.Json
framed json base64 message_id answer =
    json.write Field.payload (text_value (base64.encode answer))
      (json.write Field.id (text_value message_id) json.empty)

module _ {R P : Type 0} (lists : RedisLists R) (pubsub : RedisChannels P)
    (connect : ConnectionOptions → Result (R × P)) (server : R) (channels : P)
    (technical_channel : String) (d : Drawn) where
  -- the broker of a program, with its interface
  abbrev pub served : Brokered ℕ (RedisBrokerConnector R P)
  served =
      let new =
        Broker.create {C = ℕ} (connector lists pubsub)
          (Methods.create lists pubsub technical_channel server channels) in
      record {
        broker = counting_one d.response_channel (with_callbacks d new.broker);
        connector = ((connector lists pubsub).subscribe d.response_channel new.connector).1;
      }

  program-served :
      connect local_server ≡ ok (server, channels)
      → transaction_program lists pubsub connect technical_channel d ≡ ok (transactions d, served)
  unfolding transaction_program find Broker.create
  program-served e =
      let new =
        Broker.create {C = ℕ} (connector lists pubsub)
          (Methods.create lists pubsub technical_channel server channels) in
      rw (connected_lem lists pubsub connect server channels technical_channel {C = ℕ} e) (
        ap (main_then (λ t u. ok (t, u))) (
          create_lem (connector lists pubsub) (topics lists pubsub technical_channel) d new.broker
            new.connector refl))

  -- The producer that connects to the local server comes to its first round: its request sender
  -- has the response channel that was drawn, with no promise registered.
  pub producer-served :
      connect local_server ≡ ok (server, channels)
      → producer_main lists pubsub connect technical_channel d
        ≡ ok (record { transaction = (transactions d).responses; broker = served })
  unfolding producer_main
  producer-served e = rw (program-served e) refl

  module _ {W : Type 0} (json : JsonLibrary) (base64 : Base64) (ticks_per_ms : ℕ) (this : ℕ)
      (callback : String → String → Exec W String) where
    -- the consumer's objects, in its last loop
    abbrev pub listening : Handling (RequestHandler W) (Brokered ℕ (RedisBrokerConnector R P))
    listening = record {
      handler = record { on_request_callback = callback };
      managed = record {
        manager = record {
          subscription_type = SubscriptionType.transaction;
          channel_subscriptions = (channel, this ∷ []) ∷ [];
        };
        broker = record {
          broker = record (served.broker) { queue_subscriptions = (channel, 1) ∷ [] };
          connector = ((connector lists pubsub).listen channel served.connector).1;
        };
      };
    }

    main-listening :
        connect local_server ≡ ok (server, channels)
        → consumer_main lists pubsub connect json base64 ticks_per_ms technical_channel d this
            callback
          ≡ ok listening
    unfolding consumer_main transaction_interface create_request_handler Broker.create as_broker
        connector Responder.set_on_request_callback Responder.create Responder.listen Manager.create
        Manager.add_message_handler Manager.push_new Manager.contains Manager.announce find put
        emplace Broker.listen Broker.increment Broker.count_at Methods.listen Methods.subscribe
        Methods.set_on_queue_callback Methods.set_on_subscriber_callback Methods.create
        String_discrete ℕ_discrete
    main-listening e = rw (program-served e) refl

    listening-queue :
        is_in channel listening.managed.broker.connector.queue.queue_subscriptions ≡ true
    unfolding connector Methods.listen
    listening-queue =
        (listen-stop_listening lists channel channel served.connector.queue
          served.connector.server).0
        ∙ if_pos (String_discrete channel channel) refl _ _

    -- what the worker does with a request, and where the answers are published
    abbrev pub worker_call : (String → String → Void W) → ℕ → String → Void W
    worker_call publish now text =
        Methods.on_request lists pubsub
          (λ k.
            call_back
              (λ _.
                Manager.on_message
                  (λ _.
                    Responder.on_message json base64 ticks_per_ms
                      listening.handler.on_request_callback publish now)
                  listening.managed.manager)
              k listening.managed.broker.broker)
          listening.managed.broker.connector channel text

    worker-calls :
        (publish : String → String → Void W) (now : ℕ) (text : String) (x : W)
        → channel ≢ technical_channel
        → worker_call publish now text x
          ≡ Responder.on_message json base64 ticks_per_ms callback publish now channel text x
    unfolding Methods.on_request call_back for_each Manager.on_message find String_discrete
        connector Methods.listen Queue.listen Methods.subscribe Broker.create
        Methods.set_on_queue_callback Methods.set_on_subscriber_callback Methods.create Queue.create
    worker-calls publish now text x n =
        (λ i.
          if_neg (String_discrete channel technical_channel) n (pure tt)
            (call_back
              (λ _.
                Manager.on_message
                  (λ _.
                    Responder.on_message json base64 ticks_per_ms
                      listening.handler.on_request_callback publish now)
                  listening.managed.manager)
              call_transaction_callbacks listening.managed.broker.broker channel text)
            i x)
        ∙ and_then-ok _
        ∙ and_then-ok _

  module _ (ex : ExampleJson) {S : Type 0} (json : JsonLibrary) (base64 : Base64) (ticks_per_ms : ℕ)
      (this : ℕ) where
    -- The consumer that connects to the local server comes to its last loop with its worker on the
    -- queue. A request of the producer that the worker takes in time is answered: the request and
    -- the answer are written, and the sum of the two numbers, modulo 2^32, is published on the
    -- response channel of the request under the request's id.
    pub consumer_serves :
        (id producer_id response_channel message_id : String) (a b valid_until now : ℕ)
        (publish : String → String → Void (Console S)) (x : Console S)
        → connect local_server ≡ ok (server, channels)
        → channel ≢ technical_channel
        → 0 < ticks_per_ms
        → now ≤ valid_until
        → let callback = on_request ex id in
          let w = listening json base64 ticks_per_ms this callback in
          let request = sum_request ex producer_id a b in
          let sum = (a + b) % 2 ^ 32 in
          (consumer_main lists pubsub connect json base64 ticks_per_ms technical_channel d this
              callback
            ≡ ok w)
          × (is_in channel w.managed.broker.connector.queue.queue_subscriptions ≡ true)
          × (worker_call json base64 ticks_per_ms this callback publish now
                (request_text json base64 ticks_per_ms response_channel message_id valid_until
                  (ex.objects.dump request))
                x
              ≡ publish response_channel
                  (json.dump
                    (framed json base64 message_id (ex.objects.dump (answered_by ex id sum))))
                  (record x { lines = x.lines ++ consumed ex id channel request sum }))
    unfolding response_frame
    consumer_serves id producer_id response_channel message_id a b valid_until now publish x e n pos
          inn =
        let callback : String → String → Exec (Console S) String = on_request ex id in
        (
          main-listening json base64 ticks_per_ms this callback e,
          listening-queue json base64 ticks_per_ms this callback,
          worker-calls json base64 ticks_per_ms this callback publish now _ x n
              ∙ request_answered json base64 ticks_per_ms callback publish channel response_channel
                  message_id (ex.objects.dump (sum_request ex producer_id a b)) valid_until now x
                  pos inn
              ∙ ap (and_then _) (on_request_lem ex id channel producer_id a b x),
        )
