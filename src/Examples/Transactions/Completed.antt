-- ===== src/Examples/Transactions/Completed.antt =====
-- Producer and consumer together, over Redis.
mod Tests
use oregano.Base.{
  ℕ, ◌+◌, ◌*◌, ◌%◌, ◌^◌, ◌≤◌, ◌<◌, String, ◌≡◌, ◌≢◌, refl, ◌∙◌, ap, none, some, List, [], ◌∷◌, ◌++◌,
  ok, Void, arith, and_then,
}
use oregano.Broker.{call_event_callbacks, call_transaction_callbacks, as_broker}
use oregano.Connector.Answered.{all_handlers}
use oregano.Connector.Methods.{connector}
use oregano.Connector.Redis.{RedisLists, RedisChannels}
use oregano.Connector.Requested.{Process, deliver_response, deliver_request, transaction_completed}
use oregano.Dict.{find}
use oregano.Events
use oregano.Events.{Subscriber, set_on_message_callback}
use oregano.Examples.{ExampleJson, Console}
use oregano.Examples.Transactions.{channel, sum_request, on_request}
use oregano.Examples.Transactions.Sums.{answered_by, consumed, on_request_small}
use oregano.Messages.{JsonLibrary, Base64}
use oregano.Requester.{Requesting, receive_response}
use oregano.Responder
use oregano.Responder.{RequestHandler}
use oregano.RoundTrip.{request_text}
use oregano.RoundTrip.Responses.{awaiting}
use oregano.User.{IRequestSender, transaction_interface, create_request_sender}

module _ (frames : JsonLibrary) (base64 : Base64) (ticks_per_ms : ℕ) {R P : Type 0}
    (lists : RedisLists R) (pubsub : RedisChannels P) where
  -- the producer's request sender
  abbrev pub sender : IRequestSender (Requesting (Process R P))
  sender =
      (transaction_interface {W = Unit {0}} (as_broker (connector lists pubsub)) base64 frames
        ticks_per_ms).create_request_sender

  module _ (json : ExampleJson) where
    open json use {objects}
    open objects use {dump}

    -- What goes over the queue for the sum of two numbers.
    abbrev pub queued : Requesting (Process R P) → String → String → ℕ → ℕ → ℕ → String
    queued w producer_id message_id a b sent_at =
        request_text frames base64 ticks_per_ms w.transaction.response_channel message_id
          (sent_at + 1000 * ticks_per_ms) (dump (sum_request json producer_id a b))

    module _ {S : Type 0} (on_response : ℕ → String → Void (Console S))
        (subscribers : ℕ → Subscriber (Console S)) (handlers : ℕ → RequestHandler (Console S))
        (w : Requesting (Process R P)) (consumer : Process R P) (subscriber handler promise : ℕ)
        (producer_id consumer_id message_id : String) (a b sent_at now : ℕ) (x : Console S) where
      -- The producer sends two numbers whose sum is below 2^32, and gets a promise. If the worker of
      -- the consumer hands the request over within a second, and the connection brings the answer to
      -- the producer, then the consumer writes the request and its answer, and the promise is given
      -- the answer with the sum of the two numbers. Each side has its one handler, as it is set up.
      pub sum_completed :
          find message_id w.transaction.on_response_callbacks ≡ none
          → w.broker.connector.on_subscribe_callback ≡ some call_event_callbacks
          → w.transaction.response_channel ≢ w.broker.connector.queue.technical_channel
          → all_handlers w.broker.broker.event_callbacks w.transaction.response_channel
            ≡ subscriber ∷ []
          → consumer.connector.on_queue_callback ≡ some call_transaction_callbacks
          → channel ≢ consumer.connector.queue.technical_channel
          → all_handlers consumer.broker.transaction_callbacks channel ≡ handler ∷ []
          → handlers handler
            ≡ Responder.set_on_request_callback (on_request json consumer_id) Responder.create
          → subscribers subscriber
            ≡ set_on_message_callback
                (λ _ m.
                  receive_response frames base64 on_response
                    (awaiting w.transaction message_id promise)
                    m)
                Events.create
          → 0 < ticks_per_ms
          → now ≤ sent_at + 1000 * ticks_per_ms
          → a + b < 2 ^ 32
          → let sent =
              sender.send_request message_id promise sent_at channel
                (dump (sum_request json producer_id a b))
                1000
                w in
            (sent.0 ≡ ok promise)
            × (deliver_request frames base64 ticks_per_ms lists pubsub handlers
                  (deliver_response frames base64 ticks_per_ms lists pubsub subscribers
                    sent.1.broker)
                  consumer
                  now
                  channel
                  (queued w producer_id message_id a b sent_at)
                  x
                ≡ on_response promise (dump (answered_by json consumer_id (a + b))) (record x {
                  lines =
                      x.lines
                      ++ consumed json consumer_id channel
                          (sum_request json producer_id a b)
                          (a + b);
                }))
      unfolding transaction_interface create_request_sender
      sum_completed fresh e n sole eh nh soleh seth set pos inn small =
          let done =
            transaction_completed frames base64 ticks_per_ms lists pubsub on_response subscribers
              handlers w consumer subscriber handler promise (on_request json consumer_id)
              message_id channel (dump (sum_request json producer_id a b)) sent_at 1000 now x fresh
              e n sole eh nh soleh seth set pos inn in
          (
            done.0,
            done.2
                ∙ ap (and_then (on_response promise))
                    (on_request_small json consumer_id channel producer_id a b x small),
          )
