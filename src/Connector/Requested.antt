-- ===== src/Connector/Requested.antt =====
-- The way of a request and its answer: RequestSender::send_request to the queue on the server, from
-- the queue through the connector, the broker and the managers to the request handler, and from its
-- answer back to the promise.
mod Tests
use oregano.Base.{
  String, ℕ, ◌+◌, ◌*◌, ◌≤◌, ◌<◌, ◌≡◌, ◌≢◌, refl, ◌∙◌, none, some, List, [], ◌∷◌, Exec, ok, Void,
  and_then,
}
use oregano.Broker.{
  MessageBroker, Brokered, call_event_callbacks, call_transaction_callbacks, call_back, as_broker,
}
use oregano.Broker
use oregano.Connector.Answered.{
  all_handlers, on_request-all_handlers, for_each_one, transaction_round_trip,
}
use oregano.Connector.Methods.{RedisBrokerConnector, connector, on_message, on_request}
use oregano.Connector.Methods
use oregano.Connector.Queue
use oregano.Connector.Redis.{RedisLists, RedisChannels}
use oregano.Dict.{find}
use oregano.Events
use oregano.Events.{Subscriber, set_on_message_callback, receive}
use oregano.Manager
use oregano.Manager.{MessageHandlerManager}
use oregano.Messages.{JsonLibrary, Base64}
use oregano.Requester.{TransactionInterface, Requesting, send_request, receive_response}
use oregano.Responder.{RequestHandler}
use oregano.Responder
use oregano.RoundTrip.{request_text}
use oregano.RoundTrip.Responses.{awaiting, send_request_lem}

-- A process: its broker with the callbacks of its interfaces, beside its connector.
abbrev pub Process : Type 0 → Type 0 → Type 0
Process R P = Brokered MessageHandlerManager (RedisBrokerConnector R P)

module _ (json : JsonLibrary) (base64 : Base64) (ticks_per_ms : ℕ) {R P W : Type 0}
    (lists : RedisLists R) (pubsub : RedisChannels P) where
  -- what the requester does with a response that its connection brings
  abbrev pub deliver_response : (ℕ → Subscriber W) → Process R P → String → String → Void W
  deliver_response subscribers requester c t =
      on_message lists pubsub
        (λ d. call_back (Manager.on_message (receive base64 subscribers)) d requester.broker)
        requester.connector c (base64.encode t)

  -- what the responder does, at the time `now`, with a request that `brpop` has taken
  abbrev pub deliver_request :
      (ℕ → RequestHandler W)
      → (String → String → Void W)
      → Process R P
      → ℕ
      → String
      → String
      → Void W
  deliver_request handlers publish responder now =
      on_request lists pubsub
        (λ d.
          call_back
            (Manager.on_message (λ h.
              Responder.on_message json base64 ticks_per_ms (handlers h).on_request_callback publish
                now))
            d responder.broker)
        responder.connector

  module _ (handlers : ℕ → RequestHandler W) (publish : String → String → Void W)
      (responder : Process R P) (handler : ℕ) (callback : String → String → Exec W String) (now : ℕ)
      (channel text : String) (x : W) where
    -- A queue with one handler, over all interfaces.
    handed :
        responder.connector.on_queue_callback ≡ some call_transaction_callbacks
        → channel ≢ responder.connector.queue.technical_channel
        → all_handlers responder.broker.transaction_callbacks channel ≡ handler ∷ []
        → handlers handler ≡ Responder.set_on_request_callback callback Responder.create
        → deliver_request handlers publish responder now channel text x
          ≡ Responder.on_message json base64 ticks_per_ms callback publish now channel text x
    unfolding Responder.set_on_request_callback
    handed e n sole set =
        on_request-all_handlers lists pubsub
          (λ h.
            Responder.on_message json base64 ticks_per_ms (handlers h).on_request_callback publish
              now)
          responder.connector responder.broker channel text x e n
        ∙ rw (sole, for_each_one, set) refl

  module _ (on_response : ℕ → String → Void W) (subscribers : ℕ → Subscriber W)
      (handlers : ℕ → RequestHandler W) (w : Requesting (Process R P)) (responder : Process R P)
      (subscriber handler promise : ℕ) (callback : String → String → Exec W String)
      (message_id channel message : String) (sent_at timeout now : ℕ) (x : W) where
    abbrev request : String
    request =
        request_text json base64 ticks_per_ms w.transaction.response_channel message_id
          (sent_at + timeout * ticks_per_ms) message

    -- A transaction between two processes. The requester sends under a fresh id: it gets the
    -- promise, and the request is put at the head of the queue on the server. When the worker of the
    -- responder, whose interfaces have one handler for the queue, hands that request over before
    -- the time limit has passed, the callback of the handler gets the queue and the message; and
    -- when the connection brings what is published to the requester, whose interfaces have one
    -- handler for the response channel, the promise is given the answer. An exception of the
    -- callback ends the worker's call, and no promise is given anything.
    pub transaction_completed :
        find message_id w.transaction.on_response_callbacks ≡ none
        → w.broker.connector.on_subscribe_callback ≡ some call_event_callbacks
        → w.transaction.response_channel ≢ w.broker.connector.queue.technical_channel
        → all_handlers w.broker.broker.event_callbacks w.transaction.response_channel
          ≡ subscriber ∷ []
        → responder.connector.on_queue_callback ≡ some call_transaction_callbacks
        → channel ≢ responder.connector.queue.technical_channel
        → all_handlers responder.broker.transaction_callbacks channel ≡ handler ∷ []
        → handlers handler ≡ Responder.set_on_request_callback callback Responder.create
        → subscribers subscriber
          ≡ set_on_message_callback
              (λ _ m.
                receive_response json base64 on_response
                  (awaiting w.transaction message_id promise)
                  m)
              Events.create
        → 0 < ticks_per_ms
        → now ≤ sent_at + timeout * ticks_per_ms
        → let sent =
            send_request json base64 ticks_per_ms
              (as_broker (connector lists pubsub))
              message_id
              promise
              sent_at
              channel
              message
              timeout
              w in
          (sent.0 ≡ ok promise)
          × (sent.1.broker.connector.server ≡ lists.lpush channel request w.broker.connector.server)
          × (deliver_request handlers
                (deliver_response subscribers sent.1.broker)
                responder
                now
                channel
                request
                x
              ≡ and_then (on_response promise) (callback channel message x))
    unfolding as_broker connector Broker.send_request Methods.send_request Queue.send_request
        Responder.set_on_request_callback
    transaction_completed fresh e n sole eh nh soleh seth set pos inn =
        let w' = record (w.broker) {
          connector = record (w.broker.connector) {
            server = lists.lpush channel request w.broker.connector.server;
          };
        } in
        rw
          (send_request_lem json base64 ticks_per_ms (as_broker (connector lists pubsub)) w
            message_id promise sent_at channel message timeout fresh)
          (
            refl,
            refl,
            handed handlers (deliver_response subscribers w') responder handler callback now channel
                  request x eh nh soleh seth
                ∙ transaction_round_trip json base64 ticks_per_ms lists pubsub on_response
                    w'.connector w.broker.broker w.transaction subscribers subscriber callback
                    message_id promise channel message _ now x e n sole set pos inn,
          )
