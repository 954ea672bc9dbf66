-- ===== src/Connector/Answered.antt =====
-- The way of a response: from the network through the connector, the broker and the managers to
-- the subscriber of the response channel, and from there to the promise.
mod Tests
use oregano.Base.{
  String, ℕ, ◌≤◌, ◌<◌, ◌≡◌, ◌≢◌, refl, ◌∙◌, ap, sym, Option, none, some, List, [], ◌∷◌, ◌++◌,
  Result, Exec, ok, err, pure, Void, and_then, and_then_cong, and_then_assoc, and_then-ok, for_each,
  arith, if_neg, String_discrete,
}
use oregano.Broker.{
  MessageBroker, ConnectorCallback, call_event_callbacks, call_transaction_callbacks, call_back,
}
use oregano.Connector.Methods.{RedisBrokerConnector, on_message, on_request}
use oregano.Connector.Redis.{RedisLists, RedisChannels}
use oregano.Dict.{find}
use oregano.Events
use oregano.Events.{Subscriber, set_on_message_callback, receive}
use oregano.Manager
use oregano.Manager.{MessageHandlerManager}
use oregano.Manager.Registry.{handlers}
use oregano.Messages.{JsonLibrary, Base64}
use oregano.Requester.{TransactionInterface, receive_response}
use oregano.Responder.{response_frame}
use oregano.Responder
use oregano.RoundTrip.{request_text, request_answered}
use oregano.RoundTrip.Responses.{awaiting, find-put_self, response_resolves}
use oregano.Sharing.Delivery.{Callbacks}

-- The handlers of a channel, interface by interface.
abbrev pub all_handlers : Callbacks → String → List ℕ
all_handlers [] c = []
all_handlers (f ∷ fs) c = handlers f.1 c ++ all_handlers fs c

module _ {W : Type 0} where
  for_each-append :
      {A : Type 0} (body : A → Void W) (xs ys : List A) (w : W)
      → for_each body (xs ++ ys) w ≡ and_then (λ _. for_each body ys) (for_each body xs w)
  unfolding for_each
  for_each-append body [] ys w = refl
  for_each-append body (x ∷ xs) ys w =
      and_then_cong (λ _. for_each-append body xs ys) (body x w)
      ∙ sym (and_then_assoc (λ _. for_each body xs) (λ _. for_each body ys) (body x w))

  pub for_each_one :
      {A : Type 0} (body : A → Void W) (x : A) (w : W) → for_each body (x ∷ []) w ≡ body x w
  unfolding for_each
  for_each_one body x w = and_then-ok (body x w)

  -- Passing a message to every manager is passing it to every handler.
  pub for_each-all_handlers :
      (invoke : ℕ → String → String → Void W) (fs : Callbacks) (c t : String) (w : W)
      → for_each (λ f. Manager.on_message invoke f.1 c t) fs w
        ≡ for_each (λ h. invoke h c t) (all_handlers fs c) w
  unfolding for_each Manager.on_message
  for_each-all_handlers invoke [] c t w = refl
  for_each-all_handlers invoke (f ∷ fs) c t w =
      and_then_cong (λ _. for_each-all_handlers invoke fs c t)
        (for_each (λ h. invoke h c t) (handlers f.1 c) w)
      ∙ sym (for_each-append (λ h. invoke h c t) (handlers f.1 c) (all_handlers fs c) w)

  module _ {R P : Type 0} (lists : RedisLists R) (pubsub : RedisChannels P)
      (invoke : ℕ → String → String → Void W) (k : RedisBrokerConnector R P)
      (b : MessageBroker MessageHandlerManager) (c t : String) (w : W) where
    -- A message on a channel other than the technical one goes to the handlers of the channel, and
    -- from the first that throws no further.
    pub on_message-all_handlers :
        k.on_subscribe_callback ≡ some call_event_callbacks
        → c ≢ k.queue.technical_channel
        → on_message lists pubsub (λ d. call_back (Manager.on_message invoke) d b) k c t w
          ≡ for_each (λ h. invoke h c t) (all_handlers b.event_callbacks c) w
    unfolding on_message call_back
    on_message-all_handlers e n = rw (e) (
        (λ i.
          if_neg (String_discrete c k.queue.technical_channel) n (pure tt)
            (call_back (Manager.on_message invoke) call_event_callbacks b c t) i w)
        ∙ for_each-all_handlers invoke b.event_callbacks c t w)

    -- And so a request on a queue other than the technical one.
    pub on_request-all_handlers :
        k.on_queue_callback ≡ some call_transaction_callbacks
        → c ≢ k.queue.technical_channel
        → on_request lists pubsub (λ d. call_back (Manager.on_message invoke) d b) k c t w
          ≡ for_each (λ h. invoke h c t) (all_handlers b.transaction_callbacks c) w
    unfolding on_request call_back
    on_request-all_handlers e n = rw (e) (
        (λ i.
          if_neg (String_discrete c k.queue.technical_channel) n (pure tt)
            (call_back (Manager.on_message invoke) call_transaction_callbacks b c t) i w)
        ∙ for_each-all_handlers invoke b.transaction_callbacks c t w)

module _ (json : JsonLibrary) (base64 : Base64) (ticks_per_ms : ℕ) {R P W : Type 0}
    (lists : RedisLists R) (pubsub : RedisChannels P) (on_response : ℕ → String → Void W) where
  open json use {dump}

  -- A framed response that the connection brings: if the one handler of the response channel, over
  -- all event managers, is the subscriber of the interface, the promise that waits under the id is
  -- given the decoded answer, and a response for which no promise waits is ignored.
  pub response_delivered :
      (k : RedisBrokerConnector R P) (b : MessageBroker MessageHandlerManager)
      (transaction : TransactionInterface) (subscribers : ℕ → Subscriber W) (subscriber : ℕ)
      (message_id answer : String) (w : W)
      → k.on_subscribe_callback ≡ some call_event_callbacks
      → transaction.response_channel ≢ k.queue.technical_channel
      → all_handlers b.event_callbacks transaction.response_channel ≡ subscriber ∷ []
      → subscribers subscriber
        ≡ set_on_message_callback
            (λ _ m. receive_response json base64 on_response transaction m)
            Events.create
      → on_message lists pubsub
          (λ d. call_back (Manager.on_message (receive base64 subscribers)) d b)
          k
          transaction.response_channel
          (base64.encode (dump (response_frame json base64 ticks_per_ms message_id answer)))
          w
        ≡ (elim (find message_id transaction.on_response_callbacks) [
          | none ↦ (ok tt, w)
          | some promise ↦ on_response promise answer w
        ])
  unfolding receive Events.on_message set_on_message_callback
  response_delivered k b transaction subscribers subscriber message_id answer w e n sole set =
      on_message-all_handlers lists pubsub (receive base64 subscribers) k b
        transaction.response_channel _ w e n
      ∙ rw (sole, for_each_one, set, base64.decode-encode)
          (response_resolves json base64 ticks_per_ms on_response transaction message_id answer w)

  -- A whole transaction. A request that arrives at its handler in time is answered by the callback
  -- of the handler; when the connection brings what the handler publishes to the connector of the
  -- requester, whose interface has the one handler of the response channel, then the promise that
  -- was registered with the request is given the answer of the callback to the message that was
  -- sent. An exception of the callback is passed on, and no promise is given anything.
  pub transaction_round_trip :
      (k : RedisBrokerConnector R P) (b : MessageBroker MessageHandlerManager)
      (transaction : TransactionInterface) (subscribers : ℕ → Subscriber W) (subscriber : ℕ)
      (callback : String → String → Exec W String) (message_id : String) (promise : ℕ)
      (channel message : String) (valid_until now : ℕ) (w : W)
      → k.on_subscribe_callback ≡ some call_event_callbacks
      → transaction.response_channel ≢ k.queue.technical_channel
      → all_handlers b.event_callbacks transaction.response_channel ≡ subscriber ∷ []
      → subscribers subscriber
        ≡ set_on_message_callback
            (λ _ m.
              receive_response json base64 on_response (awaiting transaction message_id promise) m)
            Events.create
      → 0 < ticks_per_ms
      → now ≤ valid_until
      → Responder.on_message json base64 ticks_per_ms callback
          (λ c t.
            on_message lists pubsub
              (λ d. call_back (Manager.on_message (receive base64 subscribers)) d b)
              k
              c
              (base64.encode t))
          now
          channel
          (request_text json base64 ticks_per_ms transaction.response_channel message_id valid_until
            message)
          w
        ≡ and_then (on_response promise) (callback channel message w)
  transaction_round_trip k b transaction subscribers subscriber callback message_id promise channel
        message valid_until now w e n sole set pos h =
      request_answered json base64 ticks_per_ms callback _ channel transaction.response_channel
        message_id message valid_until now w pos h
      ∙ and_then_cong
          (λ a s.
            response_delivered k b (awaiting transaction message_id promise) subscribers subscriber
              message_id a s e n sole set
            ∙ rw (find-put_self message_id promise transaction.on_response_callbacks) refl)
          (callback channel message w)
