-- ===== src/Connector/Delivered.antt =====
-- The way of an event: from Publisher::publish to the network, and from the network through the
-- connector, the broker and the managers to the callbacks of the subscribers.
use oregano.Base.{
  ℕ, String, ◌≡◌, ◌≢◌, refl, ◌∙◌, none, some, List, [], ◌∷◌, ◌++◌, ok, pure, Void, for_each, arith,
  if_neg, String_discrete,
}
use mathlib.Core.List.{append-nil, append_assoc}
use oregano.Broker.{
  MessageBroker, ConnectorCallback, call_event_callbacks, call_back, Brokered, as_broker,
}
use oregano.Broker
use oregano.Connector.Methods.{RedisBrokerConnector, connector, on_message}
use oregano.Connector.Methods
use oregano.Connector.Redis.{RedisLists, RedisChannels}
use oregano.Events
use oregano.Events.{Subscriber, create, set_on_message_callback, receive}
use oregano.Manager
use oregano.Manager.{MessageHandlerManager}
use oregano.Manager.Dispatch.{Delivery, sent, noting, reached}
use oregano.Manager.Registry.{handlers}
use oregano.Messages.{Base64}
use oregano.Sharing.Delivery.{Callbacks}

-- Subscribers whose callbacks note the message and return.
abbrev pub noted : ℕ → Subscriber (List Delivery)
noted h = set_on_message_callback (noting (λ _. none) h) create

-- The calls of an event: interface by interface, and in each the handlers of the channel.
abbrev pub deliveries : Callbacks → String → String → List Delivery
deliveries [] c t = []
deliveries (f ∷ fs) c t = reached (λ _. none) c t (handlers f.1 c) ++ deliveries fs c t

module _ (base64 : Base64) where
  receive-noted :
      (h : ℕ) (c t : String) (log : List Delivery)
      → receive base64 noted h c (base64.encode t) log ≡ noting (λ _. none) h c t log
  unfolding receive Events.on_message set_on_message_callback
  receive-noted h c t log = rw (base64.decode-encode) refl

  for_each-noted :
      (hs : List ℕ) (c t : String) (log : List Delivery)
      → for_each (λ h. receive base64 noted h c (base64.encode t)) hs log
        ≡ (ok tt, log ++ reached (λ _. none) c t hs)
  unfolding for_each
  for_each-noted [] c t log = ground (arith, append-nil log)
  for_each-noted (h ∷ hs) c t log = ground (
    arith,
    receive-noted h c t log,
    for_each-noted hs c t (log ++ sent h c t ∷ []),
    append_assoc log (sent h c t ∷ []) (reached (λ _. none) c t hs),
  )

  -- what a manager does with a message
  abbrev pub managed : MessageHandlerManager → String → String → Void (List Delivery)
  managed = Manager.on_message (receive base64 noted)

  for_each-managed :
      (fs : Callbacks) (c t : String) (log : List Delivery)
      → for_each (λ f. managed f.1 c (base64.encode t)) fs log ≡ (ok tt, log ++ deliveries fs c t)
  unfolding for_each Manager.on_message
  for_each-managed [] c t log = ground (arith, append-nil log)
  for_each-managed (f ∷ fs) c t log = ground (
    arith,
    for_each-noted (handlers f.1 c) c t log,
    for_each-managed fs c t (log ++ reached (λ _. none) c t (handlers f.1 c)),
    append_assoc log (reached (λ _. none) c t (handlers f.1 c)) (deliveries fs c t),
  )

module _ (base64 : Base64) {R P : Type 0} (lists : RedisLists R) (pubsub : RedisChannels P) where
  -- An event, on a channel other than the technical one: publishing it succeeds and hands the
  -- channel and the encoded text to the connection, and changes nothing else of broker and
  -- connector. When a connection brings that message to a connector with the broker's callback,
  -- whose subscribers note what they get, then no exception is thrown, and the calls made are those
  -- of all handlers that the event managers have for the channel, in the order of the callbacks and
  -- of the registration, each with the channel and the text that was published.
  pub event_delivered :
      {C : Type 0} (w : Brokered C (RedisBrokerConnector R P)) (k : RedisBrokerConnector R P)
      (b : MessageBroker MessageHandlerManager) (channel text : String) (log : List Delivery)
      → k.on_subscribe_callback ≡ some call_event_callbacks
      → channel ≢ k.queue.technical_channel
      → (Events.publish base64 (as_broker (connector lists pubsub)) channel text w ≡ (
        ok tt,
        record w {
          connector = record (w.connector) {
            channels = pubsub.publish channel (base64.encode text) w.connector.channels;
          };
        },
      ))
        × (on_message lists pubsub
              (λ d. call_back (managed base64) d b)
              k
              channel
              (base64.encode text)
              log
            ≡ (ok tt, log ++ deliveries b.event_callbacks channel text))
  unfolding Events.publish as_broker connector Broker.publish Methods.publish on_message call_back
  event_delivered w k b channel text log e n = (
    refl,
    rw (e) (
        (λ i.
          if_neg (String_discrete channel k.queue.technical_channel) n (pure tt)
            (call_back (managed base64) call_event_callbacks b channel (base64.encode text)) i log)
        ∙ for_each-managed base64 b.event_callbacks channel text log),
  )
