-- ===== src/User/Programs.antt =====
-- What a user does to receive: set the callback, then subscribe or listen, as the programs in
-- examples/pubsub/subscriber and examples/transaction/consumer do.
use oregano.Base.{
  ℕ, ◌≤◌, ◌<◌, String, ◌≡◌, ◌∙◌, none, [], ◌∷◌, arith, Exec, Void, and_then, and_then-ok, for_each,
  ◌>>◌,
}
use oregano.Dict.{find, put}
use oregano.Dict.Laws.{find-put}
use oregano.Events
use oregano.Events.{Subscriber}
use oregano.Interfaces.{IMessageBroker}
use oregano.Manager
use oregano.Manager.{MessageHandlerManager, Managed, add_message_handler, push_new, contains}
use oregano.Manager.Cases.{add_cases}
use oregano.Manager.Registry.{handlers}
use oregano.Messages.{JsonLibrary, Base64}
use oregano.Responder
use oregano.Responder.{RequestHandler, response_frame}
use oregano.RoundTrip.{request_text, request_answered}
use oregano.User.{Handling, ISubscriber, IRequestHandler, create_subscriber, create_request_handler}

abbrev pub receiving : {F X : Type 0} → ISubscriber F X → F → String → Void X
receiving s callback channel = s.set_on_message_callback callback >> s.subscribe channel

abbrev pub serving : {F X : Type 0} → IRequestHandler F X → F → String → Void X
serving h callback channel = h.set_on_request_callback callback >> h.listen channel

module _ {C S : Type 0} (b : IMessageBroker C S) (this : ℕ) where
  -- the first handler of a channel, whatever the broker says
  handlers-add :
      (channel : String) (w : Managed S)
      → find channel w.manager.channel_subscriptions ≡ none
      → handlers (add_message_handler b channel this w).1.manager channel ≡ this ∷ []
  handlers-add channel w e =
      add_cases b channel this w (λ r. handlers r.1.manager channel ≡ this ∷ [])
        (λ _. ground (
          arith,
          find-put channel channel (this ∷ []) (put channel [] w.manager.channel_subscriptions),
        ))
        (λ xs f s. cc) (λ xs f s. cc)

module _ {C S W : Type 0} (b : IMessageBroker C S) (this : ℕ) where
  -- A user sets the callback of a subscriber and subscribes to a channel on which the manager has no
  -- handler: whether the broker takes the subscription or throws, an event that then reaches the
  -- manager makes the callback run once, on the channel and the text that was published, and its
  -- result is the result.
  pub receiving_lem :
      (base64 : Base64) (callback : String → String → Void W) (channel text : String)
      (w : Handling (Subscriber W) S) (x : W)
      → find channel w.managed.manager.channel_subscriptions ≡ none
      → let after = (receiving (create_subscriber b this) callback channel w).1 in
        Manager.on_message
          (Events.receive base64 (λ _. after.handler))
          after.managed.manager
          channel
          (base64.encode text)
          x
        ≡ callback channel text x
  unfolding create_subscriber Events.receive Events.on_message Events.subscribe
      Events.set_on_message_callback Manager.on_message for_each
  receiving_lem base64 callback channel text w x e =
      rw (handlers-add b this channel w.managed e, base64.decode-encode)
        (and_then-ok (callback channel text x))

  -- A user sets the callback of a request handler and listens on a channel without a handler:
  -- whether the broker takes it or throws, a request that then reaches the manager in time makes the
  -- callback run once, on the channel and the message that was sent, and its answer is published on
  -- the response channel under the request's id.
  pub serving_lem :
      (json : JsonLibrary) (base64 : Base64) (ticks_per_ms : ℕ)
      (callback : String → String → Exec W String) (publish : String → String → Void W)
      (channel response_channel message_id message : String) (valid_until now : ℕ)
      (w : Handling (RequestHandler W) S) (x : W)
      → find channel w.managed.manager.channel_subscriptions ≡ none
      → 0 < ticks_per_ms
      → now ≤ valid_until
      → let after = (serving (create_request_handler b this) callback channel w).1 in
        Manager.on_message
          (λ _.
            Responder.on_message json base64 ticks_per_ms after.handler.on_request_callback publish
              now)
          after.managed.manager
          channel
          (request_text json base64 ticks_per_ms response_channel message_id valid_until message)
          x
        ≡ and_then
            (λ a.
              publish response_channel
                (json.dump (response_frame json base64 ticks_per_ms message_id a)))
            (callback channel message x)
  unfolding create_request_handler Responder.listen Responder.set_on_request_callback
      Manager.on_message for_each
  serving_lem json base64 ticks_per_ms callback publish channel response_channel message_id message
        valid_until now w x e pos h =
      rw (handlers-add b this channel w.managed e) (
        and_then-ok _
        ∙ request_answered json base64 ticks_per_ms callback publish channel response_channel
            message_id message valid_until now x pos h)
