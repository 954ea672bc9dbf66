-- ===== src/Connector/Answered/Tests.antt =====
-- A response for a subscriber beside another interface, and a whole transaction.
use oregano.Base.{
  ℕ, String, ◌≡◌, ◌≢◌, refl, Bool, false, ok, Exec, Void, arith, List, [], ◌∷◌, String_discrete,
}
use text.Mathlib.TextEquality.{eq_iff}
use oregano.Broker.{MessageBroker, call_event_callbacks, call_back}
use oregano.Connector.Answered.{response_delivered, transaction_round_trip}
use oregano.Connector.Memory.{Memory, memory, flags, nothing}
use oregano.Connector.Methods.{RedisBrokerConnector, set_on_subscriber_callback, on_message}
use oregano.Connector.Methods
use oregano.Connector.Queue
use oregano.Dict.{find, put}
use oregano.Events
use oregano.Events.{Subscriber, set_on_message_callback, receive}
use oregano.Manager
use oregano.Manager.{MessageHandlerManager, event}
use oregano.Requester.{TransactionInterface, receive_response}
use oregano.Responder
use oregano.Responder.{response_frame}
use oregano.RoundTrip.{request_text}
use oregano.RoundTrip.Plain.{plain_json, plain_base64}
use oregano.RoundTrip.Responses.{awaiting}

-- The state is what the promises have got.
abbrev World : Type 0
World = List (ℕ × String)

abbrev on_response : ℕ → String → Void World
on_response promise answer w = (ok tt, (promise, answer) ∷ w)

abbrev callback : String → String → Exec World String
callback channel request w = (ok "pong", w)

abbrev idle : TransactionInterface
idle = record { response_channel = "responses"; on_response_callbacks = [] }

abbrev subscribers : ℕ → Subscriber World
subscribers h =
    set_on_message_callback
      (λ _ m. receive_response plain_json plain_base64 on_response (awaiting idle "x1" 5) m)
      Events.create

abbrev listening_on : String → ℕ → MessageHandlerManager
listening_on c h = record { subscription_type = event; channel_subscriptions = (c, h ∷ []) ∷ [] }

abbrev attached : MessageBroker MessageHandlerManager
attached = record {
  channel_subscriptions = ("news", 1) ∷ ("responses", 1) ∷ [];
  queue_subscriptions = [];
  event_callbacks = ("a", listening_on "news" 7) ∷ ("b", listening_on "responses" 9) ∷ [];
  transaction_callbacks = [];
}

abbrev online : RedisBrokerConnector Memory (String → Bool)
online =
    (set_on_subscriber_callback memory flags call_event_callbacks
      (Methods.create memory flags "technical" nothing (λ j. false))).1

-- What the connection brings, on its way to the handlers.
abbrev brought : String → String → Void World
brought c t =
    on_message memory flags
      (λ d. call_back (Manager.on_message (receive plain_base64 subscribers)) d attached) online c
      (plain_base64.encode t)

responses-ne-technical : ◌≢◌ {A = String} "responses" "technical"
responses-ne-technical = ground (arith, eq_iff "responses" "technical")

pong-delivered :
    brought "responses"
      (plain_json.dump (response_frame plain_json plain_base64 1000 "x1" "pong"))
      []
    ≡ (ok tt, (5, "pong") ∷ [])
unfolding find put String_discrete Methods.create set_on_subscriber_callback Queue.create
pong-delivered =
    response_delivered plain_json plain_base64 1000 memory flags on_response online attached
      (awaiting idle "x1" 5) subscribers 9 "x1" "pong" [] refl responses-ne-technical refl refl

pong-returned :
    Responder.on_message plain_json plain_base64 1000 callback brought 8500 "work"
      (request_text plain_json plain_base64 1000 "responses" "x1" 9000 "ping")
      []
    ≡ (ok tt, (5, "pong") ∷ [])
unfolding find String_discrete Methods.create set_on_subscriber_callback Queue.create
pong-returned =
    transaction_round_trip plain_json plain_base64 1000 memory flags on_response online attached
      idle subscribers 9 callback "x1" 5 "work" "ping" 9000 8500 [] refl responses-ne-technical refl
      refl (omega arith) (omega arith)
