-- ===== src/Connector/Requested/Tests.antt =====
-- A transaction between two processes on Redis.
use oregano.Base.{ℕ, String, ◌≡◌, refl, Bool, ok, Exec, Void, arith, List, [], ◌∷◌, String_discrete}
use text.Mathlib.TextEquality.{eq_iff}
use oregano.Broker.{as_broker}
use oregano.Connector.Memory.{Memory, memory, flags, nothing}
use oregano.Connector.Methods.{
  RedisBrokerConnector, connector, set_on_subscriber_callback, set_on_queue_callback,
}
use oregano.Connector.Methods
use oregano.Connector.Queue
use oregano.Connector.Requested.{Process, deliver_response, deliver_request, transaction_completed}
use oregano.Dict.{find}
use oregano.Events
use oregano.Events.{Subscriber, set_on_message_callback}
use oregano.Fixtures.Online.{asking, answering}
use oregano.Requester.{Requesting, send_request, receive_response}
use oregano.Responder
use oregano.Responder.{RequestHandler}
use oregano.RoundTrip.{request_text}
use oregano.RoundTrip.Plain.{plain_json, plain_base64}
use oregano.RoundTrip.Responses.{awaiting}

-- The state is what the promises have got.
abbrev World : Type 0
World = List (ℕ × String)

abbrev on_response : ℕ → String → Void World
on_response promise answer w = (ok tt, (promise, answer) ∷ w)

abbrev callback : String → String → Exec World String
callback channel request w = (ok "pong", w)

abbrev subscribers : ℕ → Subscriber World
subscribers h =
    set_on_message_callback
      (λ _ m.
        receive_response plain_json plain_base64 on_response (awaiting asking.transaction "x1" 5) m)
      Events.create

abbrev request_handlers : ℕ → RequestHandler World
request_handlers h = Responder.set_on_request_callback callback Responder.create

abbrev ping : String
ping = request_text plain_json plain_base64 1000 "responses" "x1" 9000 "ping"

abbrev sent : Requesting (Process Memory (String → Bool))
sent =
    (send_request plain_json plain_base64 1000 (as_broker (connector memory flags)) "x1" 5 7000
      "work" "ping" 2 asking).1

transaction_completed_example :
    ((send_request plain_json plain_base64 1000
        (as_broker (connector memory flags))
        "x1"
        5
        7000
        "work"
        "ping"
        2
        asking).0
      ≡ ok 5)
    × (sent.broker.connector.server ≡ memory.lpush "work" ping nothing)
    × (deliver_request plain_json plain_base64 1000 memory flags request_handlers
          (deliver_response plain_json plain_base64 1000 memory flags subscribers sent.broker)
          (answering "work")
          8500
          "work"
          ping
          []
        ≡ (ok tt, (5, "pong") ∷ []))
unfolding find String_discrete Methods.create set_on_subscriber_callback set_on_queue_callback
    Queue.create
transaction_completed_example =
    transaction_completed plain_json plain_base64 1000 memory flags on_response subscribers
      request_handlers asking (answering "work") 9 4 5 callback "x1" "work" "ping" 7000 2 8500 []
      refl refl ground (arith, eq_iff "responses" "technical") refl refl ground
      (arith, eq_iff "work" "technical") refl refl refl (omega arith) (omega arith)
