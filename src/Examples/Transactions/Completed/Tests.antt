-- ===== src/Examples/Transactions/Completed/Tests.antt =====
-- A sum asked for by the producer and answered by the consumer.
use oregano.Base.{ℕ, String, ◌≡◌, refl, ok, Void, arith, List, [], ◌∷◌, String_discrete}
use text.Mathlib.TextEquality.{eq_iff}
use oregano.Connector.Memory.{memory, flags}
use oregano.Connector.Methods.{set_on_subscriber_callback, set_on_queue_callback}
use oregano.Connector.Methods
use oregano.Connector.Queue
use oregano.Connector.Requested.{deliver_response, deliver_request}
use oregano.Dict.{find}
use oregano.Events
use oregano.Events.{Subscriber, set_on_message_callback}
use oregano.Examples.{Console}
use oregano.Examples.Plain.{plain_examples}
use oregano.Examples.Transactions.{channel, sum_request, on_request}
use oregano.Examples.Transactions.Completed.{sender, queued, sum_completed}
use oregano.Examples.Transactions.Sums.{answered_by, consumed}
use oregano.Fixtures.Online.{asking, answering}
use oregano.Requester.{receive_response}
use oregano.Responder
use oregano.Responder.{RequestHandler}
use oregano.RoundTrip.Plain.{plain_json, plain_base64}
use oregano.RoundTrip.Responses.{awaiting}

-- The state is what the promises have got, beside the console.
abbrev World : Type 0
World = Console (List (ℕ × String))

abbrev on_response : ℕ → String → Void World
on_response promise answer w = (ok tt, record w { rest = (promise, answer) ∷ w.rest })

abbrev subscribers : ℕ → Subscriber World
subscribers h =
    set_on_message_callback
      (λ _ m.
        receive_response plain_json plain_base64 on_response (awaiting asking.transaction "x1" 5) m)
      Events.create

abbrev request_handlers : ℕ → RequestHandler World
request_handlers h =
    Responder.set_on_request_callback (on_request plain_examples "c") Responder.create

sum-answered :
    let producer = sender plain_json plain_base64 1000 memory flags in
    let request = sum_request plain_examples "p" 3 8 in
    let sent =
      producer.send_request "x1" 5 7000 channel (plain_examples.objects.dump request) 1000 asking in
    (sent.0 ≡ ok 5)
    × (deliver_request plain_json plain_base64 1000 memory flags request_handlers
          (deliver_response plain_json plain_base64 1000 memory flags subscribers sent.1.broker)
          (answering channel)
          8500
          channel
          (queued plain_json plain_base64 1000 memory flags plain_examples asking "p" "x1" 3 8 7000)
          (record { lines = []; rest = [] })
        ≡ (
          ok tt,
          record {
            lines = consumed plain_examples "c" channel request 11;
            rest = (5, plain_examples.objects.dump (answered_by plain_examples "c" 11)) ∷ [];
          },
        ))
unfolding find String_discrete Methods.create set_on_subscriber_callback set_on_queue_callback
    Queue.create
sum-answered =
    sum_completed plain_json plain_base64 1000 memory flags plain_examples on_response subscribers
      request_handlers asking (answering channel) 9 4 5 "p" "c" "x1" 3 8 7000 8500
      (record { lines = []; rest = [] }) refl refl ground (arith, eq_iff "responses" "technical")
      refl refl ground (arith, eq_iff "example_transaction_channel" "technical") refl refl refl
      (omega arith) (omega arith) (omega arith)
