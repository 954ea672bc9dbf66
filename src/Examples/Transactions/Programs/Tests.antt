-- ===== src/Examples/Transactions/Programs/Tests.antt =====
-- The consumer on a server that accepts its connection.
use oregano.Base.{
  String, ◌≡◌, refl, Bool, true, false, List, [], ◌∷◌, Result, ok, Exec, Void, arith,
}
use text.Mathlib.TextEquality.{eq_iff}
use oregano.Connector.Memory.{Memory, memory, flags, nothing}
use oregano.Connector.Queue.Listed.{is_in}
use oregano.Examples.{Console}
use oregano.Examples.Plain.{plain_examples}
use oregano.Examples.Transactions.{channel, sum_request, on_request}
use oregano.Examples.Transactions.Programs.{consumer_main}
use oregano.Examples.Transactions.Programs.Serving.{framed, listening, worker_call, consumer_serves}
use oregano.Examples.Transactions.Sums.{answered_by, consumed}
use oregano.Factory.{ConnectionOptions}
use oregano.Lifecycle.{Drawn}
use oregano.RoundTrip.{request_text}
use oregano.RoundTrip.Plain.{plain_json, plain_base64}

-- The state is what has been published, beside the console.
abbrev World : Type 0
World = Console (List (String × String))

abbrev publish : String → String → Void World
publish c t w = (ok tt, record w { rest = (c, t) ∷ w.rest })

abbrev accept : ConnectionOptions → Result (Memory × (String → Bool))
accept o = ok (nothing, λ j. false)

abbrev drawn : Drawn
drawn = record {
  event_address = 1;
  address = 2;
  subscriber = 3;
  event_id = "e";
  id = "t";
  response_channel = "own";
}

abbrev request : String
request =
    request_text plain_json plain_base64 1000 "responses" "x1" 9000
      (plain_examples.objects.dump (sum_request plain_examples "p" 3 8))

abbrev adding : String → String → Exec World String
adding = on_request plain_examples "c"

consumer_serves_example :
    let w =
      listening memory flags accept nothing
        (λ j. false)
        "technical"
        drawn
        plain_json
        plain_base64
        1000
        7
        adding in
    (consumer_main memory flags accept plain_json plain_base64 1000 "technical" drawn 7 adding
      ≡ ok w)
    × (is_in channel w.managed.broker.connector.queue.queue_subscriptions ≡ true)
    × (worker_call memory flags accept nothing
          (λ j. false)
          "technical"
          drawn
          plain_json
          plain_base64
          1000
          7
          adding
          publish
          8500
          request
          (record { lines = []; rest = [] })
        ≡ (
          ok tt,
          record {
            lines = consumed plain_examples "c" channel (sum_request plain_examples "p" 3 8) 11;
            rest =
                (
                  "responses",
                  plain_json.dump (
                      framed plain_json plain_base64 "x1"
                        (plain_examples.objects.dump (answered_by plain_examples "c" 11))),
                )
                ∷ [];
          },
        ))
consumer_serves_example =
    consumer_serves memory flags accept nothing (λ j. false) "technical" drawn plain_examples
      plain_json plain_base64 1000 7 "c" "p" "responses" "x1" 3 8 9000 8500 publish
      (record { lines = []; rest = [] }) refl ground
      (arith, eq_iff "example_transaction_channel" "technical") (omega arith) (omega arith)
