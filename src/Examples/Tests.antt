-- ===== src/Examples/Tests.antt =====
-- The programs at work on a server that accepts every connection.
use oregano.Base.{ℕ, String, ◌≡◌, refl, Bool, false, true, none, some, [], ◌∷◌, Result, ok, arith}
use text.Mathlib.TextEquality.{eq_iff}
use oregano.Broker.{Brokered, as_broker, call_back}
use oregano.Connector.Memory.{Memory, memory, flags, nothing}
use oregano.Connector.Methods.{RedisBrokerConnector, connector, on_message}
use oregano.Events.{Subscriber, receive}
use oregano.Examples.{Console}
use oregano.Examples.Events.{event, publish_rounds, show_message, subscriber_main, receiving_at}
use oregano.Examples.Events
use oregano.Examples.Events.Delivered.{
  publications, announcements, publish_rounds_lem, subscriber_shows,
}
use oregano.Examples.Plain.{plain_examples}
use oregano.Examples.Transactions.{Round, sum_request, sum_response, produce_round, on_request}
use oregano.Examples.Transactions.Rounds.{responded, round_lines, produce_round_lem}
use oregano.Examples.Transactions.Sums.{answered_by, consumed, on_request_lem}
use oregano.Factory.{ConnectionOptions}
use oregano.Broker
use oregano.Dict.{find}
use oregano.Fixtures.{Board, test_broker, new_broker}
use oregano.Fixtures.Online.{online}
use oregano.Requester.{Requesting}
use oregano.Manager
use oregano.RoundTrip.Plain.{plain_json, plain_base64}
use oregano.User.{Handling, create_request_sender, event_interface}

abbrev accept : ConnectionOptions → Result (Memory × (String → Bool))
accept o = ok (nothing, λ j. false)

-- Numbers are written in no particular way here.
abbrev to_string : ℕ → String
to_string n = "now"

abbrev connected : Console (Brokered ℕ (RedisBrokerConnector Memory (String → Bool)))
connected = record {
  lines = [];
  rest = record {
    broker = record {
      channel_subscriptions = [];
      queue_subscriptions = [];
      event_callbacks = [];
      transaction_callbacks = [];
    };
    connector = online;
  };
}

publish_rounds_lem_example :
    publish_rounds plain_examples to_string
      (λ n. 0)
      ((event_interface {W = Unit {0}}
        (as_broker (connector memory flags))
        plain_base64).create_publisher)
      "p"
      (100 ∷ 300 ∷ [])
      0
      connected
    ≡ (
      ok tt,
      record {
        lines =
            announcements plain_examples to_string plain_base64 memory flags "p" (100 ∷ 300 ∷ []) 0;
        rest = record (connected.rest) {
          connector = record online {
            channels =
                publications plain_examples to_string plain_base64 memory flags "p"
                  (100 ∷ 300 ∷ [])
                  0
                  online.channels;
          };
        };
      },
    )
publish_rounds_lem_example =
    publish_rounds_lem plain_examples to_string plain_base64 memory flags (λ n. 0) "p"
      (100 ∷ 300 ∷ []) 0 connected (omega arith)

abbrev shown : Console (Unit {0})
shown = record { lines = []; rest = tt }

subscriber_shows_example :
    (w : Handling
      (Subscriber (Console (Unit {0})))
      (Brokered ℕ (RedisBrokerConnector Memory (String → Bool))))
    × (subscriber_main memory flags accept plain_base64 "technical" 1 "a" 7
          (show_message plain_examples to_string 400)
        ≡ ok w)
    × (flags.subscribed w.managed.broker.connector.channels Events.channel ≡ true)
    × (on_message memory flags
          (λ d.
            call_back
              (λ _. Manager.on_message (receive plain_base64 (λ _. w.handler)) w.managed.manager)
              d
              w.managed.broker.broker)
          w.managed.broker.connector
          Events.channel
          (plain_base64.encode
            (plain_examples.objects.dump (event plain_examples to_string "p" 100 0)))
          shown
        ≡ (
          ok tt,
          record {
            lines =
                receiving_at Events.channel "now"
                ∷ plain_examples.dump_indented (event plain_examples to_string "p" 100 0)
                ∷ ""
                ∷ [];
            rest = tt;
          },
        ))
subscriber_shows_example =
    subscriber_shows plain_examples to_string plain_base64 memory flags accept nothing (λ j. false)
      "technical" 1 "a" 7 "p" 100 0 400 shown refl ground
      (arith, eq_iff "example_event_channel" "technical")

-- The first request is answered, the second times out.
abbrev half : Round
half = record {
  a = 3;
  b = 8;
  first_id = "x1";
  first_promise = 5;
  first_now = 7000;
  first = responded plain_examples (some (sum_response plain_examples "c" 11));
  second_id = "x2";
  second_promise = 6;
  second_now = 7100;
  second = responded plain_examples none;
}

abbrev producing : Console (Requesting (Brokered ℕ Board))
producing = record {
  lines = [];
  rest = record {
    transaction = record { response_channel = "responses"; on_response_callbacks = [] };
    broker = new_broker;
  };
}

produce_round_lem_example :
    produce_round plain_examples
      (create_request_sender test_broker plain_json plain_base64 1000)
      "p"
      half
      producing
    ≡ (
      ok tt,
      record producing {
        lines =
            round_lines plain_examples
              (sum_request plain_examples "p" 3 8)
              (some (sum_response plain_examples "c" 11))
              none;
      },
    )
unfolding find as_broker Broker.send_request
produce_round_lem_example =
    produce_round_lem plain_examples test_broker plain_json plain_base64 1000 "p" half producing
      (some (sum_response plain_examples "c" 11)) none new_broker new_broker refl refl refl refl
      refl refl

-- 2^32 - 1 and 3 make 2.
sum-wrapped :
    on_request plain_examples "c" "work"
      (plain_examples.objects.dump (sum_request plain_examples "p" 4294967295 3))
      shown
    ≡ (
      ok (plain_examples.objects.dump (answered_by plain_examples "c" 2)),
      record {
        lines = consumed plain_examples "c" "work" (sum_request plain_examples "p" 4294967295 3) 2;
        rest = tt;
      },
    )
sum-wrapped = on_request_lem plain_examples "c" "work" "p" 4294967295 3 shown
