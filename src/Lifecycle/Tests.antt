-- ===== src/Lifecycle/Tests.antt =====
-- A transaction interface on a board, and on a board that cannot subscribe.
use oregano.Base.{◌≡◌, refl, false, true, [], ◌∷◌, ok, err, Exception, ◌>>=◌}
use oregano.Dict.{find}
use oregano.Interfaces.{IMessageBrokerConnector}
use oregano.Broker.{ConnectorCallback, as_broker, create}
use oregano.Fixtures.{Board, board, board_topics, test_broker, new_broker, mark}
use oregano.Lifecycle.{Drawn, create_transaction, destroy_transaction}
use oregano.Lifecycle.Reopening.{reopening}
use oregano.Lifecycle.Faults.{create_throws}

abbrev drawn : Drawn
drawn = record {
  event_address = 20;
  address = 21;
  subscriber = 22;
  event_id = "0a";
  id = "0b";
  response_channel = "0c";
}

abbrev unreachable : Exception
unreachable = Exception.foreign 5

-- A board whose every `subscribe` fails.
abbrev mute : IMessageBrokerConnector ConnectorCallback Board
mute = record board { subscribe = λ t k. (err unreachable, k) }

reopening_example :
    (create_transaction test_broker drawn >>= destroy_transaction test_broker) new_broker ≡ (
      ok tt,
      record new_broker {
        connector = record (new_broker.connector) {
          subscribed = mark false "0c" (mark true "0c" new_broker.connector.subscribed);
        };
      },
    )
unfolding create find
reopening_example = reopening board board_topics drawn new_broker tt tt refl

create_throws_example : create_transaction (as_broker mute) drawn new_broker ≡ (
  err unreachable,
  record new_broker {
    broker = record (new_broker.broker) { transaction_callbacks = ("0b", 21) ∷ [] };
    connector = record (new_broker.connector) {
      subscribed = mark false "0c" new_broker.connector.subscribed;
    };
  },
)
unfolding create find
create_throws_example = create_throws mute drawn new_broker tt refl refl refl
