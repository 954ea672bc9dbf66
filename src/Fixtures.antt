-- ===== src/Fixtures.antt =====
-- A connector that keeps its topics as two predicates, and states to run tests on.
pub mod Online
use oregano.Base.{ℕ, String, refl, Bool, true, false, List, [], ◌∷◌, ite, String_discrete, ok}
use oregano.Interfaces.{IMessageBroker, IMessageBrokerConnector}
use oregano.Interfaces.Topics.{Topics}
use oregano.Broker.{Brokered, ConnectorCallback, as_broker}
use oregano.Broker
use oregano.Manager
use oregano.Manager.{Managed, SubscriptionType, event, transaction}
use oregano.Manager.Requests.{Request, add}

pub record Board : Type 0 where
  pub subscribed : String → Bool
  pub listened : String → Bool

abbrev pub mark : Bool → String → (String → Bool) → String → Bool
mark b t f j = ite (String_discrete t j) b (f j)

abbrev pub board : IMessageBrokerConnector ConnectorCallback Board
board = record {
  set_on_subscriber_callback = λ d k. (ok tt, k);
  set_on_queue_callback = λ d k. (ok tt, k);
  publish = λ c m k. (ok tt, k);
  subscribe = λ t k. (ok tt, record k { subscribed = mark true t k.subscribed });
  unsubscribe = λ t k. (ok tt, record k { subscribed = mark false t k.subscribed });
  send_request = λ c m k. (ok tt, k);
  listen = λ t k. (ok tt, record k { listened = mark true t k.listened });
  stop_listening = λ t k. (ok tt, record k { listened = mark false t k.listened });
}

abbrev pub board_topics : Topics board
board_topics = record {
  IsTopic = λ j. Unit;
  subscribed = λ k. k.subscribed;
  listened = λ k. k.listened;
  subscribe_topics = λ t k j h. refl;
  unsubscribe_topics = λ t k j h. refl;
  listen_topics = λ t k j h. refl;
  stop_listening_topics = λ t k j h. refl;
  subscribe_listened = λ t k j h. refl;
  unsubscribe_listened = λ t k j h. refl;
  listen_subscribed = λ t k j h. refl;
  stop_listening_subscribed = λ t k j h. refl;
  subscribe_returns = λ t k. refl;
  unsubscribe_returns = λ t k. refl;
  listen_returns = λ t k. refl;
  stop_listening_returns = λ t k. refl;
}

abbrev pub blank : Board
blank = record { subscribed = λ j. false; listened = λ j. false }

-- A broker whose callbacks are numbers.
abbrev pub test_broker : IMessageBroker ℕ (Brokered ℕ Board)
test_broker = as_broker board

abbrev pub new_broker : Brokered ℕ Board
new_broker = Broker.create board blank

abbrev pub new_manager : SubscriptionType → Managed (Brokered ℕ Board)
new_manager t = record { manager = Manager.create t; broker = new_broker }

-- Two handlers on one channel, one of them on another channel too.
abbrev pub busy_calls : List Request
busy_calls = add "news" 7 ∷ add "news" 8 ∷ add "sport" 7 ∷ add "news" 7 ∷ []
