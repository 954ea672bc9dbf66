-- ===== src/Sharing/Tests.antt =====
-- The theorems on shared brokers at work: two event interfaces and one transaction interface.
use oregano.Base.{
  none, for_each, Exception, Result, err, ok, ◌+◌, ◌≤◌, String_discrete, ℕ_discrete, ℕ, ◌≡◌, refl,
  not, List, [], ◌∷◌, arith, ◌==◌,
}
use oregano.Dict.{find, put, emplace}
use oregano.Interfaces.{IMessageBrokerConnector}
use oregano.Sharing.Blocked.{queue_blocked}
use oregano.Sharing.Refused.{refused_called}
use oregano.Sharing.Retry.{subscription_never_retried}
use oregano.Fixtures.{Board, test_broker, new_manager, board, board_topics, blank}
use oregano.Broker.{
  second_listener, Brokered, ConnectorCallback, MessageBroker, call_event_callbacks,
  call_transaction_callbacks, call_back, subscribe, increment, count_at, as_broker, create,
}
use oregano.Broker.Contract.{contract}
use oregano.Manager.{
  only_one_handler, Managed, MessageHandlerManager, add_message_handler, push_new, contains,
  announce, SubscriptionType, event, transaction,
}
use oregano.Manager
use oregano.Manager.Dispatch.{sent, noting, calls_of}
use oregano.Manager.Registry.{listens}
use oregano.Manager.WellFormed.{IsWellFormed, create-IsWellFormed, run-IsWellFormed}
use oregano.Manager.Requests.{run, perform, Request, add, remove_all}
use oregano.Sharing.{run_all}
use oregano.Sharing.Delivery.{listening, passed, call_back-listening}
use oregano.Sharing.Counts.{total, IsBalanced, run_all-IsBalanced}
use oregano.Sharing.Bounds.{number, run_all-le}
use oregano.Sharing.Topics.{opened, opened-IsBalanced, run_all_topics}

abbrev interfaces : List SubscriptionType
interfaces = event ∷ event ∷ transaction ∷ []

-- Both event interfaces subscribe to "news", and one of them leaves it.
abbrev history : List (ℕ × Request)
history = (0, add "news" 7) ∷ (1, add "news" 8) ∷ (2, add "jobs" 9) ∷ (0, remove_all 7) ∷ []

run_all_topics_example :
    let after =
      run_all (as_broker board) history (opened {C = ℕ} board board_topics interfaces blank) in
    (after.broker.connector.subscribed "news" ≡ not (total event after.managers "news" == 0))
    × (after.broker.connector.listened "news" ≡ not (total transaction after.managers "news" == 0))
unfolding create Manager.create
run_all_topics_example =
    run_all_topics ℕ board board_topics interfaces blank history (tt, (tt, (tt, tt))) (omega arith)
      (λ j h. refl) (λ j h. refl) "news" tt

run_all-IsBalanced_example :
    IsBalanced
      (as_broker board)
      (contract board board_topics)
      (run_all (as_broker board) history (opened {C = ℕ} board board_topics interfaces blank))
unfolding create
run_all-IsBalanced_example =
    run_all-IsBalanced (as_broker board) (contract board board_topics) history
      (opened {C = ℕ} board board_topics interfaces blank) (omega arith)
      (opened-IsBalanced board board_topics interfaces blank (tt, (tt, (tt, tt))) (λ j h. refl)
        (λ j h. refl))

run_all-le_example :
    let b =
      (run_all
        (as_broker board)
        history
        (opened {C = ℕ} board board_topics interfaces blank)).broker.broker in
    (count_at "news" b.channel_subscriptions ≤ number event interfaces)
    × (count_at "news" b.queue_subscriptions ≤ number transaction interfaces)
unfolding create
run_all-le_example =
    run_all-le ℕ board board_topics interfaces blank history (tt, (tt, (tt, tt))) (omega arith)
      (λ j h. refl) (λ j h. refl) "news"

-- Two event interfaces with subscribers on "news", each with its callback at the broker.
abbrev calls_made : ℕ → List Request
calls_made h = add "news" h ∷ add "sport" 9 ∷ []

abbrev subscriber_of : ℕ → MessageHandlerManager
subscriber_of h = (run test_broker (calls_made h) (new_manager event)).manager

subscriber_of-IsWellFormed : (h : ℕ) → IsWellFormed (subscriber_of h)
subscriber_of-IsWellFormed h =
    run-IsWellFormed test_broker (calls_made h) (new_manager event) (create-IsWellFormed event)

abbrev wired : MessageBroker MessageHandlerManager
wired = record {
  channel_subscriptions = ("news", 2) ∷ ("sport", 2) ∷ [];
  queue_subscriptions = [];
  event_callbacks = ("a", subscriber_of 7) ∷ ("b", subscriber_of 8) ∷ [];
  transaction_callbacks = [];
}

call_back-listening_example :
    ((call_back passed call_event_callbacks wired "news" "hello" []).0 ≡ ok tt)
    × (calls_of 8 (call_back passed call_event_callbacks wired "news" "hello" []).1
        ≡ 0 + listening wired.event_callbacks "news" 8)
call_back-listening_example =
    call_back-listening call_event_callbacks wired "news" "hello" 8 []
      (subscriber_of-IsWellFormed 7, (subscriber_of-IsWellFormed 8, tt)) tt

heard_once : listening wired.event_callbacks "news" 8 ≡ 1
unfolding run perform add_message_handler emplace find put push_new contains announce Manager.create
    as_broker subscribe increment count_at create String_discrete ℕ_discrete listens
heard_once = refl

-- A connection that is down for a while.
abbrev lost : IMessageBrokerConnector ConnectorCallback Board
lost = record board { subscribe = λ t k. (err (Exception.foreign 5), k) }

abbrev fresh : Managed (Brokered ℕ Board)
fresh = record { manager = Manager.create event; broker = create lost blank }

abbrev refused : Result (Unit {0}) × Managed (Brokered ℕ Board)
refused = add_message_handler (as_broker lost) "news" 7 fresh

abbrev joined : Result (Unit {0}) × Managed (Brokered ℕ Board)
joined =
    add_message_handler (as_broker lost) "news" 8
      (record { manager = Manager.create event; broker = refused.1.broker })

subscription_never_retried_example :
    (refused.0 ≡ err (Exception.foreign 5))
    × (refused.1.broker.connector ≡ blank)
    × (add_message_handler (as_broker lost) "news" 7 refused.1 ≡ (ok tt, refused.1))
    × (joined.0 ≡ ok tt)
    × (joined.1.broker.connector ≡ blank)
unfolding create Manager.create find count_at
subscription_never_retried_example =
    subscription_never_retried lost "news" 7 fresh (Exception.foreign 5) blank
      (Manager.create event) 8 refl refl refl refl refl refl

abbrev deaf : IMessageBrokerConnector ConnectorCallback Board
deaf = record board { listen = λ t k. (err (Exception.foreign 5), k) }

abbrev unserved : Managed (Brokered ℕ Board)
unserved = record { manager = Manager.create transaction; broker = create deaf blank }

abbrev failed : Result (Unit {0}) × Managed (Brokered ℕ Board)
failed = add_message_handler (as_broker deaf) "jobs" 7 unserved

abbrev other : Result (Unit {0}) × Managed (Brokered ℕ Board)
other =
    add_message_handler (as_broker deaf) "jobs" 8
      (record { manager = Manager.create transaction; broker = failed.1.broker })

queue_blocked_example :
    (failed.0 ≡ err (Exception.foreign 5))
    × (failed.1.broker.connector ≡ blank)
    × (add_message_handler (as_broker deaf) "jobs" 7 failed.1 ≡ (err only_one_handler, failed.1))
    × (other.0 ≡ err second_listener)
    × (other.1.broker.connector ≡ blank)
unfolding create Manager.create find count_at
queue_blocked_example =
    queue_blocked deaf "jobs" 7 unserved (Exception.foreign 5) blank (Manager.create transaction) 8
      refl refl refl refl refl refl

-- Two interfaces on one broker want the same queue, and each notes what it gets.
abbrev alone : Managed (Brokered ℕ Board)
alone = new_manager transaction

abbrev taken : Result (Unit {0}) × Managed (Brokered ℕ Board)
taken = add_message_handler (as_broker board) "jobs" 7 alone

abbrev refused_listener : Result (Unit {0}) × Managed (Brokered ℕ Board)
refused_listener =
    add_message_handler (as_broker board) "jobs" 8
      (record { manager = Manager.create transaction; broker = taken.1.broker })

refused_called_example :
    (taken.0 ≡ ok tt)
    × (refused_listener.0 ≡ err second_listener)
    × (call_back passed call_transaction_callbacks
          (record wired {
            transaction_callbacks = ("a", taken.1.manager) ∷ ("b", refused_listener.1.manager) ∷ [];
          })
          "jobs"
          "work"
          []
        ≡ (ok tt, sent 7 "jobs" "work" ∷ sent 8 "jobs" "work" ∷ []))
unfolding create Manager.create find count_at for_each
refused_called_example =
    refused_called board "jobs" 7 8 alone (Manager.create transaction) (board.listen "jobs" blank).1
      (noting (λ _. none)) wired "a" "b" "work" [] refl refl refl refl refl refl
