-- ===== src/Manager/Tests.antt =====
-- The theorems of the manager at work, and its methods evaluated.
use oregano.Base.{
  ℕ, ◌≡◌, refl, true, false, none, some, [], ◌∷◌, Option, Exception, err, ite, ℕ_discrete,
  String_discrete, for_each,
}
use oregano.Dict.{find, put, erase, emplace}
use oregano.Broker.{
  Brokered, as_broker, subscribe, unsubscribe, listen, stop_listening, increment, decrement,
  count_at, second_listener,
}
use oregano.Broker
use oregano.Fixtures.{Board, test_broker, new_broker, new_manager, busy_calls}
use oregano.Manager.{
  Managed, event, transaction, create, add_message_handler, remove_everywhere, announce, withdraw,
  contains, without, push_new, sweep, on_message, only_one_handler,
}
use oregano.Manager.Requests.{add, remove_all, perform, run}
use oregano.Manager.WellFormed.{IsWellFormed, create-IsWellFormed, run-IsWellFormed}
use oregano.Manager.Registry.{listens, perform-listens, perform_refused, run-event}
use oregano.Manager.Dispatch.{sent, noting, calls_of, on_message-order, on_message_once}
use oregano.Manager.Faults.{add_fails_listens}

abbrev busy : Managed (Brokered ℕ Board)
busy = run test_broker busy_calls (new_manager event)

busy-IsWellFormed : IsWellFormed busy.manager
busy-IsWellFormed =
    run-IsWellFormed test_broker busy_calls (new_manager event) (create-IsWellFormed event)

-- The second registration of a handler changes nothing; the order is that of registration.
busy_entries : busy.manager.channel_subscriptions ≡ ("news", 7 ∷ 8 ∷ []) ∷ ("sport", 7 ∷ []) ∷ []
unfolding run perform add_message_handler emplace find put push_new contains announce create
    as_broker subscribe increment count_at Broker.create String_discrete ℕ_discrete
busy_entries = refl

-- Removing a handler everywhere drops the channel that it was alone on, at the broker too.
remove_everywhere_entries :
    let w = (remove_everywhere test_broker 7 busy).1 in
    (w.manager.channel_subscriptions ≡ ("news", 8 ∷ []) ∷ [])
    × (w.broker.broker.channel_subscriptions ≡ ("news", 1) ∷ [])
unfolding run perform add_message_handler emplace find put erase push_new contains announce create
    as_broker subscribe unsubscribe increment decrement count_at Broker.create String_discrete
    ℕ_discrete remove_everywhere sweep without withdraw for_each
remove_everywhere_entries = (refl, refl)

news-added : listens (run test_broker busy_calls (new_manager event)).manager "news" 8 ≡ true
unfolding String_discrete ℕ_discrete
news-added = run-event test_broker busy_calls new_broker "news" 8

news-left : listens (perform test_broker (remove_all 7) busy).1.manager "news" 7 ≡ false
unfolding ℕ_discrete
news-left = perform-listens test_broker busy busy-IsWellFormed (remove_all 7) refl "news" 7

abbrev served : Managed (Brokered ℕ Board)
served = run test_broker (add "jobs" 7 ∷ []) (new_manager transaction)

jobs-refused : perform test_broker (add "jobs" 8) served ≡ (err only_one_handler, served)
unfolding run perform add_message_handler emplace find put push_new contains announce create
    as_broker listen increment count_at Broker.create String_discrete
jobs-refused =
    perform_refused test_broker served
      (run-IsWellFormed test_broker (add "jobs" 7 ∷ []) (new_manager transaction)
        (create-IsWellFormed transaction))
      (add "jobs" 8) refl

-- Handler 7 throws, so handler 8 gets nothing.
abbrev seven_fails : ℕ → Option Exception
seven_fails h = ite (ℕ_discrete h 7) (some (Exception.foreign 1)) none

seven-first :
    on_message (noting seven_fails) busy.manager "news" "hello" []
    ≡ (err (Exception.foreign 1), sent 7 "news" "hello" ∷ [])
unfolding run perform add_message_handler emplace find put push_new contains announce create
    as_broker subscribe increment count_at Broker.create String_discrete ℕ_discrete
seven-first = on_message-order seven_fails busy.manager "news" "hello" []

called_once : calls_of 8 (on_message (noting (λ _. none)) busy.manager "news" "hello" []).1 ≡ 1
unfolding run perform add_message_handler emplace find put push_new contains announce create
    as_broker subscribe increment count_at Broker.create String_discrete ℕ_discrete listens
called_once = on_message_once busy.manager 8 "news" "hello" [] busy-IsWellFormed

-- A transaction manager on a broker on which the queue has a listener.
abbrev second : Managed (Brokered ℕ Board)
second = record { manager = create transaction; broker = served.broker }

jobs-kept :
    ((perform test_broker (add "jobs" 9) second).0 ≡ err second_listener)
    × (listens (perform test_broker (add "jobs" 9) second).1.manager "jobs" 9 ≡ true)
unfolding run perform add_message_handler emplace find put push_new contains announce create
    as_broker listen increment count_at Broker.create String_discrete
jobs-kept =
    add_fails_listens test_broker second "jobs" 9 second_listener (create-IsWellFormed transaction)
      refl refl
