-- ===== src/Broker/Tests.antt =====
-- The theorems of the broker at work.
use oregano.Base.{ℕ, String, ◌≡◌, ◌≢◌, refl, true, false, ◌-◌, arith, ok, err, String_discrete}
use text.Mathlib.TextEquality.{eq_iff}
use oregano.Dict.{find, put}
use oregano.Interfaces.RefCounts.{size_mod}
use oregano.Fixtures.{Board, board, board_topics, blank, new_broker}
use oregano.Broker.{
  Brokered, create, subscribe, unsubscribe, listen, stop_listening, increment, decrement, count_at,
  second_listener, register_event_callback, remove_event_callback, register_transaction_callback,
  remove_transaction_callback,
}
use oregano.Broker.Sync.{subscribes, unsubscribes, operate, Reach, start, later, operations_topics}
use oregano.Broker.Faults.{unsubscribe_unmatched, listen_refused}
use oregano.Broker.Callbacks.{remove-register}

abbrev two_clients : Brokered ℕ Board
two_clients =
    (operate board board_topics (subscribes "news")
      (operate board board_topics (subscribes "news") new_broker).1).1

-- The same, after one of the clients has left.
abbrev one_client : Brokered ℕ Board
one_client = (operate board board_topics (unsubscribes "news") two_clients).1

two_reached : Reach board board_topics blank one_client
unfolding create operate subscribe increment count_at find put String_discrete
two_reached =
    later (unsubscribes "news")
      (later (subscribes "news") (later (subscribes "news") start (omega arith)) (omega arith))
      (omega arith)

two-topics :
    (one_client.connector.subscribed "news" ≡ true) × (one_client.connector.listened "news" ≡ false)
unfolding create operate subscribe unsubscribe increment decrement count_at find put String_discrete
two-topics =
    operations_topics board board_topics blank (λ j h. refl) (λ j h. refl) two_reached "news" tt

-- A queue with one listener.
abbrev new_queue : Brokered ℕ Board
new_queue = (listen board "jobs" new_broker).1

news-wrapped :
    (count_at "news" (unsubscribe board "news" new_broker).1.broker.channel_subscriptions
      ≡ size_mod - 1)
    × ((subscribe board "news" (unsubscribe board "news" new_broker).1).0 ≡ ok tt)
    × ((subscribe board "news" (unsubscribe board "news" new_broker).1).1.connector
        ≡ new_broker.connector)
unfolding create count_at find
news-wrapped = unsubscribe_unmatched board new_broker "news" refl

jobs-blocked :
    let refused = (listen board "jobs" new_queue).1 in
    let stopped = (stop_listening board "jobs" refused).1 in
    ((listen board "jobs" new_queue).0 ≡ err second_listener)
    × (stopped.connector ≡ new_queue.connector)
    × ((listen board "jobs" stopped).0 ≡ err second_listener)
unfolding create listen increment count_at find put String_discrete
jobs-blocked = listen_refused board new_queue "jobs" refl

abbrev registered : Brokered ℕ Board
registered = (register_event_callback "id1" 5 new_broker).1

id1-ne-id2 : ◌≢◌ {A = String} "id1" "id2"
id1-ne-id2 = ground (arith, eq_iff "id1" "id2")

id2-removed :
    (remove_event_callback "id2" (register_event_callback "id2" 6 registered).1
      ≡ (ok tt, registered))
    × (remove_transaction_callback "id2" (register_transaction_callback "id2" 6 registered).1
        ≡ (ok tt, registered))
unfolding create register_event_callback
id2-removed = remove-register "id2" 6 registered (id1-ne-id2, tt) tt
