-- ===== src/Connector/Queue/Listed.antt =====
-- The queues of the connector as the set that Interfaces/Topics asks for.
use oregano.Base.{
  String, ◌≡◌, refl, Bool, true, false, List, [], ◌∷◌, ◌++◌, ite, String_discrete, arith,
}
use oregano.Connector.Redis.{RedisLists}
use oregano.Connector.Queue.{QueueState, remove, listen, stop_listening}

abbrev pub is_in : String → List String → Bool
is_in q [] = false
is_in q (x ∷ xs) = ite (String_discrete x q) true (is_in q xs)

is_in-append :
    (j q : String) (xs : List String)
    → is_in j (xs ++ q ∷ []) ≡ ite (String_discrete q j) true (is_in j xs)
is_in-append j q [] = refl
is_in-append j q (x ∷ xs) = ground (arith, is_in-append j q xs)

is_in-remove :
    (j q : String) (xs : List String)
    → is_in j (remove q xs) ≡ ite (String_discrete q j) false (is_in j xs)
unfolding remove
is_in-remove j q [] = ground arith
is_in-remove j q (x ∷ xs) = ground (arith, is_in-remove j q xs)

-- `listen` adds just its queue to the queues of the connector, and `stop_listening` takes just its
-- queue out, however often it was added.
pub listen-stop_listening :
    {R : Type 0} (redis : RedisLists R) (q j : String) (s : QueueState) (r : R)
    → (is_in j (listen redis q s r).0.queue_subscriptions
        ≡ ite (String_discrete q j) true (is_in j s.queue_subscriptions))
      × (is_in j (stop_listening redis q s r).0.queue_subscriptions
          ≡ ite (String_discrete q j) false (is_in j s.queue_subscriptions))
unfolding listen stop_listening
listen-stop_listening redis q j s r =
    (is_in-append j q s.queue_subscriptions, is_in-remove j q s.queue_subscriptions)
