-- ===== src/Manager/Lookups/Tests.antt =====
-- A manager with its entries in two orders.
use oregano.Base.{ℕ, String, ◌≡◌, sym, ◌∙◌, none, [], ◌∷◌, arith}
use oregano.Broker.{Brokered}
use oregano.Dict.{find}
use oregano.Fixtures.{Board, test_broker, new_manager, busy_calls}
use oregano.Manager.{Managed, event, transaction, on_message, create}
use oregano.Manager.Dispatch.{noting}
use oregano.Manager.Lookups.{lookup, answered_all, run-lookup, run-unordered}
use text.Mathlib.TextEquality.{eq_iff}
use oregano.Manager.Registry.{perform-type}
use oregano.Manager.Requests.{Request, add, remove_all, perform, run}
use oregano.Manager.WellFormed.{IsWellFormed, create-IsWellFormed, run-IsWellFormed}

run-lookup_example :
    lookup (run test_broker busy_calls (new_manager transaction)).manager
    ≡ answered_all transaction busy_calls (lookup (create transaction))
unfolding create
run-lookup_example =
    run-lookup test_broker busy_calls (new_manager transaction) (create-IsWellFormed transaction)

-- The same two calls in either order leave the same entries in another order.
abbrev one_way : Managed (Brokered ℕ Board)
one_way = run test_broker (add "news" 7 ∷ add "sport" 8 ∷ []) (new_manager event)

abbrev other_way : Managed (Brokered ℕ Board)
other_way = run test_broker (add "sport" 8 ∷ add "news" 7 ∷ []) (new_manager event)

IsWellFormed-ways : IsWellFormed one_way.manager × IsWellFormed other_way.manager
IsWellFormed-ways = (
  run-IsWellFormed test_broker _ (new_manager event) (create-IsWellFormed event),
  run-IsWellFormed test_broker _ (new_manager event) (create-IsWellFormed event),
)

in_any_order :
    (c : String)
    → answered_all event (add "news" 7 ∷ add "sport" 8 ∷ []) (lookup (create event)) c
      ≡ answered_all event (add "sport" 8 ∷ add "news" 7 ∷ []) (lookup (create event)) c
unfolding create find
in_any_order c = ground (arith, eq_iff "news" "sport")

same_lookups : (c : String) → lookup one_way.manager c ≡ lookup other_way.manager c
unfolding create
same_lookups c =
    (λ i.
      run-lookup test_broker (add "news" 7 ∷ add "sport" 8 ∷ []) (new_manager event)
        (create-IsWellFormed event) i c)
    ∙ in_any_order c
    ∙ sym (λ i.
      run-lookup test_broker (add "sport" 8 ∷ add "news" 7 ∷ []) (new_manager event)
        (create-IsWellFormed event) i c)

type_of :
    (r r' : Request)
    → (run test_broker (r ∷ r' ∷ []) (new_manager event)).manager.subscription_type ≡ event
unfolding run create
type_of r r' =
    perform-type test_broker r' (perform test_broker r (new_manager event)).1
    ∙ perform-type test_broker r (new_manager event)

run-unordered_example :
    on_message
      (noting (λ _. none))
      (run test_broker (remove_all 8 ∷ []) one_way).manager
      "news"
      "hello"
      []
    ≡ on_message
        (noting (λ _. none))
        (run test_broker (remove_all 8 ∷ []) other_way).manager
        "news"
        "hello"
        []
run-unordered_example =
    run-unordered test_broker test_broker one_way other_way (remove_all 8 ∷ []) IsWellFormed-ways.0
      IsWellFormed-ways.1 (type_of _ _ ∙ sym (type_of _ _)) same_lookups (noting (λ _. none)) "news"
      "hello" []
