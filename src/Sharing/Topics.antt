-- ===== src/Sharing/Topics.antt =====
-- The managers over the real broker: what the connector is subscribed to.
use oregano.Base.{
  ℕ, ◌+◌, ◌<◌, String, ◌≡◌, refl, ◌∙◌, ap, false, not, List, [], ◌∷◌, arith, sym, map, All, length,
  ◌==◌,
}
use oregano.Interfaces.{IMessageBrokerConnector}
use oregano.Interfaces.RefCounts.{size_mod}
use oregano.Interfaces.Topics.{Topics}
use oregano.Broker.{Brokered, ConnectorCallback, as_broker, create, count_at}
use oregano.Broker.Contract.{contract, create-IsSound}
use oregano.Dict.{find}
use oregano.Manager
use oregano.Manager.{SubscriptionType, event, transaction, other}
use oregano.Manager.Entries.{held}
use oregano.Manager.WellFormed.{create-IsWellFormed}
use oregano.Manager.References.{IsNamed, refs}
use oregano.Manager.Requests.{Request}
use oregano.Sharing.{Shared, run_all}
use oregano.Sharing.Counts.{total, AreManagers, IsBalanced, run_all-IsBalanced}

total-create :
    (t : SubscriptionType) (ts : List SubscriptionType) (j : String)
    → total t (map Manager.create ts) j ≡ 0
unfolding Manager.create held find
total-create t [] j = refl
total-create t (x ∷ ts) j = ground (arith, total-create t ts j)

create-AreManagers :
    (ts : List SubscriptionType) → All IsNamed ts → AreManagers (map Manager.create ts)
create-AreManagers [] n = tt
create-AreManagers (t ∷ ts) n =
    ((create-IsWellFormed t, unfold Manager.create in n.0), create-AreManagers ts n.1)

module _ {C K : Type 0} (c : IMessageBrokerConnector ConnectorCallback K) (l : Topics c) where
  -- New interfaces, each with a manager of the given type, on a new broker.
  abbrev pub opened : List SubscriptionType → K → Shared (Brokered C K)
  opened ts k = record { managers = map Manager.create ts; broker = create c k }

  pub opened-IsBalanced :
      (ts : List SubscriptionType) (k : K)
      → All IsNamed ts
      → ((j : String) → l.IsTopic j → l.subscribed (create {C = C} c k).connector j ≡ false)
      → ((j : String) → l.IsTopic j → l.listened (create {C = C} c k).connector j ≡ false)
      → IsBalanced (as_broker c) (contract c l) (opened ts k)
  unfolding contract as_broker create count_at find
  opened-IsBalanced ts k n p q = record {
    managers = create-AreManagers ts n;
    valid = create-IsSound c l k p q;
    counted = λ t j m. counts_nothing t j ∙ sym (total-create t ts j);
  }
    where
      counts_nothing :
          (t : SubscriptionType) (j : String)
          → refs (as_broker c) (contract {C = C} c l) t (create c k) j ≡ 0
      counts_nothing event j = refl
      counts_nothing transaction j = refl
      counts_nothing (other i) j = refl

  synced_topics :
      (w : Shared (Brokered C K))
      → IsBalanced (as_broker c) (contract c l) w
      → (j : String) → l.IsTopic j
      → (l.subscribed w.broker.connector j ≡ not (total event w.managers j == 0))
        × (l.listened w.broker.connector j ≡ not (total transaction w.managers j == 0))
  unfolding contract as_broker
  synced_topics w x j h = (
    x.valid.synced.channels j h ∙ ap (λ n. not (n == 0)) (x.counted event j tt),
    x.valid.synced.queues j h ∙ ap (λ n. not (n == 0)) (x.counted transaction j tt),
  )

module _ (C : Type 0) {K : Type 0} (c : IMessageBrokerConnector ConnectorCallback K)
    (l : Topics c) where
  -- After any calls of the managers of new interfaces, on a connector that starts with no topic:
  -- of the names that are topics, the connector is subscribed to those for which some event manager
  -- has an entry, and listens to those for which some transaction manager has one, and to no other.
  pub run_all_topics :
      (ts : List SubscriptionType) (k : K) (rs : List (ℕ × Request))
      → All IsNamed ts
      → length (map Manager.create ts) + 1 < size_mod
      → ((j : String) → l.IsTopic j → l.subscribed (create {C = C} c k).connector j ≡ false)
      → ((j : String) → l.IsTopic j → l.listened (create {C = C} c k).connector j ≡ false)
      → (j : String) → l.IsTopic j
      → let after = run_all (as_broker {C = C} c) rs (opened c l ts k) in
        (l.subscribed after.broker.connector j ≡ not (total event after.managers j == 0))
        × (l.listened after.broker.connector j ≡ not (total transaction after.managers j == 0))
  run_all_topics ts k rs n few p q j h =
      synced_topics c l (run_all (as_broker c) rs (opened c l ts k))
        (run_all-IsBalanced (as_broker {C = C} c) (contract c l) rs (opened c l ts k) few
          (opened-IsBalanced c l ts k n p q))
        j h
