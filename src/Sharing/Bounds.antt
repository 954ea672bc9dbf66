-- ===== src/Sharing/Bounds.antt =====
-- The counts of the broker, `size_t` in the source, under the managers of several interfaces.
use oregano.Base.{
  ℕ, zero, suc, ◌+◌, ◌≤◌, ◌<◌, String, ◌≡◌, refl, ◌∙◌, false, ite, List, [], ◌∷◌, arith, map, All,
  length, subst,
}
use oregano.Interfaces.{IMessageBroker, IMessageBrokerConnector}
use oregano.Interfaces.RefCounts.{size_mod}
use oregano.Interfaces.Topics.{Topics}
use oregano.Broker.{ConnectorCallback, as_broker, create, count_at}
use oregano.Broker.Contract.{contract}
use oregano.Manager
use oregano.Manager.{MessageHandlerManager, SubscriptionType, event, transaction}
use oregano.Manager.Entries.{held-le-one}
use oregano.Manager.References.{IsNamed}
use oregano.Manager.Registry.{perform-type}
use oregano.Manager.Requests.{Request}
use oregano.Sharing.{Shared, act, run_all}
use oregano.Sharing.Counts.{type_discrete, total, run_all-IsBalanced}
use oregano.Sharing.Topics.{opened, opened-IsBalanced}

-- How many managers are of the type, in a list of managers and in a list of types.
abbrev pub number : SubscriptionType → List SubscriptionType → ℕ
number t [] = 0
number t (x ∷ xs) = ite (type_discrete x t) 1 0 + number t xs

abbrev types : List MessageHandlerManager → List SubscriptionType
types = map (λ m. m.subscription_type)

total-le-number :
    (t : SubscriptionType) (ms : List MessageHandlerManager) (j : String)
    → total t ms j ≤ number t (types ms)
total-le-number t [] j = omega arith
total-le-number t (m ∷ ms) j =
    ground (arith, held-le-one j m.channel_subscriptions, total-le-number t ms j)

module _ {C S : Type 0} (b : IMessageBroker C S) where
  act-types :
      (i : ℕ) (r : Request) (ms : List MessageHandlerManager) (s : S)
      → types (act b i r ms s).managers ≡ types ms
  unfolding act
  act-types i r [] s = refl
  act-types zero r (m ∷ ms) s = rw (perform-type b r (record { manager = m; broker = s })) refl
  act-types (suc i) r (m ∷ ms) s = rw (act-types i r ms s) refl

  run_all-types :
      (rs : List (ℕ × Request)) (w : Shared S) → types (run_all b rs w).managers ≡ types w.managers
  unfolding run_all
  run_all-types [] w = refl
  run_all-types ((i, r) ∷ rs) w =
      run_all-types rs (act b i r w.managers w.broker) ∙ act-types i r w.managers w.broker

types-create : (ts : List SubscriptionType) → types (map Manager.create ts) ≡ ts
unfolding Manager.create
types-create [] = refl
types-create (t ∷ ts) = rw (types-create ts) refl

module _ (C : Type 0) {K : Type 0} (c : IMessageBrokerConnector ConnectorCallback K)
    (l : Topics c) where
  -- After any calls of the managers of new interfaces, on a connector that starts with no topic: the
  -- broker counts no channel more often than there are event managers, and no queue more often than
  -- there are transaction managers.
  pub run_all-le :
      (ts : List SubscriptionType) (k : K) (rs : List (ℕ × Request))
      → All IsNamed ts
      → length (map Manager.create ts) + 1 < size_mod
      → ((j : String) → l.IsTopic j → l.subscribed (create {C = C} c k).connector j ≡ false)
      → ((j : String) → l.IsTopic j → l.listened (create {C = C} c k).connector j ≡ false)
      → (j : String)
      → let b = (run_all (as_broker {C = C} c) rs (opened c l ts k)).broker.broker in
        (count_at j b.channel_subscriptions ≤ number event ts)
        × (count_at j b.queue_subscriptions ≤ number transaction ts)
  unfolding contract
  run_all-le ts k rs n few p q j =
      let after = run_all (as_broker {C = C} c) rs (opened c l ts k) in
      let x =
        run_all-IsBalanced (as_broker {C = C} c) (contract c l) rs (opened c l ts k) few
          (opened-IsBalanced c l ts k n p q) in
      let e = run_all-types (as_broker {C = C} c) rs (opened c l ts k) ∙ types-create ts in
      (
        subst (λ xs. count_at j after.broker.broker.channel_subscriptions ≤ number event xs) e
            (omega (arith, x.counted event j tt, total-le-number event after.managers j)),
        subst (λ xs. count_at j after.broker.broker.queue_subscriptions ≤ number transaction xs) e
            (omega
              (arith, x.counted transaction j tt, total-le-number transaction after.managers j)),
      )
