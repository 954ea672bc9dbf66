-- ===== src/Sharing/Counts.antt =====
-- The counts of the broker against the entries of all managers.
use oregano.Base.{
  ℕ, zero, suc, ◌+◌, ◌≤◌, ◌<◌, String, ◌≡◌, ◌≢◌, refl, sym, subst, ◌∙◌, ite, List, [], ◌∷◌, arith,
  ℕ_discrete, length, All, if_pos, if_neg,
}
use oregano.Interfaces.{IMessageBroker}
use oregano.Interfaces.RefCounts.{RefCounts, size_mod}
use oregano.Manager.{MessageHandlerManager, Managed, SubscriptionType}
use oregano.Manager.Entries.{held-le-one}
use oregano.Manager.Requests.{Request, perform}
use oregano.Manager.WellFormed.{IsWellFormed, perform-IsWellFormed}
use oregano.Manager.Registry.{perform-type}
use oregano.Manager.References.{IsNamed, entry, refs, perform-refs, perform-IsValid, perform_others}
use oregano.Sharing.{Shared, act, run_all}

pub type_discrete : Discrete SubscriptionType
type_discrete = hlevel ℕ_discrete

-- One for a manager of the type that has an entry for the channel.
abbrev pub share : SubscriptionType → MessageHandlerManager → String → ℕ
share t m j = ite (type_discrete m.subscription_type t) (entry m j) 0

-- How many managers of the type have an entry for the channel.
abbrev pub total : SubscriptionType → List MessageHandlerManager → String → ℕ
total t [] j = 0
total t (m ∷ ms) j = share t m j + total t ms j

pub total-le-length :
    (t : SubscriptionType) (ms : List MessageHandlerManager) (j : String) → total t ms j ≤ length ms
total-le-length t [] j = omega arith
total-le-length t (m ∷ ms) j =
    ground (arith, held-le-one j m.channel_subscriptions, total-le-length t ms j)

share_same :
    (t : SubscriptionType) (m : MessageHandlerManager) (j : String)
    → m.subscription_type ≡ t
    → share t m j ≡ entry m j
share_same t m j e = if_pos (type_discrete m.subscription_type t) e _ _

share_other :
    (t : SubscriptionType) (m : MessageHandlerManager) (j : String)
    → m.subscription_type ≢ t
    → share t m j ≡ 0
share_other t m j d = if_neg (type_discrete m.subscription_type t) d _ _

-- Each manager is well formed and of one of the two named types.
abbrev pub AreManagers : List MessageHandlerManager → Type 0
AreManagers = All (λ m. IsWellFormed m × IsNamed m.subscription_type)

module _ {C S : Type 0} (b : IMessageBroker C S) (l : RefCounts b) where
  -- The broker has room for one more subscription at every name.
  abbrev pub HasRoom : S → Type 0
  HasRoom s = (t : SubscriptionType) (j : String) → IsNamed t → refs b l t s j + 1 < size_mod

  abbrev pub Covers : S → List MessageHandlerManager → Type 0
  Covers s ms = (t : SubscriptionType) (j : String) → IsNamed t → total t ms j ≤ refs b l t s j

  module _ (m : MessageHandlerManager) (s : S) (r : Request) (v : IsWellFormed m)
      (n : IsNamed m.subscription_type) (u : l.IsValid s)
      (covered : (c : String) → entry m c ≤ refs b l m.subscription_type s c)
      (room : HasRoom s) where
    abbrev called : Managed S
    called = record { manager = m; broker = s }

    abbrev after : Managed S
    after = (perform b r called).1

    share-perform :
        (t : SubscriptionType) (j : String)
        → refs b l t after.broker j + share t m j ≡ refs b l t s j + share t after.manager j
    share-perform t j = elim (type_discrete m.subscription_type t) [
      | yes e ↦ omega (
        arith,
        subst
            (λ t'. refs b l t' after.broker j + entry m j ≡ refs b l t' s j + entry after.manager j)
            e (perform-refs b l called v n u covered (λ c. room m.subscription_type c n) r j),
        share_same t m j e,
        share_same t after.manager j (perform-type b r called ∙ e),
      )
      | no d ↦ omega (
        arith,
        perform_others b l called v n u covered (λ c. room m.subscription_type c n) r t d j,
        share_other t m j d,
        share_other t after.manager j (λ p. d (sym (perform-type b r called) ∙ p)),
      )
    ]

    perform_sound :
        l.IsValid after.broker
        × (IsWellFormed after.manager × IsNamed after.manager.subscription_type)
    perform_sound = (
      perform-IsValid b l called v n u covered (λ c. room m.subscription_type c n) r,
      (perform-IsWellFormed b r called v, subst IsNamed (sym (perform-type b r called)) n),
    )

  -- What one call of one manager does to the broker and to all managers.
  pub record Acted (ms : List MessageHandlerManager) (s : S) (w : Shared S) : Type 0 where
    pub valid : l.IsValid w.broker
    pub managers : AreManagers w.managers
    pub kept : length w.managers ≡ length ms
    pub moved :
        (t : SubscriptionType) (j : String)
        → refs b l t w.broker j + total t ms j ≡ refs b l t s j + total t w.managers j

  pub act-Acted :
      (i : ℕ) (r : Request) (ms : List MessageHandlerManager) (s : S)
      → AreManagers ms
      → l.IsValid s
      → Covers s ms
      → HasRoom s
      → Acted ms s (act b i r ms s)
  unfolding act
  act-Acted i r [] s vs u cov room = record {
    valid = u;
    managers = vs;
    kept = refl;
    moved = λ t j. refl;
  }
  act-Acted zero r (m ∷ ms) s vs u cov room =
      let covered : (c : String) → entry m c ≤ refs b l m.subscription_type s c = λ c.
        omega (arith, cov m.subscription_type c vs.0.1, share_same m.subscription_type m c refl) in
      let sound = perform_sound m s r vs.0.0 vs.0.1 u covered room in
      record {
        valid = sound.0;
        managers = (sound.1, vs.1);
        kept = refl;
        moved = λ t j. omega (arith, share-perform m s r vs.0.0 vs.0.1 u covered room t j);
      }
  act-Acted (suc i) r (m ∷ ms) s vs u cov room =
      let rest = act-Acted i r ms s vs.1 u (λ t j n. omega (arith, cov t j n)) room in
      record {
        valid = rest.valid;
        managers = (vs.0, rest.managers);
        kept = omega (arith, rest.kept);
        moved = λ t j. omega (arith, rest.moved t j);
      }

  -- The broker counts just the managers that have an entry.
  pub record IsBalanced (w : Shared S) : Type 0 where
    pub managers : AreManagers w.managers
    pub valid : l.IsValid w.broker
    pub counted :
        (t : SubscriptionType) (j : String)
        → IsNamed t
        → refs b l t w.broker j ≡ total t w.managers j

  act-IsBalanced :
      (i : ℕ) (r : Request) (w : Shared S)
      → length w.managers + 1 < size_mod
      → IsBalanced w
      → IsBalanced (act b i r w.managers w.broker)
  act-IsBalanced i r w few x = record {
    managers = acted.managers;
    valid = acted.valid;
    counted = λ t j n. omega (arith, acted.moved t j, x.counted t j n);
  }
    where
      acted : Acted w.managers w.broker (act b i r w.managers w.broker)
      acted =
          act-Acted i r w.managers w.broker x.managers x.valid
            (λ t j n. omega (arith, x.counted t j n))
            (λ t j n. omega (arith, x.counted t j n, total-le-length t w.managers j))

  act_kept :
      (i : ℕ) (r : Request) (ms : List MessageHandlerManager) (s : S)
      → length (act b i r ms s).managers ≡ length ms
  unfolding act
  act_kept i r [] s = refl
  act_kept zero r (m ∷ ms) s = refl
  act_kept (suc i) r (m ∷ ms) s = omega (arith, act_kept i r ms s)

  -- Whatever the managers are called to do, in whatever order, and whether the calls return or
  -- throw: the broker's count of a channel stays the number of managers that have an entry for it.
  pub run_all-IsBalanced :
      (rs : List (ℕ × Request)) (w : Shared S)
      → length w.managers + 1 < size_mod
      → IsBalanced w
      → IsBalanced (run_all b rs w)
  unfolding run_all
  run_all-IsBalanced [] w few x = x
  run_all-IsBalanced ((i, r) ∷ rs) w few x =
      run_all-IsBalanced rs (act b i r w.managers w.broker)
        (omega (arith, act_kept i r w.managers w.broker)) (act-IsBalanced i r w few x)
