-- ===== src/Connector/Queue/Wakeup.antt =====
-- The worker against `listen` and `stop_listening`, which change the queues while it waits.
use oregano.Base.{String, ◌≡◌, none, List, [], ◌∷◌, arith, All, Bool-cases, inl, inr}
use oregano.Connector.Redis.{RedisLists}
use oregano.Connector.Queue.{popping, System, Reach}
use oregano.Connector.Queue.First.{StartsWith}
use oregano.Connector.Queue.Invariant.{Reach-Inv}

module _ {R : Type 0} (redis : RedisLists R) where
  open redis use {lists, brpop, brpop_blocks}

  pub silent :
      (t : String) (qs : List String) (r : R)
      → StartsWith t qs
      → All (λ q. lists r q ≡ []) qs
      → lists r t ≡ []
  silent t [] r h a = absurd h
  silent t (q ∷ qs) r h a = rw⁻¹ h (a.0)

  module _ {technical_channel : String} {server : R} where
    up_to_date :
        {s : System R}
        → Reach redis technical_channel server s
        → s.place ≡ popping
        → brpop s.queues s.server ≡ none
        → s.queues ≡ s.state.queue_subscriptions
    up_to_date {s} r p b =
        let v = Reach-Inv redis r in
        let quiet = brpop_blocks s.queues s.server b in
        elim (Bool-cases s.state.queue_subscriptions_changed) [
          | inl e ↦ ground (
            arith,
            v.awake p e,
            silent s.state.technical_channel s.queues s.server (v.listening p) quiet,
          )
          | inr e ↦ v.copied e
        ]

    -- No change of the subscriptions is slept through: whenever the worker is blocked in BRPOP, the
    -- queues it waits for are the ones subscribed to, and every one of them is empty.
    pub no_lost_wakeup :
        {s : System R}
        → Reach redis technical_channel server s
        → s.place ≡ popping
        → brpop s.queues s.server ≡ none
        → (s.queues ≡ s.state.queue_subscriptions)
          × All (λ q. lists s.server q ≡ []) s.state.queue_subscriptions
    no_lost_wakeup {s} r p b =
        (up_to_date r p b, rw⁻¹ (up_to_date r p b) (brpop_blocks s.queues s.server b))
