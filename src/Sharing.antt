-- ===== src/Sharing.antt =====
-- Several managers on one broker, as src/implementation/EventInterface.cpp and
-- TransactionInterface.cpp set them up: each interface owns a manager, and all of them refer to the
-- broker of one wrapper (MessageBrokerWrapper.cpp). Calls of different managers interleave.
pub mod Counts
pub mod Topics
pub mod Delivery
pub mod Bounds
pub mod Retry
pub mod Blocked
pub mod Refused
mod Tests
use oregano.Base.{ℕ, zero, suc, List, [], ◌∷◌}
use oregano.Interfaces.{IMessageBroker}
use oregano.Manager.{MessageHandlerManager, Managed}
use oregano.Manager.Requests.{Request, perform}

-- `get_message_broker` of every interface answers the one broker in `broker`.
pub record Shared (S : Type 0) : Type 0 where
  pub managers : List MessageHandlerManager
  pub broker : S

module _ {C S : Type 0} (b : IMessageBroker C S) where
  -- A call of the manager at the given position; out of range there is no manager to call.
  unfoldable pub act : ℕ → Request → List MessageHandlerManager → S → Shared S
  act i r [] s = record { managers = []; broker = s }
  act zero r (m ∷ ms) s =
      let w = (perform b r (record { manager = m; broker = s })).1 in
      record { managers = w.manager ∷ ms; broker = w.broker }
  act (suc i) r (m ∷ ms) s =
      let rest = act i r ms s in record { managers = m ∷ rest.managers; broker = rest.broker }

  -- A history: which manager is called, and how.
  unfoldable pub run_all : List (ℕ × Request) → Shared S → Shared S
  run_all [] w = w
  run_all ((i, r) ∷ rs) w = run_all rs (act i r w.managers w.broker)
