-- ===== src/Manager/Faults.antt =====
-- What is left when the broker throws at the first handler of a channel.
use oregano.Base.{ℕ, String, ◌≡◌, true, none, arith, Exception, err}
use oregano.Dict.{find}
use oregano.Interfaces.{IMessageBroker}
use oregano.Manager.{Managed, announce, add_message_handler}
use oregano.Manager.Cases.{add_cases}
use oregano.Manager.Registry.{listens, perform-listens}
use oregano.Manager.Requests.{add, perform}
use oregano.Manager.WellFormed.{IsWellFormed}

module _ {C S : Type 0} (b : IMessageBroker C S) (w : Managed S) where
  open w.manager use {subscription_type as t, channel_subscriptions as subs}

  add_fails :
      (c : String) (h : ℕ) (e : Exception)
      → find c subs ≡ none
      → (announce b t c w.broker).0 ≡ err e
      → (add_message_handler b c h w).0 ≡ err e
  add_fails c h e free f =
      add_cases b c h w (λ r. r.0 ≡ err e) (λ _. f) (λ xs p s. ground arith)
        (λ xs p s. ground arith)

  -- The exception of the broker reaches the caller, but the handler stays in the manager: it gets
  -- the messages of the channel that it was refused.
  pub add_fails_listens :
      (c : String) (h : ℕ) (e : Exception)
      → IsWellFormed w.manager
      → find c subs ≡ none
      → (announce b t c w.broker).0 ≡ err e
      → ((perform b (add c h) w).0 ≡ err e) × (listens (perform b (add c h) w).1.manager c h ≡ true)
  unfolding perform
  add_fails_listens c h e v free f =
      (add_fails c h e free f, ground (arith, perform-listens b w v (add c h) (ground arith) c h))
