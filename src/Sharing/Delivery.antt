-- ===== src/Sharing/Delivery.antt =====
-- A message on its way from the connector: the broker's callbacks are those of the interfaces, each
-- of which passes the message to its manager.
use oregano.Base.{
  ℕ, ◌+◌, String, ◌≡◌, refl, none, List, [], ◌∷◌, ok, arith, All, Void, for_each, if◌then◌else◌,
}
use oregano.Broker.{
  MessageBroker, ConnectorCallback, call_event_callbacks, call_transaction_callbacks, call_back,
}
use oregano.Manager.{MessageHandlerManager, on_message}
use oregano.Manager.Dispatch.{
  Delivery, noting, calls_of, first_failure, on_message-order, on_message_once,
}
use oregano.Manager.Registry.{handlers, listens}
use oregano.Manager.WellFormed.{IsWellFormed}

abbrev pub Callbacks : Type 0
Callbacks = List (String × MessageHandlerManager)

-- How many of the managers have the handler for the channel.
abbrev pub listening : Callbacks → String → ℕ → ℕ
listening [] c h = 0
listening (f ∷ fs) c h = (if listens f.1 c h then 1 else 0) + listening fs c h

-- Handlers that return pass the message on.
abbrev pub passed : MessageHandlerManager → String → String → Void (List Delivery)
passed m = on_message (noting (λ _. none)) m

no_failure : (hs : List ℕ) → first_failure (λ _. none) hs ≡ ok tt
no_failure [] = refl
no_failure (h ∷ hs) = no_failure hs

passed-ok :
    (m : MessageHandlerManager) (c t : String) (log : List Delivery)
    → passed m c t log ≡ (ok tt, (passed m c t log).1)
passed-ok m c t log = rw (on_message-order (λ _. none) m c t log, no_failure (handlers m c)) refl

for_each-passed :
    (fs : Callbacks) (c t : String) (h : ℕ) (log : List Delivery)
    → All (λ f. IsWellFormed f.1) fs
    → ((for_each (λ f. passed f.1 c t) fs log).0 ≡ ok tt)
      × (calls_of h (for_each (λ f. passed f.1 c t) fs log).1 ≡ calls_of h log + listening fs c h)
unfolding for_each
for_each-passed [] c t h log v = (refl, omega arith)
for_each-passed (f ∷ fs) c t h log v =
    let rest = for_each-passed fs c t h (passed f.1 c t log).1 v.1 in
    rw (passed-ok f.1 c t log) (rest.0, omega (arith, rest.1, on_message_once f.1 h c t log v.0))

-- When no handler throws and the managers are well formed: an event calls each handler once for
-- every event interface whose manager has it for the channel, and a request likewise over the
-- transaction interfaces; nothing else is called, and nothing is thrown.
pub call_back-listening :
    (d : ConnectorCallback) (b : MessageBroker MessageHandlerManager) (c t : String) (h : ℕ)
    (log : List Delivery)
    → All (λ f. IsWellFormed f.1) b.event_callbacks
    → All (λ f. IsWellFormed f.1) b.transaction_callbacks
    → ((call_back passed d b c t log).0 ≡ ok tt)
      × (calls_of h (call_back passed d b c t log).1
          ≡ calls_of h log + (elim d [
            | call_event_callbacks ↦ listening b.event_callbacks c h
            | call_transaction_callbacks ↦ listening b.transaction_callbacks c h
          ]))
unfolding call_back
call_back-listening call_event_callbacks b c t h log v u =
    for_each-passed b.event_callbacks c t h log v
call_back-listening call_transaction_callbacks b c t h log v u =
    for_each-passed b.transaction_callbacks c t h log u
