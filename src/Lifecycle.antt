-- ===== src/Lifecycle.antt =====
-- src/implementation/EventInterface.cpp and TransactionInterface.cpp: their constructors and
-- destructors, with the members in the order of the headers. A manager, a subscriber and an
-- interface are known by their addresses; a callback of the broker is the manager that it calls.
pub mod Reopening
pub mod Faults
mod Tests
use oregano.Base.{
  ℕ, String, Exception, Result, ok, err, Exec, Void, and_then, pure, ◌>>=◌, ◌>>◌, List, [],
}
use oregano.Interfaces.{IMessageBroker}
use oregano.Manager.{MessageHandlerManager, event, transaction, Managed, on_broker}
use oregano.Manager
use oregano.Events
use oregano.Requester.{TransactionInterface}

-- An exception that leaves a destructor ends the program.
abbrev pub in_destructor : {S : Type 0} → Result (Unit {0}) × S → Result (Unit {0}) × S
in_destructor (ok a, s) = (ok a, s)
in_destructor (err e, s) = (err Exception.terminate, s)

-- A constructor that throws: the members that stand are destroyed, and the exception goes on.
abbrev pub unwinding : {S A : Type 0} → Void S → Result A × S → Result A × S
unwinding destroy (ok a, s) = (ok a, s)
unwinding destroy (err e, s) = and_then (λ _ t. (err e, t)) (destroy s)

pub record EventInterface : Type 0 where
  pub address : ℕ  -- of its manager
  pub manager : MessageHandlerManager
  pub callback_register_id : String

-- The addresses and names that come with a new transaction interface.
pub record Drawn : Type 0 where
  pub event_address : ℕ
  pub address : ℕ
  pub subscriber : ℕ
  pub event_id : String
  pub id : String
  pub response_channel : String

pub record Transactions : Type 0 where
  pub address : ℕ
  pub manager : MessageHandlerManager
  pub event_interface : EventInterface
  pub callback_register_id : String
  pub subscriber : ℕ
  pub responses : TransactionInterface

-- A manager's state is kept apart from that of the broker, but while it is called.
abbrev pub on_manager :
    {S A : Type 0} → Exec (Managed S) A → MessageHandlerManager → S → Result A × Managed S
on_manager f m s = f (record { manager = m; broker = s })

module _ {S : Type 0} (b : IMessageBroker ℕ S) where
  unfoldable pub create_event : ℕ → String → Exec S EventInterface
  create_event address id = do
    callback_register_id ← b.register_event_callback id address
    pure (record {
      address = address;
      manager = Manager.create event;
      callback_register_id = callback_register_id;
    })

  -- ~EventInterface
  unfoldable pub destroy_event : EventInterface → Void S
  destroy_event e s = in_destructor (b.remove_event_callback e.callback_register_id s)

  -- The body of the constructor of `TransactionInterface`, over the manager of its event interface.
  unfoldable pub connect : Drawn → Exec (Managed S) String
  connect d = do
    callback_register_id ← on_broker (b.register_transaction_callback d.id d.address)
    Events.subscribe b d.subscriber d.response_channel
    pure callback_register_id

  -- ~Subscriber, then ~EventInterface: the members, the last one first.
  unfoldable pub destroy_members : EventInterface → ℕ → Void S
  unfolding destroy_event
  destroy_members e subscriber s =
      let (r, w) = on_manager (Events.destroy b subscriber) e.manager s in
      and_then (λ _. destroy_event e) (in_destructor (r, w.broker))

  connected : Drawn → EventInterface → Result String × Managed S → Result Transactions × S
  unfolding destroy_members
  connected d e (ok callback_register_id, w) = (
    ok (record {
      address = d.address;
      manager = Manager.create transaction;
      event_interface = record e { manager = w.manager };
      callback_register_id = callback_register_id;
      subscriber = d.subscriber;
      responses = record { response_channel = d.response_channel; on_response_callbacks = [] };
    }),
    w.broker,
  )
  connected d e (err x, w) =
      unwinding (destroy_members (record e { manager = w.manager }) d.subscriber) (err x, w.broker)

  -- `ITransactionInterface::create`, with the constructor.
  unfoldable pub create_transaction : Drawn → Exec S Transactions
  unfolding create_event connect connected
  create_transaction d = do
    e ← create_event d.event_address d.event_id
    λ s. connected d e (on_manager (connect d) e.manager s)

  -- ~TransactionInterface, with the members
  unfoldable pub destroy_transaction : Transactions → Void S
  unfolding destroy_members
  destroy_transaction t s =
      and_then (λ _. destroy_members t.event_interface t.subscriber)
        (in_destructor (b.remove_transaction_callback t.callback_register_id s))
