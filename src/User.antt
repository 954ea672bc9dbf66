-- ===== src/User.antt =====
-- src/interface/oregano: the classes that users call, as records of operations over a state, and
-- how EventInterface.cpp and TransactionInterface.cpp make them. Values that a method draws, an id,
-- an address or the time, are arguments of it.
pub mod Programs
mod Tests
use oregano.Base.{ℕ, String, Exec, Void, ok}
use oregano.Events
use oregano.Events.{Subscriber}
use oregano.Interfaces.{IMessageBroker}
use oregano.Manager.{Managed}
use oregano.Messages.{JsonLibrary, Base64}
use oregano.Requester
use oregano.Requester.{Requesting}
use oregano.Responder
use oregano.Responder.{RequestHandler}

pub record IPublisher (S : Type 0) : Type 0 where
  pub publish : String → String → Void S

-- `F` is the type of callbacks.
pub record ISubscriber (F X : Type 0) : Type 0 where
  pub subscribe : String → Void X
  pub unsubscribe : String → Void X
  pub set_on_message_callback : F → Void X

pub record IRequestHandler (F X : Type 0) : Type 0 where
  pub listen : String → Void X
  pub stop_listening : String → Void X
  pub set_on_request_callback : F → Void X

-- The id of the message, the address of the promise and the time are drawn.
pub record IRequestSender (X : Type 0) : Type 0 where
  pub send_request : String → ℕ → ℕ → String → String → ℕ → Exec X ℕ

-- A subscriber or a request handler, `H`, beside its manager and the broker.
pub record Handling (H S : Type 0) : Type 0 where
  pub handler : H
  pub managed : Managed S

abbrev pub on_managed : {H S A : Type 0} → Exec (Managed S) A → Exec (Handling H S) A
on_managed f w = let (r, m) = f w.managed in (r, record w { managed = m })

abbrev pub on_handler : {H S : Type 0} → (H → H) → Void (Handling H S)
on_handler f w = (ok tt, record w { handler = f w.handler })

module _ {C S : Type 0} (b : IMessageBroker C S) where
  unfoldable pub create_publisher : Base64 → IPublisher S
  create_publisher base64 = record { publish = Events.publish base64 b }

  unfoldable pub create_request_sender : JsonLibrary → Base64 → ℕ → IRequestSender (Requesting S)
  create_request_sender json base64 ticks_per_ms = record {
    send_request = Requester.send_request json base64 ticks_per_ms b;
  }

module _ {C S W : Type 0} (b : IMessageBroker C S) where
  -- `this` is the address of the new object.
  unfoldable pub create_subscriber :
      ℕ → ISubscriber (String → String → Void W) (Handling (Subscriber W) S)
  create_subscriber this = record {
    subscribe = λ channel. on_managed (Events.subscribe b this channel);
    unsubscribe = λ channel. on_managed (Events.unsubscribe b this channel);
    set_on_message_callback = λ callback. on_handler (Events.set_on_message_callback callback);
  }

  unfoldable pub create_request_handler :
      ℕ → IRequestHandler (String → String → Exec W String) (Handling (RequestHandler W) S)
  create_request_handler this = record {
    listen = λ channel. on_managed (Responder.listen b this channel);
    stop_listening = λ channel. on_managed (Responder.stop_listening b this channel);
    set_on_request_callback = λ callback. on_handler (Responder.set_on_request_callback callback);
  }

-- The classes that make them. A new object's address is drawn.
pub record IEventInterface (S F X : Type 0) : Type 0 where
  pub create_publisher : IPublisher S
  pub create_subscriber : ℕ → ISubscriber F X

pub record ITransactionInterface (R F X : Type 0) : Type 0 where
  pub create_request_sender : IRequestSender R
  pub create_request_handler : ℕ → IRequestHandler F X

module _ {C S W : Type 0} (b : IMessageBroker C S) (base64 : Base64) where
  unfoldable pub event_interface :
      IEventInterface S (String → String → Void W) (Handling (Subscriber W) S)
  event_interface = record {
    create_publisher = create_publisher b base64;
    create_subscriber = create_subscriber b;
  }

  unfoldable pub transaction_interface :
      JsonLibrary
      → ℕ
      → ITransactionInterface
          (Requesting S)
          (String → String → Exec W String)
          (Handling (RequestHandler W) S)
  transaction_interface json ticks_per_ms = record {
    create_request_sender = create_request_sender b json base64 ticks_per_ms;
    create_request_handler = create_request_handler b;
  }
