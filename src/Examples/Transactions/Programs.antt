-- ===== src/Examples/Transactions/Programs.antt =====
-- The consumer up to its last loop, and the producer up to its first round.
pub mod Serving
mod Tests
use oregano.Base.{ℕ, String, [], Result, ok, Exec}
use oregano.Broker.{Brokered, as_broker}
use oregano.Connector.Methods.{RedisBrokerConnector, connector}
use oregano.Connector.Redis.{RedisLists, RedisChannels}
use oregano.Examples.{configuration, main_then, created_then}
use oregano.Examples.Transactions.{channel}
use oregano.Factory.{ConnectionOptions, create_wrapper}
use oregano.Lifecycle.{Drawn, Transactions, create_transaction}
use oregano.Messages.{JsonLibrary, Base64}
use oregano.Requester.{Requesting}
use oregano.Responder
use oregano.Responder.{RequestHandler}
use oregano.User.{Handling, IRequestHandler, transaction_interface}
use oregano.User.Programs.{serving}

module _ {R P : Type 0} (lists : RedisLists R) (pubsub : RedisChannels P)
    (connect : ConnectionOptions → Result (R × P)) where
  -- The transaction interface of a program, on a new broker.
  unfoldable pub transaction_program :
      String → Drawn → Result (Transactions × Brokered ℕ (RedisBrokerConnector R P))
  unfolding configuration create_wrapper create_transaction
  transaction_program technical_channel d =
      created_then
        (λ s.
          main_then (λ t u. ok (t, u))
            (create_transaction (as_broker (connector lists pubsub)) d s))
        (create_wrapper lists pubsub connect configuration technical_channel)

  -- The producer, with the state that its request sender has.
  unfoldable pub producer_main :
      String → Drawn → Result (Requesting (Brokered ℕ (RedisBrokerConnector R P)))
  unfolding transaction_program
  producer_main technical_channel d =
      created_then (λ (t, u). ok (record { transaction = t.responses; broker = u }))
        (transaction_program technical_channel d)

  -- The consumer, with `callback` for the callback.
  unfoldable pub consumer_main :
      {W : Type 0}
      → JsonLibrary
      → Base64
      → ℕ
      → String
      → Drawn
      → ℕ
      → (String → String → Exec W String)
      → Result (Handling (RequestHandler W) (Brokered ℕ (RedisBrokerConnector R P)))
  unfolding transaction_program transaction_interface
  consumer_main json base64 ticks_per_ms technical_channel d this callback =
      created_then
        (λ (t, u).
          main_then (λ _ w. ok w)
            (serving
              ((transaction_interface (as_broker (connector lists pubsub)) base64 json
                  ticks_per_ms).create_request_handler
                this)
              callback channel
              (record {
                handler = Responder.create;
                managed = record { manager = t.manager; broker = u };
              })))
        (transaction_program technical_channel d)
