-- ===== src/Examples/Events.antt =====
-- examples/pubsub: the publisher, which sends a message in each round of its loop, and the
-- subscriber, which shows what it gets. Between two rounds the publisher sleeps.
pub mod Running
pub mod Delivered
use Prim.Native.String.{◌++◌}
use oregano.Base.{
  ℕ, ◌+◌, ◌^◌, ltb, if◌then◌else◌, String, List, [], ◌∷◌, Result, ok, err, Exec, Void, pure,
  and_then, ◌>>=◌, ◌>>◌,
}
use oregano.Broker.{Brokered, as_broker}
use oregano.Connector.Methods.{RedisBrokerConnector, connector}
use oregano.Connector.Redis.{RedisLists, RedisChannels}
use oregano.Events
use oregano.Events.{Subscriber}
use oregano.Examples.{
  configuration, main_then, created_then, Member, ExampleJson, Console, print, on_rest,
}
use oregano.Factory.{ConnectionOptions, create_wrapper}
use oregano.Lifecycle.{EventInterface, create_event}
use oregano.Messages.{Base64, text, number, or_throw, parse_error}
use oregano.User.{Handling, IPublisher, ISubscriber, event_interface}
use oregano.User.Programs.{receiving}

abbrev pub channel : String
channel = "example_event_channel"

-- The first lines that the programs write for a message.
abbrev pub publishing : String
publishing = "Publishing message on channel " ++ channel

abbrev pub receiving_at : String → String → String
receiving_at c now = "Receiving message on channel " ++ c ++ " at " ++ now

-- `to_string` is std::to_string.
module _ (json : ExampleJson) (to_string : ℕ → String) where
  open json use {objects, dump_indented}
  open objects use {Json, empty, write, dump, parse}

  -- The message of a round, with the time in milliseconds and the number of rounds before.
  unfoldable pub event : String → ℕ → ℕ → Json
  event id now count =
      write Member.message_count (number count)
        (write Member.timestamp (text (to_string now)) (write Member.id (text id) empty))

  -- One round; the result is the new `count`, an `int`. Past 2^31 - 1 the language does not define
  -- what it is: `overflowed` is whatever the machine makes of it.
  unfoldable pub publish_round :
      {S : Type 0} → (ℕ → ℕ) → IPublisher S → String → ℕ → ℕ → Exec (Console S) ℕ
  unfolding print
  publish_round overflowed publisher id now count = do
    print (publishing ∷ dump_indented (event id now count) ∷ "" ∷ [])
    on_rest (publisher.publish channel (dump (event id now count)))
    pure (if ltb (count + 1) (2 ^ 31) then count + 1 else overflowed (count + 1))

  -- The rounds at the given times.
  unfoldable pub publish_rounds :
      {S : Type 0} → (ℕ → ℕ) → IPublisher S → String → List ℕ → ℕ → Void (Console S)
  publish_rounds overflowed publisher id [] count = pure tt
  publish_rounds overflowed publisher id (now ∷ nows) count = do
    next ← publish_round overflowed publisher id now count
    publish_rounds overflowed publisher id nows next

  -- The callback of the subscriber, at the time `now`.
  unfoldable pub show_message : {S : Type 0} → ℕ → String → String → Void (Console S)
  unfolding print
  show_message now c message = do
    print (receiving_at c (to_string now) ∷ [])
    json ← or_throw parse_error (parse message)
    print (dump_indented json ∷ "" ∷ [])

module _ {R P : Type 0} (lists : RedisLists R) (pubsub : RedisChannels P)
    (connect : ConnectionOptions → Result (R × P)) (base64 : Base64) where
  -- The event interface of a program, on a new broker; the four draws are the technical channel,
  -- and the address and the registration of the manager.
  unfoldable pub event_program :
      String → ℕ → String → Result (EventInterface × Brokered ℕ (RedisBrokerConnector R P))
  unfolding configuration create_wrapper create_event
  event_program technical_channel address id =
      created_then
        (λ s.
          main_then (λ e t. ok (e, t))
            (create_event (as_broker (connector lists pubsub)) address id s))
        (create_wrapper lists pubsub connect configuration technical_channel)

  -- The subscriber up to its last loop, with `callback` for the callback.
  unfoldable pub subscriber_main :
      {W : Type 0}
      → String
      → ℕ
      → String
      → ℕ
      → (String → String → Void W)
      → Result (Handling (Subscriber W) (Brokered ℕ (RedisBrokerConnector R P)))
  unfolding event_program event_interface
  subscriber_main technical_channel address id this callback =
      created_then
        (λ (e, s).
          main_then (λ _ w. ok w)
            (receiving
              ((event_interface (as_broker (connector lists pubsub)) base64).create_subscriber this)
              callback channel
              (record {
                handler = Events.create;
                managed = record { manager = e.manager; broker = s };
              })))
        (event_program technical_channel address id)
