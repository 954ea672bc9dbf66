-- ===== src/Examples/Events/Delivered.antt =====
-- The two programs together: what the publisher sends is what the subscriber shows.
use oregano.Base.{
  length, suc, arith, ◌<◌, ◌^◌, ltb, if◌then◌else◌, ℕ, ◌+◌, String, ◌≡◌, ◌≢◌, refl, ◌∙◌, true, List,
  [], ◌∷◌, ◌++◌, Result, ok, Void,
}
use mathlib.Core.List.{append-nil, append_assoc}
use oregano.Broker.{
  Brokered, as_broker, call_back, call_event_callbacks, call_transaction_callbacks,
}
use oregano.Broker
use oregano.Connector.Methods.{RedisBrokerConnector, connector, on_message}
use oregano.Connector.Methods
use oregano.Connector.Redis.{RedisLists, RedisChannels}
use oregano.Events
use oregano.Events.{Subscriber}
use oregano.Messages.{text, number}
use oregano.Examples.{local_server, Member, ExampleJson, Console, print}
use oregano.Examples.Events.{
  channel, receiving_at, event, publish_round, publish_rounds, show_message, subscriber_main,
}
use oregano.Examples.Events.Running.{running, main-running, running-subscribed, running-calls}
use oregano.Factory.{ConnectionOptions}
use oregano.Manager
use oregano.Manager.{SubscriptionType}
use oregano.Messages.{Base64}
use oregano.User.{Handling, create_publisher, event_interface}

module _ (json : ExampleJson) (to_string : ℕ → String) (base64 : Base64) {R P : Type 0}
    (lists : RedisLists R) (pubsub : RedisChannels P) where
  open json use {objects, dump_indented}
  open objects use {Json, empty, write, dump, parse-dump}

  -- The message that is due: an object with the publisher's id, the time and the number.
  abbrev pub numbered : String → ℕ → ℕ → Json
  numbered id now count =
      write Member.message_count (number count)
        (write Member.timestamp (text (to_string now)) (write Member.id (text id) empty))

  -- what the publisher hands to the connection, round by round
  abbrev pub publications : String → List ℕ → ℕ → P → P
  publications id [] count p = p
  publications id (now ∷ nows) count p =
      publications id nows (count + 1)
        (pubsub.publish "example_event_channel" (base64.encode (dump (numbered id now count))) p)

  -- what the publisher writes, round by round
  abbrev pub announcements : String → List ℕ → ℕ → List String
  announcements id [] count = []
  announcements id (now ∷ nows) count =
      "Publishing message on channel example_event_channel"
      ∷ dump_indented (numbered id now count)
      ∷ ""
      ∷ announcements id nows (count + 1)

  next-small :
      (overflowed : ℕ → ℕ) (count rest : ℕ)
      → count + suc rest < 2 ^ 31
      → (if ltb (count + 1) (2 ^ 31) then count + 1 else overflowed (count + 1)) ≡ count + 1
  next-small overflowed count rest h = ground arith

  -- The rounds of the publisher on a broker of its own, where the first number and the number of the
  -- rounds add up to less than 2^31, at which an `int` overflows: no round throws, each message has
  -- the publisher's id, the time of its round and a number, one more each time, and each is written
  -- and handed to the connection, encoded, in that order.
  pub publish_rounds_lem :
      {C : Type 0} (overflowed : ℕ → ℕ) (id : String) (nows : List ℕ) (count : ℕ)
      (w : Console (Brokered C (RedisBrokerConnector R P)))
      → count + length nows < 2 ^ 31
      → publish_rounds json to_string overflowed
          ((event_interface {W = Unit {0}}
            (as_broker (connector lists pubsub))
            base64).create_publisher)
          id
          nows
          count
          w
        ≡ (
          ok tt,
          record {
            lines = w.lines ++ announcements id nows count;
            rest = record (w.rest) {
              connector = record (w.rest.connector) {
                channels = publications id nows count w.rest.connector.channels;
              };
            };
          },
        )
  unfolding publish_rounds publish_round event print event_interface as_broker connector
      Broker.publish Methods.publish create_publisher Events.publish
  publish_rounds_lem overflowed id [] count w h = rw append-nil refl
  publish_rounds_lem overflowed id (now ∷ nows) count w h =
      rw (next-small overflowed count (length nows) h)
        (publish_rounds_lem overflowed id nows (count + 1) _ (omega arith) ∙ rw append_assoc refl)

  module _ {S : Type 0} (connect : ConnectionOptions → Result (R × P)) (server : R) (channels : P)
      (technical_channel : String) (address : ℕ) (id : String) (this : ℕ) where
    -- The subscriber connects to the local server, by the default user: if the client connects, the
    -- program comes to its last loop with the connection subscribed to its channel. A message of
    -- the publisher that the connection brings then, at the time `now`, is shown whole, and no
    -- exception is thrown.
    pub subscriber_shows :
        (publisher_id : String) (sent count now : ℕ) (x : Console S)
        → connect local_server ≡ ok (server, channels)
        → channel ≢ technical_channel
        → (w : Handling (Subscriber (Console S)) (Brokered ℕ (RedisBrokerConnector R P)))
          × (subscriber_main lists pubsub connect base64 technical_channel address id this
                (show_message json to_string now)
              ≡ ok w)
          × (pubsub.subscribed w.managed.broker.connector.channels channel ≡ true)
          × (on_message lists pubsub
                (λ d.
                  call_back
                    (λ _.
                      Manager.on_message (Events.receive base64 (λ _. w.handler)) w.managed.manager)
                    d
                    w.managed.broker.broker)
                w.managed.broker.connector
                channel
                (base64.encode (dump (event json to_string publisher_id sent count)))
                x
              ≡ (
                ok tt,
                record x {
                  lines =
                      x.lines
                      ++ receiving_at channel (to_string now)
                        ∷ dump_indented (event json to_string publisher_id sent count)
                        ∷ ""
                        ∷ [];
                },
              ))
    unfolding show_message print
    subscriber_shows publisher_id sent count now x e n =
        let callback : String → String → Void (Console S) = show_message json to_string now in
        (
          running base64 lists pubsub connect server channels technical_channel address id this
              callback,
          main-running base64 lists pubsub connect server channels technical_channel address id this
              callback e,
          running-subscribed base64 lists pubsub connect server channels technical_channel address
              id this callback,
          running-calls base64 lists pubsub connect server channels technical_channel address id
                this callback _ x n
              ∙ rw parse-dump (rw append_assoc refl),
        )
