-- ===== src/Examples/Connected.antt =====
-- A program whose client connects.
use oregano.Base.{String, ◌≡◌, refl, Result, ok}
use oregano.Broker
use oregano.Config.{as_redis, copied}
use oregano.Config
use oregano.Connector.Methods.{connector}
use oregano.Connector.Methods
use oregano.Connector.Redis.{RedisLists, RedisChannels}
use oregano.Examples.{configuration, local_server}
use oregano.Factory.{ConnectionOptions, create_wrapper, create_broker, create_connector, options}

module _ {R P : Type 0} (lists : RedisLists R) (pubsub : RedisChannels P)
    (connect : ConnectionOptions → Result (R × P)) (server : R) (channels : P)
    (technical_channel : String) where
  -- The client is asked for the local server, by the default user; the broker is on its connection.
  pub connected_lem :
      {C : Type 0}
      → connect local_server ≡ ok (server, channels)
      → create_wrapper lists pubsub connect {C = C} configuration technical_channel
        ≡ ok (
            Broker.create
              (connector lists pubsub)
              (Methods.create lists pubsub technical_channel server channels))
  unfolding configuration create_wrapper create_broker create_connector options copied as_redis
      Config.create Config.set_host Config.set_port Config.set_user Config.set_password
  connected_lem e = rw e refl
