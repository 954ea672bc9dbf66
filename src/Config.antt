-- ===== src/Config.antt =====
-- src/interface/oregano/BrokerConfiguration.h, src/implementation/BrokerConfiguration.cpp and .h,
-- and the copy in MessageBrokerFactory.cpp: the way of the settings to the connector.
pub mod Settings
mod Tests
use oregano.Base.{ℕ, ◌%◌, ◌^◌, String}

-- The abstract class, over the state `X` of an implementation. A port is a `uint16_t`, and an
-- argument is converted to 16 bits by the call.
pub record Redis (X : Type 0) : Type 0 where
  pub set_host : String → X → X
  pub get_host : X → String
  pub set_port : ℕ → X → X
  pub get_port : X → ℕ
  pub set_user : String → X → X
  pub get_user : X → String
  pub set_password : String → X → X
  pub get_password : X → String

-- The variant, with its one alternative: a reference to a configuration of any class.
pub data Configuration : Type 1 where
  redis : {X : Type 0} → Redis X → X → Configuration

pub record RedisImpl : Type 0 where
  pub host : String
  pub port : ℕ
  pub user : String
  pub password : String

unfoldable pub create : RedisImpl
create = record { host = ""; port = 0; user = "default"; password = "" }

unfoldable pub set_host : String → RedisImpl → RedisImpl
set_host host c = record c { host = host }

unfoldable pub set_port : ℕ → RedisImpl → RedisImpl
set_port port c = record c { port = port % 2 ^ 16 }

unfoldable pub set_user : String → RedisImpl → RedisImpl
set_user user c = record c { user = user }

unfoldable pub set_password : String → RedisImpl → RedisImpl
set_password password c = record c { password = password }

-- The class as a `Redis`.
unfoldable pub as_redis : Redis RedisImpl
unfolding set_host set_port set_user set_password
as_redis = record {
  set_host = set_host;
  get_host = λ c. c.host;
  set_port = set_port;
  get_port = λ c. c.port;
  set_user = set_user;
  get_user = λ c. c.user;
  set_password = set_password;
  get_password = λ c. c.password;
}

-- What `IMessageBroker::create` makes of the user's configuration for the connector to keep.
unfoldable pub copied : {X : Type 0} → Redis X → X → RedisImpl
unfolding create set_host set_port set_user set_password
copied r c =
    set_password (r.get_password c)
      (set_user (r.get_user c) (set_port (r.get_port c) (set_host (r.get_host c) create)))
