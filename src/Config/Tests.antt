-- ===== src/Config/Tests.antt =====
-- A configuration on its way to the connector.
use oregano.Base.{◌≡◌, refl, [], ◌∷◌}
use oregano.Config.{RedisImpl, create, set_host, set_port, as_redis}
use oregano.Config.Settings.{host, port, put_in, configure}

abbrev local : RedisImpl
local = record { host = "127.0.0.1"; port = 6379; user = "default"; password = "" }

local-set : configure (host "127.0.0.1" ∷ port 6379 ∷ []) create ≡ local
unfolding create set_host set_port configure put_in as_redis
local-set = refl
