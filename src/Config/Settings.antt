-- ===== src/Config/Settings.antt =====
-- Histories of a configuration: calls of its setters in any order.
use oregano.Base.{ℕ, ◌^◌, ◌<◌, String, ◌≡◌, ap, List, [], ◌∷◌, arith}
use oregano.Config.{RedisImpl, create, set_host, set_port, set_user, set_password, as_redis, copied}

pub data Setting : Type 0 where
  host : String → Setting
  port : ℕ → Setting
  user : String → Setting
  password : String → Setting

unfoldable pub put_in : Setting → RedisImpl → RedisImpl
put_in (host s) = as_redis.set_host s
put_in (port n) = as_redis.set_port n
put_in (user s) = as_redis.set_user s
put_in (password s) = as_redis.set_password s

unfoldable pub configure : List Setting → RedisImpl → RedisImpl
configure [] c = c
configure (s ∷ ss) c = configure ss (put_in s c)

put_in-small : (s : Setting) (c : RedisImpl) → c.port < 2 ^ 16 → (put_in s c).port < 2 ^ 16
unfolding put_in as_redis set_host set_port set_user set_password
put_in-small s c h = ground arith

configure-small :
    (ss : List Setting) (c : RedisImpl) → c.port < 2 ^ 16 → (configure ss c).port < 2 ^ 16
unfolding configure
configure-small [] c h = h
configure-small (s ∷ ss) c h = configure-small ss (put_in s c) (put_in-small s c h)

-- The copy keeps every setting, for a port of 16 bits.
pub copied_lem : (c : RedisImpl) → c.port < 2 ^ 16 → copied as_redis c ≡ c
unfolding copied as_redis create set_host set_port set_user set_password
copied_lem c small = ap (λ p. record c { port = p }) (omega arith)

-- Whatever setters the user has called, and in whatever order, the connector gets every setting as
-- the getters of the user's configuration answer it.
pub copied-configure :
    (ss : List Setting) → copied as_redis (configure ss create) ≡ configure ss create
unfolding create
copied-configure ss = copied_lem (configure ss create) (configure-small ss create (omega arith))
