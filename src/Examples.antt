-- ===== src/Examples.antt =====
-- examples: the four programs that come with the library. What they share: the members of their
-- messages, the console, and the settings.
mod Tests
mod Plain
mod Connected
pub mod Events
pub mod Transactions
use oregano.Base.{
  ℕ, ◌%◌, ◌^◌, ◌++◌, String, List, [], ◌∷◌, Option, none, some, Exec, Void, Result, ok, err, pure,
  throw,
}
use oregano.Config.{Configuration, redis, as_redis}
use oregano.Config
use oregano.Factory.{ConnectionOptions}
use oregano.Messages.{JsonObjects, Value, text, number, type_error}

-- The places that the programs name: id, payload.timestamp, payload.message_count, payload.a,
-- payload.b and response.
pub data Member : Type 0 where
  id : Member
  timestamp : Member
  message_count : Member
  a : Member
  b : Member
  response : Member

unfoldable pub Member_discrete : Discrete Member
Member_discrete = hlevel

-- The library on such messages, with `dump(2)`, of which the programs use nothing but the text.
pub record ExampleJson : Type 1 where
  pub objects : JsonObjects Member Member_discrete
  pub dump_indented : objects.Json → String

-- What a program has written to std::cout, line by line, beside the rest of its state.
pub record Console (S : Type 0) : Type 0 where
  pub lines : List String
  pub rest : S

unfoldable pub print : {S : Type 0} → List String → Void (Console S)
print ls w = (ok tt, record w { lines = w.lines ++ ls })

abbrev pub on_rest : {S A : Type 0} → Exec S A → Exec (Console S) A
on_rest f w = let (r, s) = f w.rest in (r, record w { rest = s })

-- get<uint32_t>()
abbrev pub as_uint32 {ℓ} : {S : Type ℓ} → Option Value → Exec S ℕ
as_uint32 (some (number n)) = pure (n % 2 ^ 32)
as_uint32 _ = throw type_error

-- the settings of all four programs
unfoldable pub configuration : Configuration
unfolding as_redis Config.create Config.set_host Config.set_port
configuration =
    redis as_redis (as_redis.set_port 6379 (as_redis.set_host "127.0.0.1" Config.create))

-- what they ask the client for
abbrev pub local_server : ConnectionOptions
local_server = record { host = "127.0.0.1"; port = 6379; user = "default"; password = "" }

-- A program ends with the first exception.
abbrev pub main_then : {A B S : Type 0} → (A → S → Result B) → Result A × S → Result B
main_then f (ok x, s) = f x s
main_then f (err e, s) = err e

abbrev pub created_then : {A B : Type 0} → (A → Result B) → Result A → Result B
created_then f (ok x) = f x
created_then f (err e) = err e
