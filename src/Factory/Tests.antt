-- ===== src/Factory/Tests.antt =====
-- A broker for the configuration of the programs in examples.
use text.Mathlib.Text.{◌==◌ as str_eq}
use oregano.Base.{
  ◌==◌, ◌&&◌, if◌then◌else◌, err, Exception, ℕ, String, ◌≡◌, refl, Bool, false, List, Result, ok,
  [], ◌∷◌,
}
use oregano.Config.{redis, as_redis}
use oregano.Config
use oregano.Config.Settings.{Setting, host, port, password, configure, put_in}
use oregano.Connector.Memory.{Memory, memory, flags, nothing}
use oregano.Factory.{ConnectionOptions, create_wrapper, connected, configured, options}

abbrev settings : List Setting
settings = host "localhost" ∷ port 71915 ∷ password "secret" ∷ host "127.0.0.1" ∷ []

-- A server at one port, with one password.
abbrev accept : ConnectionOptions → Result (Memory × (String → Bool))
accept o =
    if o.port == 6379 && str_eq o.password "secret"
    then ok (nothing, λ j. false)
    else err Exception.terminate

asked :
    options as_redis (configure settings Config.create)
    ≡ record { host = "127.0.0.1"; port = 6379; user = "default"; password = "secret" }
unfolding options as_redis configure put_in Config.create Config.set_host Config.set_port
    Config.set_password
asked = refl

configured_example :
    create_wrapper memory flags accept {C = ℕ}
      (redis as_redis (configure settings Config.create))
      "technical"
    ≡ ok (connected memory flags accept "technical" nothing (λ j. false))
configured_example = configured memory flags accept settings "technical"
