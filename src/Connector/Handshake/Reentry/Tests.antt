-- ===== src/Connector/Handshake/Reentry/Tests.antt =====
-- A callback that subscribes, on an open connector.
use oregano.Base.{some, [], ◌∷◌}
use oregano.Connector.Handshake.{
  confirmation, message, took, locked, sending, notifying, outside, update, System,
}
use oregano.Connector.Handshake.Tests.{ready}

-- The subscriber thread is the caller 2, in the callback for a message.
abbrev calling : System
calling = record ready {
  subscription_lock = some 2;
  callers = update (λ _. outside) 2 locked;
  worker = took message;
}

abbrev commanded : System
commanded = record calling {
  callers = update (update calling.callers 2 sending) 2 notifying;
  inbox = confirmation ∷ [];
}
