-- ===== src/Events.antt =====
-- src/implementation/Publisher.cpp, Subscriber.cpp and EventInterface.cpp: the event system as its
-- users have it. Messages travel encoded in base64.
use oregano.Base.{ℕ, String, Void, pure, ◌>>=◌}
use oregano.Interfaces.{IMessageBroker}
use oregano.Manager.{Managed, add_message_handler, remove_message_handler, remove_everywhere}
use oregano.Messages.{Base64, or_throw, decode_error}

module _ (base64 : Base64) where
  module _ {C S : Type 0} (b : IMessageBroker C S) where
    unfoldable pub publish : String → String → Void S
    publish channel message = b.publish channel (base64.encode message)

  -- The work of `Subscriber::on_message`; the callback is the one that `set_on_message_callback` has set.
  unfoldable pub on_message : {W : Type 0} → (String → String → Void W) → String → String → Void W
  on_message callback channel message = do
    decoded ← or_throw decode_error (base64.decode message)
    callback channel decoded

-- The member of a `Subscriber` that its user sets; at first it does nothing.
pub record Subscriber (W : Type 0) : Type 0 where
  pub on_message_callback : String → String → Void W

unfoldable pub create : {W : Type 0} → Subscriber W
create = record { on_message_callback = λ channel message. pure tt }

unfoldable pub set_on_message_callback :
    {W : Type 0} → (String → String → Void W) → Subscriber W → Subscriber W
set_on_message_callback callback s = record s { on_message_callback = callback }

-- `IMessageHandler::on_message` of the subscribers, which are known by their addresses.
unfoldable pub receive : {W : Type 0} → Base64 → (ℕ → Subscriber W) → ℕ → String → String → Void W
receive base64 subscribers this = on_message base64 (subscribers this).on_message_callback

-- A subscriber is a handler of its manager, `this` its address.
module _ {C S : Type 0} (b : IMessageBroker C S) (this : ℕ) where
  unfoldable pub subscribe : String → Void (Managed S)
  subscribe channel = add_message_handler b channel this

  unfoldable pub unsubscribe : String → Void (Managed S)
  unsubscribe channel = remove_message_handler b channel this

  -- ~Subscriber
  unfoldable pub destroy : Void (Managed S)
  destroy = remove_everywhere b this
