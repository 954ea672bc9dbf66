-- ===== src/Responder.antt =====
-- src/implementation/RequestHandler.cpp: requests are answered, unless they come too late.
use oregano.Base.{
  ℕ, ◌/◌, String, Bool, Option, none, some, Exec, Void, pure, ◌>>=◌, ltb, if◌then◌else◌,
}
use oregano.Interfaces.{IMessageBroker}
use oregano.Manager.{Managed, add_message_handler, remove_message_handler}
use oregano.Messages.{
  JsonLibrary, Base64, Field, Value, text, or_throw, as_text, as_number, parse_error, decode_error,
}

-- A request handler is a handler of its manager, `this` its address.
module _ {C S : Type 0} (b : IMessageBroker C S) (this : ℕ) where
  unfoldable pub listen : String → Void (Managed S)
  listen channel = add_message_handler b channel this

  unfoldable pub stop_listening : String → Void (Managed S)
  stop_listening channel = remove_message_handler b channel this

-- The member of a `RequestHandler` that its user sets; at first it answers with an empty text.
pub record RequestHandler (W : Type 0) : Type 0 where
  pub on_request_callback : String → String → Exec W String

unfoldable pub create : {W : Type 0} → RequestHandler W
create = record { on_request_callback = λ channel message. pure "" }

unfoldable pub set_on_request_callback :
    {W : Type 0} → (String → String → Exec W String) → RequestHandler W → RequestHandler W
set_on_request_callback callback h = record h { on_request_callback = callback }

module _ (json : JsonLibrary) (base64 : Base64) (ticks_per_ms : ℕ) where
  open json use {Json, empty, write, read, dump, parse}

  unfoldable pub response_frame : String → String → Json
  response_frame message_id answer =
      write Field.payload (text (base64.encode answer)) (write Field.id (text message_id) empty)

  module _ {W : Type 0} where
    -- Whether the request has run out at the time `now`; one without a limit never does.
    unfoldable pub is_expired : ℕ → Option Value → Exec W Bool
    is_expired now none = pure Bool.false
    is_expired now (some v) = do
      valid_until ← as_number (some v)
      pure (ltb valid_until (now / ticks_per_ms))

    module _ (callback : String → String → Exec W String) (publish : String → String → Void W) where
      unfoldable pub answer_request : String → Json → Void W
      answer_request channel message = do
        message_id ← as_text (read Field.id message)
        response_channel ← as_text (read Field.response_channel message)
        message_payload ← as_text (read Field.payload message)
        request ← or_throw decode_error (base64.decode message_payload)
        response_payload ← callback channel request
        publish response_channel (dump (response_frame message_id response_payload))

      -- `now` is what the clock says when the request arrives.
      unfoldable pub on_message : ℕ → String → String → Void W
      on_message now channel message = do
        frame ← or_throw parse_error (parse message)
        expired ← is_expired now (read Field.valid_until frame)
        if expired then pure tt else answer_request channel frame
