-- ===== src/Requester.antt =====
-- src/implementation/RequestSender.cpp and the requesting side of TransactionInterface.cpp: a
-- request is framed and sent, and its promise waits under the request's id for the response.
use oregano.Base.{
  ℕ, ◌+◌, ◌*◌, ◌/◌, String, Option, none, some, Exec, Void, pure, ok, err, Result, ◌>>=◌,
}
use oregano.Dict.{Dict, find, put, erase}
use oregano.Interfaces.{IMessageBroker}
use oregano.Messages.{
  JsonLibrary, Base64, Field, text, number, or_throw, as_text, parse_error, decode_error,
}

-- The members of `TransactionInterface` that concern responses. A promise is its address.
pub record TransactionInterface : Type 0 where
  pub response_channel : String
  pub on_response_callbacks : Dict ℕ

pub record Requesting (S : Type 0) : Type 0 where
  pub transaction : TransactionInterface
  pub broker : S

-- The two lambdas of `create_request_sender`.
unfoldable pub register_promise : {S : Type 0} → String → ℕ → Void (Requesting S)
register_promise message_id promise w = (
  ok tt,
  record w {
    transaction = record (w.transaction) {
      on_response_callbacks = put message_id promise w.transaction.on_response_callbacks;
    };
  },
)

unfoldable pub unregister_promise : {S : Type 0} → String → Void (Requesting S)
unregister_promise message_id w = (
  ok tt,
  record w {
    transaction = record (w.transaction) {
      on_response_callbacks = erase message_id w.transaction.on_response_callbacks;
    };
  },
)

-- What a throw in `send_request` does after the registration: `promise` goes out of scope, and
-- ~ResponsePromise unregisters it.
unfoldable pub sent_or_undone :
    {S : Type 0} → String → ℕ → Result (Unit {0}) × Requesting S → Result ℕ × Requesting S
sent_or_undone message_id promise (ok a, w) = (ok promise, w)
sent_or_undone message_id promise (err e, w) = (err e, (unregister_promise message_id w).1)

module _ (json : JsonLibrary) (base64 : Base64) (ticks_per_ms : ℕ) where
  open json use {Json, empty, write, read, dump, parse}

  -- The frame of a request; times are in ticks of the system clock, in the frame in milliseconds.
  unfoldable pub request_frame : String → String → ℕ → String → Json
  request_frame response_channel message_id valid_until message =
      write Field.payload (text (base64.encode message)) (
        write Field.valid_until (number (valid_until / ticks_per_ms)) (
          write Field.id (text message_id)
            (write Field.response_channel (text response_channel) empty)))

  -- `message_id` is what `sole::uuid4().base62()` draws, `promise` the address of the new promise,
  -- and `now` the clock; the timeout is in milliseconds, is not negative, and does not make the clock
  -- overflow, which the language leaves undefined.
  unfoldable pub send_request :
      {C S : Type 0}
      → IMessageBroker C S
      → String
      → ℕ
      → ℕ
      → String
      → String
      → ℕ
      → Exec (Requesting S) ℕ
  send_request b message_id promise now channel message timeout w =
      let valid_until = now + timeout * ticks_per_ms in
      let frame = request_frame w.transaction.response_channel message_id valid_until message in
      let registered = (register_promise message_id promise w).1 in
      let (r, s) = b.send_request channel (dump frame) registered.broker in
      sent_or_undone message_id promise (r, record registered { broker = s })

-- The lambda that the constructor of `TransactionInterface` sets on the response channel;
-- `on_response` is that of the promises, over the state `W` that they change.
module _ (json : JsonLibrary) (base64 : Base64) {W : Type 0}
    (on_response : ℕ → String → Void W) where
  open json use {read, parse}

  unfoldable pub resolve : Option ℕ → String → Void W
  resolve none payload = pure tt
  resolve (some promise) payload = do
    answer ← or_throw decode_error (base64.decode payload)
    on_response promise answer

  unfoldable pub receive_response : TransactionInterface → String → Void W
  receive_response transaction message = do
    frame ← or_throw parse_error (parse message)
    message_id ← as_text (read Field.id frame)
    payload ← as_text (read Field.payload frame)
    resolve (find message_id transaction.on_response_callbacks) payload
