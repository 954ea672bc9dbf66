-- ===== src/RoundTrip.antt =====
-- Requests and responses from end to end: RequestSender.cpp, RequestHandler.cpp and
-- TransactionInterface.cpp with Publisher.cpp and Subscriber.cpp between them.
mod Tests
pub mod Plain
pub mod Responses
use native.Mathlib.Nat.{le-div_iff_mul-le, lt-div-mul-add, mul-div-le, mul_comm}
use oregano.Base.{
  ℕ, ◌+◌, ◌*◌, ◌/◌, ◌≤◌, ◌<◌, String, ◌≡◌, refl, ◌∙◌, Bool, true, false, Option, none, some, ite,
  if_pos, if_neg, arith, Exec, Void, and_then, pure, ok, err, Result, Exception, ◌>>=◌, ◌>>◌, ltb,
  if◌then◌else◌, String_discrete,
}
use oregano.Dict.{Dict, find, put, erase}
use oregano.Dict.Laws.{find-put, erase-put}
use oregano.Interfaces.{IMessageBroker}
use oregano.Messages.{
  JsonLibrary, Base64, Field, Field_discrete, Value, text, number, or_throw, as_text, as_number,
}
use oregano.Events
use oregano.Requester.{
  TransactionInterface, Requesting, register_promise, unregister_promise, sent_or_undone,
  request_frame, send_request, resolve, receive_response,
}
use oregano.Responder.{response_frame, is_expired, answer_request}
use oregano.Responder

module _ (json : JsonLibrary) (base64 : Base64) (ticks_per_ms : ℕ) where
  open json use {Json, empty, write, read, dump, parse, read-empty, read-write, parse-dump}

  -- The members of the two frames.
  request_frame-fields :
      (channel message_id : String) (valid_until : ℕ) (message : String)
      → let frame = request_frame json base64 ticks_per_ms channel message_id valid_until message in
        (read Field.id frame ≡ some (text message_id))
        × (read Field.response_channel frame ≡ some (text channel))
        × (read Field.valid_until frame ≡ some (number (valid_until / ticks_per_ms)))
        × (read Field.payload frame ≡ some (text (base64.encode message)))
  unfolding request_frame Field_discrete
  request_frame-fields channel message_id valid_until message =
      (simp read-write, simp read-write, simp read-write, simp read-write)

  pub response_frame-fields :
      (message_id answer : String)
      → let frame = response_frame json base64 ticks_per_ms message_id answer in
        (read Field.id frame ≡ some (text message_id))
        × (read Field.payload frame ≡ some (text (base64.encode answer)))
  unfolding response_frame Field_discrete
  response_frame-fields message_id answer = (simp read-write, simp read-write)

  -- What goes over the queue.
  abbrev pub request_text : String → String → ℕ → String → String
  request_text channel message_id valid_until message =
      dump (request_frame json base64 ticks_per_ms channel message_id valid_until message)

  -- Milliseconds keep the order of ticks.
  ms_mono : (a b : ℕ) → 0 < ticks_per_ms → a ≤ b → a / ticks_per_ms ≤ b / ticks_per_ms
  ms_mono a b pos h =
      (le-div_iff_mul-le pos).1 omega
        (arith, mul-div-le a ticks_per_ms, mul_comm ticks_per_ms (a / ticks_per_ms))

  ms_later :
      (a b : ℕ) → 0 < ticks_per_ms → a + ticks_per_ms ≤ b → a / ticks_per_ms < b / ticks_per_ms
  ms_later a b pos h =
      (le-div_iff_mul-le pos).1 omega
        (arith, mul-div-le a ticks_per_ms, mul_comm ticks_per_ms (a / ticks_per_ms))

  module _ {W : Type 0} (callback : String → String → Exec W String)
      (publish : String → String → Void W) (channel response_channel message_id message : String)
      (valid_until now : ℕ) (w : W) where
    abbrev request : String
    request = request_text response_channel message_id valid_until message

    ltb-false : (a b : ℕ) → b ≤ a → ltb a b ≡ false
    ltb-false a b h = ground arith

    ltb-true : (a b : ℕ) → a < b → ltb a b ≡ true
    ltb-true a b h = ground arith

    answered :
        now / ticks_per_ms ≤ valid_until / ticks_per_ms
        → Responder.on_message json base64 ticks_per_ms callback publish now channel request w
          ≡ and_then
              (λ a.
                publish response_channel
                  (dump (response_frame json base64 ticks_per_ms message_id a)))
              (callback channel message w)
    unfolding Responder.on_message is_expired answer_request
    answered h =
        let f = request_frame-fields response_channel message_id valid_until message in
        rw (parse-dump, f.2, ltb-false _ _ h, f.0, f.1, f.3, base64.decode-encode)

    dropped :
        valid_until / ticks_per_ms < now / ticks_per_ms
        → Responder.on_message json base64 ticks_per_ms callback publish now channel request w
          ≡ (ok tt, w)
    unfolding Responder.on_message is_expired
    dropped h =
        let f = request_frame-fields response_channel message_id valid_until message in
        rw (parse-dump, f.2, ltb-true _ _ h)

    -- A request that arrives before its time limit has passed is answered: the callback gets the
    -- channel and the request as it was sent, and its result goes to the response channel under the
    -- request's id. An exception of the callback is passed on, and nothing is published.
    pub request_answered :
        0 < ticks_per_ms
        → now ≤ valid_until
        → Responder.on_message json base64 ticks_per_ms callback publish now channel request w
          ≡ and_then
              (λ a.
                publish response_channel
                  (dump (response_frame json base64 ticks_per_ms message_id a)))
              (callback channel message w)
    request_answered pos h = answered (ms_mono now valid_until pos h)

    -- A request that arrives a millisecond or more after its time limit is dropped: no callback, no
    -- response, no exception.
    pub request_dropped :
        0 < ticks_per_ms
        → valid_until + ticks_per_ms ≤ now
        → Responder.on_message json base64 ticks_per_ms callback publish now channel request w
          ≡ (ok tt, w)
    request_dropped pos h = dropped (ms_later valid_until now pos h)
