-- ===== src/RoundTrip/Responses.antt =====
-- The requesting side: what is sent and registered, and which promise a response reaches.
use oregano.Base.{
  ℕ, ◌+◌, ◌*◌, ◌≤◌, ◌<◌, String, ◌≡◌, refl, ◌∙◌, none, some, if_pos, arith, Exec, Void, and_then,
  and_then_cong, ok, err, Result, String_discrete,
}
use oregano.Dict.{Dict, find, put}
use oregano.Dict.Laws.{find-put, erase-put}
use oregano.Interfaces.{IMessageBroker}
use oregano.Messages.{JsonLibrary, Base64}
use oregano.Events
use oregano.Requester.{
  TransactionInterface, Requesting, register_promise, unregister_promise, sent_or_undone,
  send_request, resolve, receive_response,
}
use oregano.Responder.{response_frame}
use oregano.Responder
use oregano.RoundTrip.{request_text, request_answered, response_frame-fields}

pub find-put_self : (c : String) (v : ℕ) (m : Dict ℕ) → find c (put c v m) ≡ some v
find-put_self c v m = rw find-put (if_pos (String_discrete c c) refl _ _)

-- The interface with a promise registered under an id.
abbrev pub awaiting : TransactionInterface → String → ℕ → TransactionInterface
awaiting t message_id promise = record t {
  on_response_callbacks = put message_id promise t.on_response_callbacks;
}

module _ (json : JsonLibrary) (base64 : Base64) (ticks_per_ms : ℕ) where
  open json use {dump, parse-dump}

  module _ {C S : Type 0} (b : IMessageBroker C S) (w : Requesting S) (message_id : String)
      (promise now : ℕ) (channel message : String) (timeout : ℕ) where
    -- What the broker answers to the framed request.
    abbrev pub submitted : Result (Unit {0}) × S
    submitted =
        b.send_request channel
          (request_text json base64 ticks_per_ms w.transaction.response_channel message_id
            (now + timeout * ticks_per_ms) message)
          w.broker

    -- Given a fresh id: if the broker takes the request, the promise is returned and waits under
    -- the request's id; if the broker throws, so does `send_request`, and the interface is left as it
    -- was.
    pub send_request_lem :
        find message_id w.transaction.on_response_callbacks ≡ none
        → send_request json base64 ticks_per_ms b message_id promise now channel message timeout w
          ≡ (elim (submitted.0) [
            | ok _ ↦ (
              ok promise,
              record {
                transaction = awaiting w.transaction message_id promise;
                broker = submitted.1;
              },
            )
            | err e ↦ (err e, record { transaction = w.transaction; broker = submitted.1 })
          ])
    unfolding send_request register_promise unregister_promise sent_or_undone
    send_request_lem fresh =
        ground (arith, erase-put message_id promise w.transaction.on_response_callbacks fresh)

  module _ {W : Type 0} (on_response : ℕ → String → Void W) (transaction : TransactionInterface)
      (message_id answer : String) (w : W) where
    -- A response goes to the promise that waits under its id, decoded, and to no other; a response
    -- for which no promise waits is ignored.
    pub response_resolves :
        receive_response json base64 on_response transaction
          (dump (response_frame json base64 ticks_per_ms message_id answer))
          w
        ≡ (elim (find message_id transaction.on_response_callbacks) [
          | none ↦ (ok tt, w)
          | some promise ↦ on_response promise answer w
        ])
    unfolding receive_response resolve
    response_resolves =
        let f = response_frame-fields json base64 ticks_per_ms message_id answer in
        rw (parse-dump, f.0, f.1) ground (arith, base64.decode-encode answer)

  module _ {W C : Type 0} (b : IMessageBroker C W) (callback : String → String → Exec W String)
      (on_response : ℕ → String → Void W) (transaction : TransactionInterface) (message_id : String)
      (promise : ℕ) (channel message : String) (valid_until now : ℕ) where
    -- What the broker does with a publication on the response channel: the subscriber there, with
    -- the callback of the interface, gets the text as it was published.
    abbrev pub Delivers : Type 0
    Delivers =
        (t : String) (w : W)
        → b.publish transaction.response_channel t w
          ≡ Events.on_message base64
              (λ _ m.
                receive_response json base64 on_response (awaiting transaction message_id promise)
                  m)
              transaction.response_channel t w

    delivered :
        Delivers
        → (answer : String) (w : W)
        → Events.publish base64 b transaction.response_channel
            (dump (response_frame json base64 ticks_per_ms message_id answer))
            w
          ≡ on_response promise answer w
    unfolding Events.publish Events.on_message
    delivered delivers answer w =
        delivers _ w
        ∙ rw (base64.decode-encode) (
            response_resolves on_response (awaiting transaction message_id promise) message_id
              answer w
            ∙ rw (find-put_self message_id promise transaction.on_response_callbacks))

    -- From end to end: if the broker delivers publications on the response channel, the promise
    -- that was registered with a request gets what the callback of the handler answers to the
    -- message that was sent, provided the request arrives in time.
    pub round_trip :
        0 < ticks_per_ms
        → now ≤ valid_until
        → Delivers
        → (w : W)
        → Responder.on_message json base64 ticks_per_ms callback
            (Events.publish base64 b)
            now
            channel
            (request_text json base64 ticks_per_ms transaction.response_channel message_id
              valid_until message)
            w
          ≡ and_then (on_response promise) (callback channel message w)
    round_trip pos h delivers w =
        request_answered json base64 ticks_per_ms callback (Events.publish base64 b) channel
          transaction.response_channel message_id message valid_until now w pos h
        ∙ and_then_cong (delivered delivers) (callback channel message w)
