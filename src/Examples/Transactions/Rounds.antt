-- ===== src/Examples/Transactions/Rounds.antt =====
-- A round of the producer, by what its two promises resolve to.
use oregano.Base.{
  ℕ, ◌+◌, ◌*◌, Void, String, ◌≡◌, refl, ◌∙◌, ap, Option, none, some, List, [], ◌∷◌, ◌++◌, ok,
  and_then,
}
use mathlib.Core.List.{append_assoc}
use oregano.Examples.{ExampleJson, Console, print}
use oregano.Examples.Transactions.{
  channel, sending, timed_out, Round, sum_request, show_answer, on_resolved, ask_again,
  produce_round,
}
use oregano.Promise.{answer, timeout, Response}
use oregano.Dict.{find}
use oregano.Dict.Laws.{erase-put}
use oregano.Interfaces.{IMessageBroker}
use oregano.Messages.{JsonLibrary, Base64}
use oregano.Requester.{Requesting, unregister_promise, send_request}
use oregano.RoundTrip.{request_text}
use oregano.RoundTrip.Responses.{awaiting, send_request_lem}
use oregano.User.{IRequestSender, create_request_sender}

module _ (json : ExampleJson) where
  open json use {objects, dump_indented}
  open objects use {Json, dump, parse-dump}

  -- A response with a text of the library's, or a timeout.
  abbrev pub responded : Option Json → Response
  responded none = record { resolution = timeout; message = none }
  responded (some j) = record { resolution = answer; message = some (dump j) }

  abbrev pub answer_lines : Option Json → List String → List String
  answer_lines none last = timed_out ∷ last
  answer_lines (some j) last = "Response" ∷ dump_indented j ∷ last

  -- what a round writes
  abbrev pub round_lines : Json → Option Json → Option Json → List String
  round_lines request none second = sending ∷ dump_indented request ∷ timed_out ∷ []
  round_lines request (some j) second =
      sending ∷ dump_indented request ∷ "Response" ∷ dump_indented j ∷ answer_lines second ("" ∷ [])

  module _ {S : Type 0} where
    show_answer_lem :
        (j : Json) (last : List String) (w : Console S)
        → show_answer json (some (dump j)) last w
          ≡ (ok tt, record w { lines = w.lines ++ answer_lines (some j) last })
    unfolding show_answer print
    show_answer_lem j last w = rw (parse-dump) (simp append_assoc)

    on_resolved_lem :
        (r : Option Json) (w : Console S)
        → on_resolved json (responded r) w
          ≡ (ok tt, record w { lines = w.lines ++ answer_lines r ("" ∷ []) })
    unfolding on_resolved print
    on_resolved_lem none w = refl
    on_resolved_lem (some j) w = show_answer_lem j ("" ∷ []) w

  module _ {S : Type 0} (sender : IRequestSender (Requesting S)) (id : String) (d : Round) where
    abbrev text : String
    text = dump (sum_request json id d.a d.b)

    -- the state without a promise
    abbrev taken_off : String → Requesting S → Requesting S
    taken_off message_id s = (unregister_promise message_id s).1

    -- Both calls of `send_request` return.
    produce_round_cases :
        (first second : Option Json) (p q : ℕ) (s t : Requesting S) (w : Console (Requesting S))
        → d.first ≡ responded first
        → d.second ≡ responded second
        → sender.send_request d.first_id d.first_promise d.first_now channel text 1000 w.rest
          ≡ (ok p, s)
        → sender.send_request d.second_id d.second_promise d.second_now channel text 1000
            (taken_off d.first_id s)
          ≡ (ok q, t)
        → produce_round json sender id d w ≡ (
          ok tt,
          record {
            lines = w.lines ++ round_lines (sum_request json id d.a d.b) first second;
            rest = elim first [ none ↦ taken_off d.first_id s | some _ ↦ taken_off d.second_id t ];
          },
        )
    unfolding produce_round ask_again print unregister_promise
    produce_round_cases none second p q s t w e f g h = rw (g, e) (simp append_assoc)
    produce_round_cases (some j) second p q s t w e f g h =
        rw (g, e, e)
          (ap (and_then (λ _. ask_again json sender id d)) (show_answer_lem j [] _)
            ∙ rw (h, f, on_resolved_lem second) (simp append_assoc))

  module _ {C S : Type 0} (b : IMessageBroker C S) (frames : JsonLibrary) (base64 : Base64)
      (ticks_per_ms : ℕ) (id : String) (d : Round) (w : Console (Requesting S)) where
    -- what the broker does with a request of the round, sent at a time under an id
    abbrev pub queued : String → ℕ → Void S
    queued message_id now = b.send_request channel (
        request_text frames base64 ticks_per_ms w.rest.transaction.response_channel message_id
          (now + 1000 * ticks_per_ms) (dump (sum_request json id d.a d.b)))

    abbrev held : String → ℕ → S → Requesting S
    held message_id promise s = record {
      transaction = awaiting w.rest.transaction message_id promise;
      broker = s;
    }

    sent :
        (message_id : String) (promise now : ℕ) (s t : S)
        → find message_id w.rest.transaction.on_response_callbacks ≡ none
        → queued message_id now s ≡ (ok tt, t)
        → send_request frames base64 ticks_per_ms b message_id promise now channel
            (dump (sum_request json id d.a d.b))
            1000
            (record { transaction = w.rest.transaction; broker = s })
          ≡ (ok promise, held message_id promise t)
    sent message_id promise now s t fresh taken =
        send_request_lem frames base64 ticks_per_ms b
          (record { transaction = w.rest.transaction; broker = s }) message_id promise now channel
          (dump (sum_request json id d.a d.b)) 1000 fresh
        ∙ rw (taken, taken) refl

    -- A promise that was registered under a fresh id is taken off again.
    back :
        (message_id : String) (promise : ℕ) (s : S)
        → find message_id w.rest.transaction.on_response_callbacks ≡ none
        → (unregister_promise message_id (held message_id promise s)).1
          ≡ record { transaction = w.rest.transaction; broker = s }
    unfolding unregister_promise
    back message_id promise s fresh =
        rw (erase-put message_id promise w.rest.transaction.on_response_callbacks fresh) refl

    -- A round with the request sender of an interface, under two fresh ids, in which the broker
    -- takes the requests, and each promise resolves to a timeout or to a text that the library has
    -- dumped: it throws nothing, writes the request and each answer or that it timed out, and
    -- leaves no promise registered. After a timeout of the first request the second is not sent.
    pub produce_round_lem :
        (first second : Option Json) (s t : S)
        → d.first ≡ responded first
        → d.second ≡ responded second
        → find d.first_id w.rest.transaction.on_response_callbacks ≡ none
        → find d.second_id w.rest.transaction.on_response_callbacks ≡ none
        → queued d.first_id d.first_now w.rest.broker ≡ (ok tt, s)
        → queued d.second_id d.second_now s ≡ (ok tt, t)
        → produce_round json (create_request_sender b frames base64 ticks_per_ms) id d w ≡ (
          ok tt,
          record {
            lines = w.lines ++ round_lines (sum_request json id d.a d.b) first second;
            rest = record {
              transaction = w.rest.transaction;
              broker = elim first [ none ↦ s | some _ ↦ t ];
            };
          },
        )
    unfolding create_request_sender unregister_promise
    produce_round_lem first second s t e f fresh fresh' h k =
        produce_round_cases (create_request_sender b frames base64 ticks_per_ms) id d first second
          d.first_promise d.second_promise (held d.first_id d.first_promise s)
          (held d.second_id d.second_promise t) w e f
          (sent d.first_id d.first_promise d.first_now w.rest.broker s fresh h)
          (rw (back d.first_id d.first_promise s fresh)
            (sent d.second_id d.second_promise d.second_now s t fresh' k))
        ∙ ap
            (λ r. (
              ok tt,
              record {
                lines = w.lines ++ round_lines (sum_request json id d.a d.b) first second;
                rest = r;
              },
            ))
            (left first)
      where
        left :
            (r : Option Json)
            → elim r [
              | none ↦ (unregister_promise d.first_id (held d.first_id d.first_promise s)).1
              | some _ ↦ (unregister_promise d.second_id (held d.second_id d.second_promise t)).1
            ]
              ≡ record {
                transaction = w.rest.transaction;
                broker = elim r [ none ↦ s | some _ ↦ t ];
              }
        left none = back d.first_id d.first_promise s fresh
        left (some j) = back d.second_id d.second_promise t fresh'
