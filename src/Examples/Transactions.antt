-- ===== src/Examples/Transactions.antt =====
-- examples/transaction: the consumer, which adds two numbers, and the producer, which sends two
-- requests in each round of its loop: for the first it waits in `await`, for the second it gives a
-- callback to `then`. The promises are temporary objects: the second one's destructor waits for the
-- thread that calls the callback (Promise.Lifetime), so the callback has run when the statement
-- ends. The mutex of the producer, which makes it wait for the same, is left out, and so is the
-- pause between two rounds.
pub mod Rounds
pub mod Sums
pub mod Completed
pub mod Programs
use Prim.Native.String.{◌++◌}
use oregano.Base.{
  ℕ, ◌+◌, ◌%◌, ◌^◌, String, Option, none, some, List, [], ◌∷◌, Result, ok, err, Exec, Void, pure,
  throw, and_then, ◌>>=◌, ◌>>◌, Exception,
}
use oregano.Examples.{Member, ExampleJson, Console, print, on_rest, as_uint32}
use oregano.Messages.{text, number, or_throw, parse_error}
use oregano.Promise.{Resolution, answer, timeout, Response}
use oregano.Requester.{Requesting, unregister_promise}
use oregano.User.{IRequestSender}

abbrev pub channel : String
channel = "example_transaction_channel"

abbrev pub receiving_on : String → String
receiving_on c = "Receiving message on channel " ++ c

abbrev pub sending : String
sending = "Sending request on channel " ++ channel

abbrev pub timed_out : String
timed_out = "REQUEST MESSAGE TIMED OUT"

-- What the producer draws in a round, and what the two promises resolve to.
pub record Round : Type 0 where
  pub a : ℕ
  pub b : ℕ
  pub first_id : String
  pub first_promise : ℕ
  pub first_now : ℕ
  pub first : Response
  pub second_id : String
  pub second_promise : ℕ
  pub second_now : ℕ
  pub second : Response

-- An exception in a thread ends the program.
abbrev pub in_thread : {S : Type 0} → Result (Unit {0}) × S → Result (Unit {0}) × S
in_thread (ok x, s) = (ok x, s)
in_thread (err e, s) = (err Exception.terminate, s)

module _ (json : ExampleJson) where
  open json use {objects, dump_indented}
  open objects use {Json, empty, write, read, dump, parse}

  unfoldable pub sum_request : String → ℕ → ℕ → Json
  sum_request id a b =
      write Member.b (number b) (write Member.a (number a) (write Member.id (text id) empty))

  unfoldable pub sum_response : String → ℕ → Json
  sum_response id sum = write Member.response (number sum) (write Member.id (text id) empty)

  module _ {S : Type 0} where
    -- The callback of the consumer.
    unfoldable pub on_request : String → String → String → Exec (Console S) String
    unfolding print sum_response
    on_request id c message = do
      print (receiving_on c ∷ [])
      json ← or_throw parse_error (parse message)
      print (dump_indented json ∷ [])
      x ← as_uint32 (read Member.a json)
      y ← as_uint32 (read Member.b json)
      print ("Responding" ∷ dump_indented (sum_response id ((x + y) % 2 ^ 32)) ∷ "" ∷ [])
      pure (dump (sum_response id ((x + y) % 2 ^ 32)))

    -- What the producer writes for an answer, with `last` after it. An answer without a message,
    -- which `await` does not return, would be undefined; here it throws.
    unfoldable pub show_answer : Option String → List String → Void (Console S)
    unfolding print
    show_answer message last = do
      print ("Response" ∷ [])
      answered ← or_throw parse_error message
      json ← or_throw parse_error (parse answered)
      print (dump_indented json ∷ last)

    -- The callback for `then`.
    unfoldable pub on_resolved : Response → Void (Console S)
    unfolding show_answer print
    on_resolved r = elim (r.resolution) [
      | timeout ↦ print (timed_out ∷ "" ∷ [])
      | answer ↦ show_answer r.message ("" ∷ [])
    ]

  module _ {S : Type 0} (sender : IRequestSender (Requesting S)) (id : String) where
    -- The second half of a round.
    unfoldable pub ask_again : Round → Void (Console (Requesting S))
    unfolding on_resolved sum_request
    ask_again d = do
      on_rest (
          sender.send_request d.second_id d.second_promise d.second_now channel
            (dump (sum_request id d.a d.b)) 1000)
      λ w. in_thread (on_resolved d.second w)
      on_rest (unregister_promise d.second_id)

    -- A round of the producer; `continue` ends it where the first request has timed out. The
    -- destructor of each promise takes it off the registry at the end of its statement.
    unfoldable pub produce_round : Round → Void (Console (Requesting S))
    unfolding ask_again print sum_request show_answer
    produce_round d = do
      print (sending ∷ dump_indented (sum_request id d.a d.b) ∷ [])
      on_rest (
          sender.send_request d.first_id d.first_promise d.first_now channel
            (dump (sum_request id d.a d.b)) 1000)
      on_rest (unregister_promise d.first_id)
      elim (d.first.resolution) [
        | timeout ↦ print (timed_out ∷ [])
        | answer ↦ show_answer d.first.message [] >> ask_again d
      ]
