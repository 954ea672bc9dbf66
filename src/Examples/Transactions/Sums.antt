-- ===== src/Examples/Transactions/Sums.antt =====
-- The consumer's answer: the sum of the two numbers, as 32 bits have it.
use oregano.Base.{
  ℕ, ◌+◌, ◌%◌, ◌^◌, ◌<◌, String, ◌≡◌, refl, ◌∙◌, List, [], ◌∷◌, ◌++◌, ok, arith, some,
}
use mathlib.Core.List.{append_assoc}
use Prim.Native.String.{◌++◌ as append}
use oregano.Examples.{Member, Member_discrete, ExampleJson, Console, print}
use oregano.Examples.Transactions.{sum_request, sum_response, on_request}
use oregano.Messages.{text, number}

module _ (json : ExampleJson) where
  open json use {objects, dump_indented}
  open objects use {Json, empty, read, write, dump, parse-dump, read-write}

  sum_request-members :
      (id : String) (a b : ℕ)
      → (read Member.a (sum_request json id a b) ≡ some (number a))
        × (read Member.b (sum_request json id a b) ≡ some (number b))
  unfolding sum_request Member_discrete
  sum_request-members id a b = (simp read-write, simp read-write)

  -- The answer that is due: an object with the consumer's id and the number.
  abbrev pub answered_by : String → ℕ → Json
  answered_by id sum = write Member.response (number sum) (write Member.id (text id) empty)

  -- what the consumer writes for a request, and its answer
  abbrev pub consumed : String → String → Json → ℕ → List String
  consumed id c request sum =
      append "Receiving message on channel " c
      ∷ dump_indented request
      ∷ "Responding"
      ∷ dump_indented (answered_by id sum)
      ∷ ""
      ∷ []

  -- The consumer answers a request of the producer by the sum of its two numbers modulo 2^32,
  -- throws nothing, and writes the request and the answer.
  pub on_request_lem :
      {S : Type 0} (id c producer_id : String) (a b : ℕ) (x : Console S)
      → on_request json id c (dump (sum_request json producer_id a b)) x ≡ (
        ok (dump (answered_by id ((a + b) % 2 ^ 32))),
        record x {
          lines = x.lines ++ consumed id c (sum_request json producer_id a b) ((a + b) % 2 ^ 32);
        },
      )
  unfolding on_request sum_response print
  on_request_lem id c producer_id a b x =
      let m = sum_request-members producer_id a b in
      rw (parse-dump, m.0, m.1, wraps a b) (simp append_assoc)
    where
      wraps : (a b : ℕ) → (a % 2 ^ 32 + b % 2 ^ 32) % 2 ^ 32 ≡ (a + b) % 2 ^ 32
      wraps a b = omega arith

  -- Where the sum has 32 bits, it is the sum.
  pub on_request_small :
      {S : Type 0} (id c producer_id : String) (a b : ℕ) (x : Console S)
      → a + b < 2 ^ 32
      → on_request json id c (dump (sum_request json producer_id a b)) x ≡ (
        ok (dump (answered_by id (a + b))),
        record x { lines = x.lines ++ consumed id c (sum_request json producer_id a b) (a + b) },
      )
  on_request_small id c producer_id a b x small =
      on_request_lem id c producer_id a b x ∙ rw (unwrapped a b small) refl
    where
      unwrapped : (a b : ℕ) → a + b < 2 ^ 32 → (a + b) % 2 ^ 32 ≡ a + b
      unwrapped a b h = omega arith
