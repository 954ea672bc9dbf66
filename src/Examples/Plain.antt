-- ===== src/Examples/Plain.antt =====
-- A small format of the examples' messages, to run the programs on.
use oregano.Base.{String, ◌≡◌, refl, Option, none, some, ite, arith}
use oregano.Examples.{Member, Member_discrete, ExampleJson}
use oregano.Messages.{Value}
use oregano.RoundTrip.Plain.{put, get, bind, get-put}

-- The six members, each with its value if it has one.
pub record Message : Type 0 where
  pub id : Option Value
  pub timestamp : Option Value
  pub message_count : Option Value
  pub a : Option Value
  pub b : Option Value
  pub response : Option Value

abbrev empty : Message
empty = record {
  id = none;
  timestamp = none;
  message_count = none;
  a = none;
  b = none;
  response = none;
}

abbrev write : Member → Value → Message → Message
write Member.id v j = record j { id = some v }
write Member.timestamp v j = record j { timestamp = some v }
write Member.message_count v j = record j { message_count = some v }
write Member.a v j = record j { a = some v }
write Member.b v j = record j { b = some v }
write Member.response v j = record j { response = some v }

abbrev read : Member → Message → Option Value
read Member.id j = j.id
read Member.timestamp j = j.timestamp
read Member.message_count j = j.message_count
read Member.a j = j.a
read Member.b j = j.b
read Member.response j = j.response

pub read-empty : (f : Member) → read f empty ≡ none
read-empty f = ground arith

pub read-write :
    (f g : Member) (v : Value) (j : Message)
    → read f (write g v j) ≡ ite (Member_discrete g f) (some v) (read f j)
unfolding Member_discrete
read-write f g v j = ground arith

abbrev dump : Message → String
dump j = put j.id (put j.timestamp (put j.message_count (put j.a (put j.b (put j.response "")))))

abbrev parse : String → Option Message
parse s = bind (get s) λ (i, s₁). bind (get s₁) λ (t, s₂). bind (get s₂) λ (c, s₃).
    bind (get s₃) λ (x, s₄). bind (get s₄) λ (y, s₅). bind (get s₅) λ (r, _).
      some (record { id = i; timestamp = t; message_count = c; a = x; b = y; response = r })

pub parse-dump : (j : Message) → parse (dump j) ≡ some j
parse-dump j =
    rw
      (
        get-put (j.id) _,
        get-put (j.timestamp) _,
        get-put (j.message_count) _,
        get-put (j.a) _,
        get-put (j.b) _,
        get-put (j.response) "",
      )
      refl

abbrev pub plain_examples : ExampleJson
plain_examples = record {
  objects = record {
    Json = Message;
    empty = empty;
    write = write;
    read = read;
    dump = dump;
    parse = parse;
    read-empty = read-empty;
    read-write = read-write;
    parse-dump = parse-dump;
  };
  dump_indented = dump;
}
