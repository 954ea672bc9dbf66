-- ===== src/RoundTrip/Plain.antt =====
-- A small format of frames, to run requests and responses on.
use Prim.Native.Char.{Char, code}
use oregano.Base.{
  ℕ, String, ◌≡◌, refl, Option, none, some, ite, ◌==◌, if◌then◌else◌, arith, suc, zero,
}
use oregano.Messages.{JsonLibrary, Base64, Field, Field_discrete, Value, text, number}

-- A text within a text: a mark before each character, another at the end.
abbrev put_text : String → String → String
put_text String.[] r = String.◌∷◌ "." r
put_text (String.◌∷◌ c s) r = String.◌∷◌ "+" (String.◌∷◌ c (put_text s r))

abbrev longer : Char → Option (String × String) → Option (String × String)
longer c none = none
longer c (some (s, r)) = some (String.◌∷◌ c s, r)

abbrev get_text : String → Option (String × String)
get_text String.[] = none
get_text (String.◌∷◌ m String.[]) = some ("", "")
get_text (String.◌∷◌ m (String.◌∷◌ c r)) =
    let rest = get_text r in if code m == 43 then longer c rest else some ("", String.◌∷◌ c r)

get-put_text : (s r : String) → get_text (put_text s r) ≡ some (s, r)
get-put_text String.[] String.[] = refl
get-put_text String.[] (String.◌∷◌ c r) = refl
get-put_text (String.◌∷◌ c s) r = rw (get-put_text s r) refl

-- A number as that many dots.
abbrev dots : ℕ → String
dots zero = ""
dots (suc n) = String.◌∷◌ "." (dots n)

abbrev count_dots : String → ℕ
count_dots String.[] = 0
count_dots (String.◌∷◌ c s) = suc (count_dots s)

count-dots : (n : ℕ) → count_dots (dots n) ≡ n
count-dots zero = refl
count-dots (suc n) = rw (count-dots n) refl

abbrev pub put : Option Value → String → String
put none r = String.◌∷◌ "n" (put_text "" r)
put (some (text s)) r = String.◌∷◌ "t" (put_text s r)
put (some (number n)) r = String.◌∷◌ "d" (put_text (dots n) r)

abbrev value : ℕ → String → Option Value
value tag s =
    if tag == b't'
    then some (text s)
    else if tag == b'd'
    then some (number (count_dots s))
    else none

abbrev tagged : ℕ → Option (String × String) → Option (Option Value × String)
tagged tag none = none
tagged tag (some (s, r)) = some (value tag s, r)

abbrev pub get : String → Option (Option Value × String)
get String.[] = none
get (String.◌∷◌ tag r) = tagged (code tag) (get_text r)

pub get-put : (v : Option Value) (r : String) → get (put v r) ≡ some (v, r)
get-put none r = rw (get-put_text "" r) refl
get-put (some (text s)) r = rw (get-put_text s r) refl
get-put (some (number n)) r = rw (get-put_text (dots n) r, count-dots n) refl

-- The four members, each with its value if it has one.
pub record Frame : Type 0 where
  pub response_channel : Option Value
  pub id : Option Value
  pub valid_until : Option Value
  pub payload : Option Value

abbrev write : Field → Value → Frame → Frame
write Field.response_channel v j = record j { response_channel = some v }
write Field.id v j = record j { id = some v }
write Field.valid_until v j = record j { valid_until = some v }
write Field.payload v j = record j { payload = some v }

abbrev read : Field → Frame → Option Value
read Field.response_channel j = j.response_channel
read Field.id j = j.id
read Field.valid_until j = j.valid_until
read Field.payload j = j.payload

abbrev blank : Frame
blank = record { response_channel = none; id = none; valid_until = none; payload = none }

pub read-empty : (f : Field) → read f blank ≡ none
read-empty Field.response_channel = refl
read-empty Field.id = refl
read-empty Field.valid_until = refl
read-empty Field.payload = refl

pub read-write :
    (f g : Field) (v : Value) (j : Frame)
    → read f (write g v j) ≡ ite (Field_discrete g f) (some v) (read f j)
unfolding Field_discrete
read-write f g v j = ground arith

abbrev dump : Frame → String
dump j = put j.response_channel (put j.id (put j.valid_until (put j.payload "")))

abbrev pub bind : {A B : Type 0} → Option A → (A → Option B) → Option B
bind none f = none
bind (some a) f = f a

abbrev parse : String → Option Frame
parse s = bind (get s) λ (a, s₁). bind (get s₁) λ (b, s₂). bind (get s₂) λ (c, s₃).
    bind (get s₃)
      λ (d, _). some (record { response_channel = a; id = b; valid_until = c; payload = d })

pub parse-dump : (j : Frame) → parse (dump j) ≡ some j
parse-dump j =
    rw
      (
        get-put (j.response_channel) _,
        get-put (j.id) _,
        get-put (j.valid_until) _,
        get-put (j.payload) "",
      )
      refl

abbrev pub plain_json : JsonLibrary
plain_json = record {
  Json = Frame;
  empty = blank;
  write = write;
  read = read;
  dump = dump;
  parse = parse;
  read-empty = read-empty;
  read-write = read-write;
  parse-dump = parse-dump;
}

abbrev pub plain_base64 : Base64
plain_base64 = record { encode = λ s. s; decode = λ s. some s; decode-encode = λ s. refl }
