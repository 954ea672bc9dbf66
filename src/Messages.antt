-- ===== src/Messages.antt =====
-- The frames that the parts of the transaction system exchange, and the two libraries that write
-- them: nlohmann::json and cppcodec::base64_rfc4648. Both lie outside the repository and are
-- parameters.
use oregano.Base.{ℕ, String, ◌≡◌, Option, none, some, ite, Exception, Exec, pure, throw}

-- The places of a frame that the source names: header.response_channel, header.id,
-- header.valid_until and payload.
pub data Field : Type 0 where
  response_channel : Field
  id : Field
  valid_until : Field
  payload : Field

unfoldable pub Field_discrete : Discrete Field
Field_discrete = hlevel

pub data Value : Type 0 where
  text : String → Value
  number : ℕ → Value

-- What the source uses of nlohmann::json for objects with the members `F`, with the documented
-- behaviour of each: a new value has no members, an assignment sets the member that it names, and
-- `parse` reads what `dump` writes.
pub record JsonObjects (F : Type 0) (F_discrete : Discrete F) : Type 1 where
  pub Json : Type 0
  pub empty : Json
  pub write : F → Value → Json → Json
  pub read : F → Json → Option Value
  pub dump : Json → String
  pub parse : String → Option Json
  pub read-empty : (f : F) → read f empty ≡ none
  pub read-write :
      (f g : F) (v : Value) (j : Json)
      → read f (write g v j) ≡ ite (F_discrete g f) (some v) (read f j)
  pub parse-dump : (j : Json) → parse (dump j) ≡ some j

-- the library on frames
abbrev pub JsonLibrary : Type 1
JsonLibrary = JsonObjects Field Field_discrete

-- `decode` throws on what is no encoding, and undoes `encode`.
pub record Base64 : Type 0 where
  pub encode : String → String
  pub decode : String → Option String
  pub decode-encode : (s : String) → decode (encode s) ≡ some s

-- The exceptions of the two libraries.
abbrev pub parse_error : Exception
parse_error = Exception.foreign 0

abbrev pub type_error : Exception
type_error = Exception.foreign 1

abbrev pub decode_error : Exception
decode_error = Exception.foreign 2

abbrev pub or_throw {ℓ κ} : {S : Type ℓ} {A : Type κ} → Exception → Option A → Exec S A
or_throw e none = throw e
or_throw e (some a) = pure a

-- Conversion of a member to std::string, which throws on a member of another type. A missing member
-- is read from a constant value, which the library leaves undefined; here it throws too.
abbrev pub as_text {ℓ} : {S : Type ℓ} → Option Value → Exec S String
as_text (some (text s)) = pure s
as_text _ = throw type_error

-- Conversion of a member to a number of milliseconds.
abbrev pub as_number {ℓ} : {S : Type ℓ} → Option Value → Exec S ℕ
as_number (some (number n)) = pure n
as_number _ = throw type_error
