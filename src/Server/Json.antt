-- ===== src/Server/Json.antt =====
-- What the handlers use of encoding/json: the fields of an object, read into a struct of texts,
-- numbers and flags. The words of the decoder's errors are left out.
use backlog_server.Prelude.{
  String, Bool, false, Option, none, some, List, [], ◌∷◌, if◌then◌else◌, equal_fold,
}
use backlog_server.Prelude.Int.{ℤ, pos}

-- `number` is an integer in the range of Go's int; any other number, an array or an object is
-- `other`.
pub data JsonValue : Type 0 where
  text : String → JsonValue
  number : ℤ → JsonValue
  flag : Bool → JsonValue
  null : JsonValue
  other : JsonValue

-- A body that is no JSON object, or the fields of one in their order; `null` has none.
pub data Body : Type 0 where
  malformed : Body
  object : List (String × JsonValue) → Body

-- What a value does to a field of the struct.
pub data Reading (A : Type 0) : Type 0 where
  assign : A → Reading A
  keep : Reading A
  mismatch : Reading A

as_text : JsonValue → Reading String
as_text (text s) = assign s
as_text null = keep
as_text _ = mismatch

as_number : JsonValue → Reading ℤ
as_number (number n) = assign n
as_number null = keep
as_number _ = mismatch

as_flag : JsonValue → Reading Bool
as_flag (flag b) = assign b
as_flag null = keep
as_flag _ = mismatch

-- The last value under the name counts, whatever its letters' case; none is an error.
decode_field :
    {A : Type 0} → (JsonValue → Reading A) → String → A → List (String × JsonValue) → Option A
decode_field read name zero_value [] = some zero_value
decode_field read name zero_value ((k, v) ∷ rest) =
    elim (if equal_fold k name then read v else keep) [
      | assign a ↦ decode_field read name a rest
      | keep ↦ decode_field read name zero_value rest
      | mismatch ↦ none
    ]

of_body : {A : Type 0} → (JsonValue → Reading A) → String → A → Body → Option A
unfolding decode_field
of_body read name zero_value malformed = none
of_body read name zero_value (object fields) = decode_field read name zero_value fields

unfoldable pub text_of : String → Body → Option String
unfolding of_body as_text
text_of name = of_body as_text name ""

unfoldable pub number_of : String → Body → Option ℤ
unfolding of_body as_number
number_of name = of_body as_number name (pos 0)

unfoldable pub flag_of : String → Body → Option Bool
unfolding of_body as_flag
flag_of name = of_body as_flag name false
