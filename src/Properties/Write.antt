-- ===== src/Properties/Write.antt =====
-- src/properties.rs: the writers, and the macros of `encode_values` that use them.
use Prim.Native.String.{String}
use jack_hotaru_mqtt.Base.{
  ℕ, List, [], ◌∷◌, ◌++◌, Str, Option, none, some, length, ltb, if◌then◌else◌,
}
use jack_hotaru_mqtt.Error.{
  Result, ok, err, ◌>>=◌, ◌>>◌, codec, field_too_long, variable_byte_integer_out_of_range,
}
use jack_hotaru_mqtt.Wire.Integers.{u16_be, u32_be}
use jack_hotaru_mqtt.Wire.Length.{encode_remaining_length}
use jack_hotaru_mqtt.Properties.Id
use jack_hotaru_mqtt.Properties.Read.{validate_string}

abbrev pub max_variable_byte_integer : ℕ
max_variable_byte_integer = 268_435_455

-- The loop is that of `encode_remaining_length`, byte for byte.
unfoldable pub write_vbi : ℕ → Result (List ℕ)
write_vbi value =
    if ltb max_variable_byte_integer value
    then err (codec (variable_byte_integer_out_of_range value))
    else ok (encode_remaining_length value)

unfoldable pub write_prefixed_bytes : List ℕ → String → Result (List ℕ)
write_prefixed_bytes value kind =
    if ltb (length value) 65536
    then ok (u16_be (length value) ++ value)
    else err (codec (field_too_long kind (length value)))

unfoldable pub write_string : Str → String → Result (List ℕ)
unfolding write_prefixed_bytes
write_string value kind = do validate_string value; write_prefixed_bytes value kind

abbrev pub write_binary : List ℕ → String → Result (List ℕ)
write_binary = write_prefixed_bytes

abbrev pub byte_property : ℕ → Option ℕ → Result (List ℕ)
byte_property id none = ok []
byte_property id (some value) = ok (id ∷ value ∷ [])

abbrev pub two_byte_property : ℕ → Option ℕ → Result (List ℕ)
two_byte_property id none = ok []
two_byte_property id (some value) = ok (id ∷ u16_be value)

abbrev pub four_byte_property : ℕ → Option ℕ → Result (List ℕ)
four_byte_property id none = ok []
four_byte_property id (some value) = ok (id ∷ u32_be value)

abbrev pub string_property : String → ℕ → Option Str → Result (List ℕ)
string_property kind id none = ok []
string_property kind id (some value) = do body ← write_string value kind; ok (id ∷ body)

abbrev pub binary_property : String → ℕ → Option (List ℕ) → Result (List ℕ)
binary_property kind id none = ok []
binary_property kind id (some value) = do body ← write_binary value kind; ok (id ∷ body)

-- The loops over the repeatable properties.
abbrev pub subscription_identifiers : List ℕ → Result (List ℕ)
subscription_identifiers [] = ok []
subscription_identifiers (value ∷ values) = do
  body ← write_vbi value
  rest ← subscription_identifiers values
  ok (Id.subscription_identifier ∷ body ++ rest)

abbrev pub user_properties : List (Str × Str) → Result (List ℕ)
user_properties [] = ok []
user_properties ((key, value) ∷ pairs) = do
  k ← write_string key "property.user_property.key"
  v ← write_string value "property.user_property.value"
  rest ← user_properties pairs
  ok (Id.user_property ∷ k ++ (v ++ rest))
