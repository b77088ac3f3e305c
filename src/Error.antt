-- ===== src/Error.antt =====
-- src/error.rs: the error hierarchy, and `Result<_, MqttError>` with the `?` operator as `◌>>=◌`.
-- An I/O error's and a message's content is not modelled.
use Prim.Native.String.{String}
use jack_hotaru_mqtt.Base.{
  ℕ, ◌≡◌, ◌⊎◌, inl, inr, refl, Bool, true, false, if◌then◌else◌, Option, none, some,
}
use jack_hotaru_mqtt.Codes.ReturnCode.{ConnackReturnCode}

pub data TimeoutKind : Type 0 where
  connack connect_receive ack : TimeoutKind

pub data Violation : Type 0 where
  expected_connack expected_connect : Violation
  connection_refused : ConnackReturnCode → Violation
  unexpected_packet : (expected got : String) → Violation
  invalid_protocol_name : Violation
  unsupported_protocol_level : ℕ → Violation
  empty_topic topic_too_long wildcard_in_publish_topic : Violation
  hash_wildcard_not_terminal wildcard_mixed_with_literal session_already_bound : Violation
  duplicate_property malformed_property unknown_property : ℕ → Violation
  utf8_null_character : Violation

pub data CodecError : Type 0 where
  unexpected_eof : CodecError
  invalid_packet_type : ℕ → CodecError
  malformed_length invalid_utf8 : CodecError
  payload_too_long : (len max : ℕ) → CodecError
  qos_invalid : ℕ → CodecError
  reserved_flag_set : CodecError
  field_too_long : (kind : String) (len : ℕ) → CodecError
  variable_byte_integer_out_of_range : (value : ℕ) → CodecError

pub data MqttError : Type 0 where
  io channel_closed ack_timeout : MqttError
  timeout : TimeoutKind → MqttError
  configuration not_connected : String → MqttError
  protocol : Violation → MqttError
  codec : CodecError → MqttError
  unsupported : String → MqttError

-- `Result<T, MqttError>`.
pub data Result {ℓ} (T : Type ℓ) : Type ℓ where
  ok : T → Result T
  err : MqttError → Result T

-- `let value = result?; rest`.
infixl 5 ◌>>=◌ ◌>>◌
abbrev pub ◌>>=◌ {ℓ κ} : {T : Type ℓ} {U : Type κ} → Result T → (T → Result U) → Result U
ok value >>= rest = rest value
err error >>= rest = err error

-- `option.ok_or(error)`.
abbrev pub ok_or {ℓ} : {T : Type ℓ} → Option T → MqttError → Result T
ok_or (some value) error = ok value
ok_or none error = err error

-- `result?; rest`, of a result without a value.
abbrev pub ◌>>◌ {ℓ} : {U : Type ℓ} → Result (Unit {0}) → Result U → Result U
result >> rest = result >>= λ done. rest

-- `if !test { return Err(error) }`.
abbrev pub guard : Bool → MqttError → Result (Unit {0})
guard test error = if test then ok tt else err error

-- What a chain that succeeds went through.
pub >>=-eq-ok {ℓ κ} :
    {T : Type ℓ} {U : Type κ} (result : Result T) (rest : T → Result U) {last : U}
    → result >>= rest ≡ ok last
    → (value : T) × (result ≡ ok value) × (rest value ≡ ok last)
>>=-eq-ok (err error) rest e = cc
>>=-eq-ok (ok value) rest e = (value, refl, e)

pub ok-injective {ℓ} : {A : Type ℓ} {a b : A} → ok a ≡ ok b → a ≡ b
ok-injective h = cc

pub Result-cases {ℓ} :
    {A : Type ℓ} (r : Result A) → ((a : A) × (r ≡ ok a)) ⊎ ((e : MqttError) × (r ≡ err e))
Result-cases (ok a) = inl (a, refl)
Result-cases (err e) = inr (e, refl)

abbrev pub is_ok {ℓ} : {A : Type ℓ} → Result A → Bool
is_ok (ok a) = true
is_ok (err e) = false
