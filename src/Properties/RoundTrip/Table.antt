-- ===== src/Properties/RoundTrip/Table.antt =====
-- The whole table: what `encode` writes, `parse` reads back.
use jack_hotaru_mqtt.Base.{
  ℕ, suc, ◌≤◌, ◌<◌, ◌^◌, ◌≡◌, refl, sym, ap, ◌∙◌, true, List, [], ◌∷◌, ◌++◌, Option, none, some,
  All, arith, append_assoc, append-nil, is_utf8, map, length, le→leb, take-length-append,
  drop-length-append, length-append,
}
use mathlib.Core.Path.{subst}
use jack_hotaru_mqtt.Error.{ok, >>=-eq-ok, ok-injective}
use jack_hotaru_mqtt.Properties.{Properties, default}
use jack_hotaru_mqtt.Properties.Write.{write_vbi}
use jack_hotaru_mqtt.Properties.Validate.{validate_values}
use jack_hotaru_mqtt.Properties.Parse.{parse_loop, parse}
use jack_hotaru_mqtt.Properties.Encode.{concat, encode_values, encode}
use jack_hotaru_mqtt.Properties.RoundTrip.Piece.{Reads, Reads-nil, Reads-append}
use jack_hotaru_mqtt.Properties.RoundTrip.Field.{
  Field, Fits, or_else, Reads-of_ok, byte_field, two_byte_field, four_byte_field, string_field,
  binary_field, back-vbi,
}
use jack_hotaru_mqtt.Properties.RoundTrip.Repeated.{
  IsPair, push_identifiers_lem, push_pairs_lem, identifiers_field, pairs_field,
}
use jack_hotaru_mqtt.Properties.RoundTrip.SlotsLow
use jack_hotaru_mqtt.Properties.RoundTrip.SlotsHigh

-- The values fit their Rust types: a u16 or u32 is below its bound, and a `str` is UTF-8.
pub record IsTyped (p : Properties) : Type 0 where
  pub message_expiry_interval : Fits (λ v. v < 2 ^ 32) p.message_expiry_interval
  pub content_type : Fits (λ s. is_utf8 s ≡ true) p.content_type
  pub response_topic : Fits (λ s. is_utf8 s ≡ true) p.response_topic
  pub session_expiry_interval : Fits (λ v. v < 2 ^ 32) p.session_expiry_interval
  pub assigned_client_identifier : Fits (λ s. is_utf8 s ≡ true) p.assigned_client_identifier
  pub server_keep_alive : Fits (λ v. v < 2 ^ 16) p.server_keep_alive
  pub authentication_method : Fits (λ s. is_utf8 s ≡ true) p.authentication_method
  pub will_delay_interval : Fits (λ v. v < 2 ^ 32) p.will_delay_interval
  pub response_information : Fits (λ s. is_utf8 s ≡ true) p.response_information
  pub server_reference : Fits (λ s. is_utf8 s ≡ true) p.server_reference
  pub reason_string : Fits (λ s. is_utf8 s ≡ true) p.reason_string
  pub receive_maximum : Fits (λ v. v < 2 ^ 16) p.receive_maximum
  pub topic_alias_maximum : Fits (λ v. v < 2 ^ 16) p.topic_alias_maximum
  pub topic_alias : Fits (λ v. v < 2 ^ 16) p.topic_alias
  pub user_properties : All IsPair p.user_properties
  pub maximum_packet_size : Fits (λ v. v < 2 ^ 32) p.maximum_packet_size

or_else-none {ℓ} : {A : Type ℓ} (o : Option A) → or_else o none ≡ o
or_else-none none = refl
or_else-none (some v) = refl

update_all : List Field → Properties → Properties
update_all [] q = q
update_all (f ∷ fs) q = update_all fs (f.update q)

-- The identifiers rise along the list.
abbrev Rising : ℕ → List Field → Type 0
Rising lo [] = Unit {0}
Rising lo (f ∷ fs) = (lo ≤ f.id) × Rising (suc f.id) fs

Reads-all :
    (fs : List Field) (bs : List ℕ) (lo : ℕ)
    → Rising lo fs
    → concat (map (λ f. f.piece) fs) ≡ ok bs
    → (hi : ℕ) × Reads bs lo hi (update_all fs)
unfolding update_all
Reads-all [] bs lo r e = (lo, Reads-of_ok e (Reads-nil lo lo (omega arith)))
Reads-all (f ∷ fs) bs lo r e =
    let (front, here, e1) = >>=-eq-ok f.piece _ e in
    let (back, later, same) = >>=-eq-ok (concat (map (λ g. g.piece) fs)) _ e1 in
    let (hi, rest) = Reads-all fs back (suc f.id) r.1 later in
    (hi, Reads-of_ok same (Reads-append (f.reads front lo r.0 here) rest))

module _ (p : Properties) (typed : IsTyped p) where
  fields : List Field
  fields =
      byte_field SlotsLow.payload_format_indicator SlotsLow.payload_format_indicator_stored
        p.payload_format_indicator
      ∷ four_byte_field SlotsLow.message_expiry_interval SlotsLow.message_expiry_interval_stored
          p.message_expiry_interval typed.message_expiry_interval
      ∷ string_field SlotsLow.content_type SlotsLow.content_type_stored "property.content_type"
          p.content_type typed.content_type
      ∷ string_field SlotsLow.response_topic SlotsLow.response_topic_stored
          "property.response_topic" p.response_topic typed.response_topic
      ∷ binary_field SlotsLow.correlation_data SlotsLow.correlation_data_stored
          "property.correlation_data" p.correlation_data
      ∷ identifiers_field p.subscription_identifiers
      ∷ four_byte_field SlotsLow.session_expiry_interval SlotsLow.session_expiry_interval_stored
          p.session_expiry_interval typed.session_expiry_interval
      ∷ string_field SlotsLow.assigned_client_identifier SlotsLow.assigned_client_identifier_stored
          "property.assigned_client_identifier" p.assigned_client_identifier
          typed.assigned_client_identifier
      ∷ two_byte_field SlotsLow.server_keep_alive SlotsLow.server_keep_alive_stored
          p.server_keep_alive typed.server_keep_alive
      ∷ string_field SlotsLow.authentication_method SlotsLow.authentication_method_stored
          "property.authentication_method" p.authentication_method typed.authentication_method
      ∷ binary_field SlotsLow.authentication_data SlotsLow.authentication_data_stored
          "property.authentication_data" p.authentication_data
      ∷ byte_field SlotsLow.request_problem_information SlotsLow.request_problem_information_stored
          p.request_problem_information
      ∷ four_byte_field SlotsLow.will_delay_interval SlotsLow.will_delay_interval_stored
          p.will_delay_interval typed.will_delay_interval
      ∷ byte_field SlotsLow.request_response_information
          SlotsLow.request_response_information_stored p.request_response_information
      ∷ string_field SlotsHigh.response_information SlotsHigh.response_information_stored
          "property.response_information" p.response_information typed.response_information
      ∷ string_field SlotsHigh.server_reference SlotsHigh.server_reference_stored
          "property.server_reference" p.server_reference typed.server_reference
      ∷ string_field SlotsHigh.reason_string SlotsHigh.reason_string_stored "property.reason_string"
          p.reason_string typed.reason_string
      ∷ two_byte_field SlotsHigh.receive_maximum SlotsHigh.receive_maximum_stored p.receive_maximum
          typed.receive_maximum
      ∷ two_byte_field SlotsHigh.topic_alias_maximum SlotsHigh.topic_alias_maximum_stored
          p.topic_alias_maximum typed.topic_alias_maximum
      ∷ two_byte_field SlotsHigh.topic_alias SlotsHigh.topic_alias_stored p.topic_alias
          typed.topic_alias
      ∷ byte_field SlotsHigh.maximum_qos SlotsHigh.maximum_qos_stored p.maximum_qos
      ∷ byte_field SlotsHigh.retain_available SlotsHigh.retain_available_stored p.retain_available
      ∷ pairs_field p.user_properties typed.user_properties
      ∷ four_byte_field SlotsHigh.maximum_packet_size SlotsHigh.maximum_packet_size_stored
          p.maximum_packet_size typed.maximum_packet_size
      ∷ byte_field SlotsHigh.wildcard_subscription_available
          SlotsHigh.wildcard_subscription_available_stored p.wildcard_subscription_available
      ∷ byte_field SlotsHigh.subscription_identifier_available
          SlotsHigh.subscription_identifier_available_stored p.subscription_identifier_available
      ∷ byte_field SlotsHigh.shared_subscription_available
          SlotsHigh.shared_subscription_available_stored p.shared_subscription_available
      ∷ []

  fields-Rising : Rising 0 fields
  unfolding fields byte_field two_byte_field four_byte_field string_field binary_field
      identifiers_field pairs_field
  fields-Rising = omega arith

  pieces_encode : encode_values p ≡ concat (map (λ f. f.piece) fields)
  unfolding fields encode_values byte_field two_byte_field four_byte_field string_field binary_field
      identifiers_field pairs_field
  pieces_encode = refl

  update_all-fields : update_all fields default ≡ p
  unfolding fields update_all byte_field two_byte_field four_byte_field string_field binary_field
      identifiers_field pairs_field
  update_all-fields = simp (push_identifiers_lem, push_pairs_lem, or_else-none)

  -- The loop of `parse` rebuilds the properties from the values that `encode_values` wrote.
  parse_loop-encode :
      (body : List ℕ) → encode_values p ≡ ok body → parse_loop (length body) body default [] ≡ ok p
  parse_loop-encode body e =
      let (hi, reads) = Reads-all fields body 0 fields-Rising (sym pieces_encode ∙ e) in
      let (fuel, seen, loop, _, _) =
        reads.run (length body) [] default [] tt (rw append-nil (omega arith)) in
      rw append-nil at loop ∙ unfold parse_loop in ap ok update_all-fields

parse_of_parts :
    (p : Properties) (size body rest : List ℕ)
    → write_vbi (length body) ≡ ok size
    → parse_loop (length body) body default [] ≡ ok p
    → validate_values p ≡ ok tt
    → parse (size ++ (body ++ rest)) ≡ ok (p, rest)
unfolding parse
parse_of_parts p size body rest sized loop valid = rw (
  back-vbi (length body) size (body ++ rest) sized,
  le→leb (length body) (length (body ++ rest)) (omega (arith, length-append body rest)),
  take-length-append body rest,
  drop-length-append body rest,
  loop,
  valid,
)

-- A block that `encode` wrote is read back, with what follows it left: on every property block whose
-- values fit their types.
pub parse-encode :
    (p : Properties) (wire rest : List ℕ)
    → IsTyped p
    → encode p ≡ ok wire
    → parse (wire ++ rest) ≡ ok (p, rest)
unfolding encode
parse-encode p wire rest typed e =
    let (_, valid, e1) = >>=-eq-ok (validate_values p) _ e in
    let (body, values, e2) = >>=-eq-ok (encode_values p) _ e1 in
    let (size, sized, same) = >>=-eq-ok (write_vbi (length body)) _ e2 in
    subst (λ w. parse (w ++ rest) ≡ ok (p, rest)) (ok-injective same)
      (rw (append_assoc size body rest)
        (parse_of_parts p size body rest sized (parse_loop-encode p typed body values) valid))
