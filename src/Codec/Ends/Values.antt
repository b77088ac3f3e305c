-- ===== src/Codec/Ends/Values.antt =====
-- `parse_value`, row by row.
use jack_hotaru_mqtt.Base.{
  ℕ, ◌≤◌, Bool, List, [], ◌∷◌, ◌++◌, Str, length, ◌==◌, some, if◌then◌else◌, arith,
}
use jack_hotaru_mqtt.Error.{unknown_property, Result, ok, err, ◌>>=◌, protocol}
use jack_hotaru_mqtt.Properties.{Properties}
use jack_hotaru_mqtt.Properties.Id
use jack_hotaru_mqtt.Properties.Read.{
  read_u8, read_u16, read_u32, read_string, read_binary, read_vbi,
}
use jack_hotaru_mqtt.Properties.Parse.{store, parse_value}
use jack_hotaru_mqtt.Codec.Ends.{Takes, Takes-then, Takes-if}
use jack_hotaru_mqtt.Codec.Ends.Readers.{
  protocol-io, Takes-u8, Takes-u16, Takes-u32, Takes-prefixed, Takes-string, Takes-vbi,
}

Takes-store :
    {A : Type 0} (n : ℕ) (read : Result (A × List ℕ)) (set : A → Properties)
    → Takes n read
    → Takes n (store read set)
Takes-store n (ok (a, rest)) set h = h
Takes-store n (err e) set h = h

-- `Takes` of a result that stands in the goal as it is written.
pub record Within {A : Type 0} (n : ℕ) (r : Result (A × List ℕ)) : Type 0 where
  pub within : Takes n r

Within-row :
    {A : Type 0} (n : ℕ) (b : Bool) (read : Result (A × List ℕ)) (set : A → Properties)
    (rest : Result (Properties × List ℕ))
    → Takes n read
    → Within n rest
    → Within n (if b then store read set else rest)
Within-row n b read set rest h l = record {
  within = Takes-if n b (store read set) rest (Takes-store n read set h) l.within;
}

abbrev with_pair : Str → Properties → Str → Properties
with_pair key properties v = record properties {
  user_properties = properties.user_properties ++ ((key, v) ∷ []);
}

shorter : {A : Type 0} (m n : ℕ) (r : Result (A × List ℕ)) → m ≤ n → Takes m r → Takes n r
shorter m n (ok (a, rest)) h l = omega (arith, h, l)
shorter m n (err e) h l = l

Within-pair :
    (properties : Properties) (input : List ℕ) (b : Bool) (last : Result (Properties × List ℕ))
    → Within (length input) last
    → Within (length input) (
        if b
        then (do
          (key, rest) ← read_string input
          store (read_string rest) (with_pair key properties))
        else last)
Within-pair properties input b last l =
    let n = length input in
    record {
      within =
          Takes-if n b _ last
            (Takes-then n n (read_string input)
              (λ (key, rest). store (read_string rest) (with_pair key properties))
              (Takes-string input)
              (λ key rest h.
                Takes-store n (read_string rest) (with_pair key properties)
                  (shorter (length rest) n (read_string rest) h (Takes-string rest))))
            l.within;
    }

pub Within-value :
    (property_id : ℕ) (properties : Properties) (input : List ℕ)
    → Within (length input) (parse_value property_id properties input)
unfolding parse_value
Within-value property_id properties input =
    let n = length input in
    let u8 = Takes-u8 input in
    let u16 = Takes-u16 input in
    let u32 = Takes-u32 input in
    let text = Takes-string input in
    let binary : Takes n (read_binary input) = unfold read_binary in Takes-prefixed input in
    let unknown : Within {A = Properties} n (err (protocol (unknown_property property_id))) =
      record { within = protocol-io (unknown_property property_id) } in
    let vbi = Takes-vbi input in
    Within-row n (property_id == Id.payload_format_indicator) (read_u8 input)
      (λ v. record properties { payload_format_indicator = some v }) _ u8
      (Within-row n (property_id == Id.message_expiry_interval) (read_u32 input)
        (λ v. record properties { message_expiry_interval = some v }) _ u32
        (Within-row n (property_id == Id.content_type) (read_string input)
          (λ v. record properties { content_type = some v }) _ text
          (Within-row n (property_id == Id.response_topic) (read_string input)
            (λ v. record properties { response_topic = some v }) _ text
            (Within-row n (property_id == Id.correlation_data) (read_binary input)
              (λ v. record properties { correlation_data = some v }) _ binary
              (Within-row n (property_id == Id.subscription_identifier) (read_vbi input)
                (λ v. record properties {
                  subscription_identifiers = properties.subscription_identifiers ++ (v ∷ []);
                })
                _ vbi
                (Within-row n (property_id == Id.session_expiry_interval) (read_u32 input)
                  (λ v. record properties { session_expiry_interval = some v }) _ u32
                  (Within-row n (property_id == Id.assigned_client_identifier) (read_string input)
                    (λ v. record properties { assigned_client_identifier = some v }) _ text
                    (Within-row n (property_id == Id.server_keep_alive) (read_u16 input)
                      (λ v. record properties { server_keep_alive = some v }) _ u16
                      (Within-row n (property_id == Id.authentication_method) (read_string input)
                        (λ v. record properties { authentication_method = some v }) _ text
                        (Within-row n (property_id == Id.authentication_data) (read_binary input)
                          (λ v. record properties { authentication_data = some v }) _ binary
                          (Within-row n (property_id == Id.request_problem_information)
                            (read_u8 input)
                            (λ v. record properties { request_problem_information = some v }) _ u8
                            (Within-row n (property_id == Id.will_delay_interval) (read_u32 input)
                              (λ v. record properties { will_delay_interval = some v }) _ u32
                              (Within-row n (property_id == Id.request_response_information)
                                (read_u8 input)
                                (λ v. record properties { request_response_information = some v }) _
                                u8
                                (Within-row n (property_id == Id.response_information)
                                  (read_string input)
                                  (λ v. record properties { response_information = some v }) _ text
                                  (Within-row n (property_id == Id.server_reference)
                                    (read_string input)
                                    (λ v. record properties { server_reference = some v }) _ text
                                    (Within-row n (property_id == Id.reason_string)
                                      (read_string input)
                                      (λ v. record properties { reason_string = some v }) _ text
                                      (Within-row n (property_id == Id.receive_maximum)
                                        (read_u16 input)
                                        (λ v. record properties { receive_maximum = some v }) _ u16
                                        (Within-row n (property_id == Id.topic_alias_maximum)
                                          (read_u16 input)
                                          (λ v. record properties { topic_alias_maximum = some v })
                                          _ u16
                                          (Within-row n (property_id == Id.topic_alias)
                                            (read_u16 input)
                                            (λ v. record properties { topic_alias = some v }) _ u16
                                            (Within-row n (property_id == Id.maximum_qos)
                                              (read_u8 input)
                                              (λ v. record properties { maximum_qos = some v }) _ u8
                                              (Within-row n (property_id == Id.retain_available)
                                                (read_u8 input)
                                                (λ v. record properties {
                                                  retain_available = some v;
                                                })
                                                _ u8
                                                (Within-pair properties input
                                                  (property_id == Id.user_property) _
                                                  (Within-row n
                                                    (property_id == Id.maximum_packet_size)
                                                    (read_u32 input)
                                                    (λ v. record properties {
                                                      maximum_packet_size = some v;
                                                    })
                                                    _ u32
                                                    (Within-row n
                                                      (property_id
                                                        == Id.wildcard_subscription_available)
                                                      (read_u8 input)
                                                      (λ v. record properties {
                                                        wildcard_subscription_available = some v;
                                                      })
                                                      _ u8
                                                      (Within-row n
                                                        (property_id
                                                          == Id.subscription_identifier_available)
                                                        (read_u8 input)
                                                        (λ v. record properties {
                                                          subscription_identifier_available =
                                                            some v;
                                                        })
                                                        _ u8
                                                        (Within-row n
                                                          (property_id
                                                            == Id.shared_subscription_available)
                                                          (read_u8 input)
                                                          (λ v. record properties {
                                                            shared_subscription_available = some v;
                                                          })
                                                          _ u8 (unknown)))))))))))))))))))))))))))
