-- ===== src/Properties/RoundTrip/Repeated.antt =====
-- The two properties that may be repeated.
use jack_hotaru_mqtt.Base.{
  ℕ, ◌≡◌, refl, ap, ◌∙◌, true, List, [], ◌∷◌, ◌++◌, Str, All, arith, append_assoc, append-nil,
  is_utf8,
}
use jack_hotaru_mqtt.Error.{ok, >>=-eq-ok}
use jack_hotaru_mqtt.Properties.{Properties}
use jack_hotaru_mqtt.Properties.Id
use jack_hotaru_mqtt.Properties.Write.{
  write_vbi, write_string, subscription_identifiers, user_properties,
}
use jack_hotaru_mqtt.Properties.Parse.{parse_value}
use jack_hotaru_mqtt.Properties.RoundTrip.Piece.{
  Reads, Reads-nil, Reads-append, Reads-again, Reads-widen,
}
use jack_hotaru_mqtt.Properties.RoundTrip.Field.{Field, Reads-of_ok, back-string, back-vbi}

abbrev pub push_identifier : ℕ → Properties → Properties
push_identifier v q = record q { subscription_identifiers = q.subscription_identifiers ++ (v ∷ []) }

abbrev pub push_identifiers : List ℕ → Properties → Properties
push_identifiers [] q = q
push_identifiers (v ∷ vs) q = push_identifiers vs (push_identifier v q)

pub push_identifiers_lem :
    (vs : List ℕ) (q : Properties)
    → push_identifiers vs q
      ≡ record q { subscription_identifiers = q.subscription_identifiers ++ vs }
push_identifiers_lem [] q = rw append-nil
push_identifiers_lem (v ∷ vs) q = rw (push_identifiers_lem vs (push_identifier v q), append_assoc)

identifier_stored :
    (v : ℕ) (body : List ℕ) (q : Properties) (rest : List ℕ)
    → write_vbi v ≡ ok body
    → parse_value Id.subscription_identifier q (body ++ rest) ≡ ok (push_identifier v q, rest)
unfolding parse_value
identifier_stored v body q rest e = rw (back-vbi v body rest e)

pub identifiers_read :
    (vs bs : List ℕ) (lo : ℕ)
    → subscription_identifiers vs ≡ ok bs
    → Reads bs lo lo (push_identifiers vs)
identifiers_read [] bs lo e = Reads-of_ok e (Reads-nil lo lo (omega arith))
identifiers_read (v ∷ vs) bs lo e =
    let (body, written, e') = >>=-eq-ok (write_vbi v) _ e in
    let (rest, others, same) = >>=-eq-ok (subscription_identifiers vs) _ e' in
    Reads-of_ok same (
      Reads-append
        (Reads-again Id.subscription_identifier body (push_identifier v) lo refl
          (λ q r. identifier_stored v body q r written))
        (identifiers_read vs rest lo others))

unfoldable pub identifiers_field : List ℕ → Field
identifiers_field vs = record {
  id = Id.subscription_identifier;
  piece = subscription_identifiers vs;
  update = push_identifiers vs;
  reads = λ bs lo h e. Reads-widen {hi = lo} (omega arith) (identifiers_read vs bs lo e);
}

abbrev pub push_pair : Str × Str → Properties → Properties
push_pair pair q = record q { user_properties = q.user_properties ++ (pair ∷ []) }

abbrev pub push_pairs : List (Str × Str) → Properties → Properties
push_pairs [] q = q
push_pairs (pair ∷ pairs) q = push_pairs pairs (push_pair pair q)

pub push_pairs_lem :
    (pairs : List (Str × Str)) (q : Properties)
    → push_pairs pairs q ≡ record q { user_properties = q.user_properties ++ pairs }
push_pairs_lem [] q = rw append-nil
push_pairs_lem (pair ∷ pairs) q = rw (push_pairs_lem pairs (push_pair pair q), append_assoc)

abbrev pub IsPair : Str × Str → Type 0
IsPair pair = (is_utf8 pair.0 ≡ true) × (is_utf8 pair.1 ≡ true)

pair_stored :
    (key value k v : Str) (q : Properties) (rest : List ℕ)
    → IsPair (key, value)
    → write_string key "property.user_property.key" ≡ ok k
    → write_string value "property.user_property.value" ≡ ok v
    → parse_value Id.user_property q ((k ++ v) ++ rest) ≡ ok (push_pair (key, value) q, rest)
unfolding parse_value
pair_stored key value k v q rest h ek ev = rw (
  append_assoc k v rest,
  back-string _ key k (v ++ rest) h.0 ek,
  back-string _ value v rest h.1 ev,
)

pub pairs_read :
    (pairs : List (Str × Str)) (bs : List ℕ) (lo : ℕ)
    → All IsPair pairs
    → user_properties pairs ≡ ok bs
    → Reads bs lo lo (push_pairs pairs)
pairs_read [] bs lo h e = Reads-of_ok e (Reads-nil lo lo (omega arith))
pairs_read ((key, value) ∷ pairs) bs lo h e =
    let (k, ek, e1) = >>=-eq-ok (write_string key "property.user_property.key") _ e in
    let (v, ev, e2) = >>=-eq-ok (write_string value "property.user_property.value") _ e1 in
    let (rest, others, same) = >>=-eq-ok (user_properties pairs) _ e2 in
    Reads-of_ok (ap (λ t. ok (Id.user_property ∷ t)) (append_assoc k v rest) ∙ same) (
      Reads-append
        (Reads-again Id.user_property (k ++ v) (push_pair (key, value)) lo refl
          (λ q r. pair_stored key value k v q r h.0 ek ev))
        (pairs_read pairs rest lo h.1 others))

unfoldable pub pairs_field : (pairs : List (Str × Str)) → All IsPair pairs → Field
pairs_field pairs h = record {
  id = Id.user_property;
  piece = user_properties pairs;
  update = push_pairs pairs;
  reads = λ bs lo le e. Reads-widen {hi = lo} (omega arith) (pairs_read pairs bs lo h e);
}
