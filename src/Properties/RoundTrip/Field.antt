-- ===== src/Properties/RoundTrip/Field.antt =====
-- The fields of a property block, each with what it writes and what reading that back stores.
use Prim.Native.String.{String}
use jack_hotaru_mqtt.Base.{
  ℕ, suc, ◌≤◌, ◌<◌, ◌^◌, ◌≡◌, refl, sym, ◌∙◌, true, false, List, [], ◌∷◌, ◌++◌, Str, Option, none,
  some, arith, is_utf8,
}
use mathlib.Core.Path.{subst}
use jack_hotaru_mqtt.Error.{Result, ok, >>=-eq-ok, ◌>>=◌}
use jack_hotaru_mqtt.Wire.Integers.{u16_be, u32_be}
use jack_hotaru_mqtt.Properties.{Properties}
use jack_hotaru_mqtt.Properties.Read.{
  read_u8, read_u16, read_u32, read_string, read_binary, read_vbi, validate_string,
}
use jack_hotaru_mqtt.Properties.Read.RoundTrip.{
  read-u16_be, read-u32_be, read-string, read-binary, read-vbi,
}
use jack_hotaru_mqtt.Properties.Write.{
  write_vbi, write_prefixed_bytes, write_string, write_binary, byte_property, two_byte_property,
  four_byte_property, string_property, binary_property,
}
use jack_hotaru_mqtt.Properties.Parse.{repeatable, parse_value}
use jack_hotaru_mqtt.Properties.RoundTrip.Piece.{Reads, Reads-nil, Reads-loosen, Reads-once}

pub record Field : Type 0 where
  pub id : ℕ
  pub piece : Result (List ℕ)
  pub update : Properties → Properties
  pub reads : (bs : List ℕ) (lo : ℕ) → lo ≤ id → piece ≡ ok bs → Reads bs lo (suc id) update

-- A stored value takes the place of an absent one.
abbrev pub or_else {ℓ} : {A : Type ℓ} → Option A → Option A → Option A
or_else none d = d
or_else (some v) d = some v

abbrev pub Fits : {A : Type 0} → (A → Type 0) → Option A → Type 0
Fits P none = Unit {0}
Fits P (some v) = P v

-- `put v` stores `v`, and `put none` stores nothing; the identifier may stand once.
pub record Slot (A : Type 0) : Type 0 where
  pub id : ℕ
  pub put : Option A → Properties → Properties
  pub small : id < 64
  pub once : repeatable id ≡ false
  pub absent : (q : Properties) → put none q ≡ q

module _ {A : Type 0} (s : Slot A) where
  nothing : (lo : ℕ) → lo ≤ s.id → Reads [] lo (suc s.id) (s.put none)
  nothing lo h = record {
    run = λ fuel rest q seen b l.
        rw (s.absent q) ((Reads-nil lo (suc s.id) (omega arith)).run fuel rest q seen b l);
  }

  -- A value whose encoding `body` is read back makes a piece that is read back.
  something :
      (v : A) (body : List ℕ) (lo : ℕ)
      → lo ≤ s.id
      → ((q : Properties) (rest : List ℕ)
          → parse_value s.id q (body ++ rest) ≡ ok (s.put (some v) q, rest))
      → Reads (s.id ∷ body) lo (suc s.id) (s.put (some v))
  something v body lo h read =
      Reads-loosen h (Reads-once s.id body (s.put (some v)) s.small s.once read)

  -- The reader `read` is the one that `parse_value` uses at this identifier.
  abbrev pub Uses : (List ℕ → Result (A × List ℕ)) → Type 0
  Uses read =
      (q : Properties) (input rest : List ℕ) (v : A)
      → read input ≡ ok (v, rest)
      → parse_value s.id q input ≡ ok (s.put (some v) q, rest)

pub all_fit : {A : Type 0} (v : Option A) → Fits (λ x. Unit {0}) v
all_fit none = tt
all_fit (some v) = tt

-- A piece is what one of the macros appends for an optional value; `write` encodes a value.
abbrev pub IsPiece :
    {A : Type 0} → ℕ → (A → Result (List ℕ)) → (Option A → Result (List ℕ)) → Type 0
IsPiece {A} id write piece =
    (piece none ≡ ok []) × ((v : A) → piece (some v) ≡ (write v >>= λ body. ok (id ∷ body)))

-- What `write` writes, `read` reads back.
abbrev pub IsReadBack :
    {A : Type 0} → (A → Type 0) → (A → Result (List ℕ)) → (List ℕ → Result (A × List ℕ)) → Type 0
IsReadBack {A} P write read =
    (v : A) (body rest : List ℕ) → P v → write v ≡ ok body → read (body ++ rest) ≡ ok (v, rest)

pub Reads-of_ok :
    {bs cs : List ℕ} {lo hi : ℕ} {f : Properties → Properties}
    → ok bs ≡ ok cs
    → Reads bs lo hi f
    → Reads cs lo hi f
Reads-of_ok {bs} {cs} {lo} {hi} {f} e r = subst (λ t. Reads t lo hi f) (same e) r
  where
    same : ok bs ≡ ok cs → bs ≡ cs
    same p = cc

module _ {A : Type 0} (s : Slot A) (P : A → Type 0) (write : A → Result (List ℕ))
    (read : List ℕ → Result (A × List ℕ)) (piece : Option A → Result (List ℕ)) (uses : Uses s read)
    (is_piece : IsPiece s.id write piece) (back : IsReadBack P write read) where
  pub Reads-value :
      (v : Option A) (bs : List ℕ) (lo : ℕ)
      → Fits P v
      → lo ≤ s.id
      → piece v ≡ ok bs
      → Reads bs lo (suc s.id) (s.put v)
  Reads-value none bs lo fits h e = Reads-of_ok (sym is_piece.0 ∙ e) (nothing s lo h)
  Reads-value (some v) bs lo fits h e =
      let (body, written, same) = >>=-eq-ok (write v) _ (sym (is_piece.1 v) ∙ e) in
      Reads-of_ok same (
        something s v body lo h
          (λ q rest. uses q (body ++ rest) rest v (back v body rest fits written)))

  unfoldable pub value_field : (v : Option A) → Fits P v → Field
  value_field v fits = record {
    id = s.id;
    piece = piece v;
    update = s.put v;
    reads = λ bs lo h e. Reads-value v bs lo fits h e;
  }

pub back-u8 : IsReadBack (λ v. Unit {0}) (λ v. ok (v ∷ [])) read_u8
unfolding read_u8
back-u8 v body rest fits e = ground arith

pub back-u16 : IsReadBack (λ v. v < 2 ^ 16) (λ v. ok (u16_be v)) read_u16
back-u16 v body rest fits e = ground (arith, read-u16_be v rest fits)

pub back-u32 : IsReadBack (λ v. v < 2 ^ 32) (λ v. ok (u32_be v)) read_u32
back-u32 v body rest fits e = ground (arith, read-u32_be v rest fits)

pub back-string :
    (kind : String)
    → IsReadBack (λ (v : Str). is_utf8 v ≡ true) (λ v. write_string v kind) read_string
unfolding write_string validate_string
back-string kind v body rest fits e = ground (arith, read-string v rest fits)

pub back-binary :
    (kind : String) → IsReadBack (λ (v : List ℕ). Unit {0}) (λ v. write_binary v kind) read_binary
unfolding write_prefixed_bytes
back-binary kind v body rest fits e = ground (arith, read-binary v rest)

pub back-vbi :
    (v : ℕ) (body rest : List ℕ) → write_vbi v ≡ ok body → read_vbi (body ++ rest) ≡ ok (v, rest)
unfolding write_vbi
back-vbi v body rest e = ground (arith, read-vbi v rest)

module _ (s : Slot ℕ) where
  unfoldable pub byte_field : Uses s read_u8 → Option ℕ → Field
  unfolding value_field
  byte_field uses v =
      value_field s (λ v. Unit {0}) _ read_u8 (byte_property s.id) uses (refl, λ x. refl) back-u8 v
        (all_fit v)

  unfoldable pub two_byte_field :
      Uses s read_u16 → (v : Option ℕ) → Fits (λ x. x < 2 ^ 16) v → Field
  unfolding value_field
  two_byte_field uses =
      value_field s _ _ read_u16 (two_byte_property s.id) uses (refl, λ x. refl) back-u16

  unfoldable pub four_byte_field :
      Uses s read_u32 → (v : Option ℕ) → Fits (λ x. x < 2 ^ 32) v → Field
  unfolding value_field
  four_byte_field uses =
      value_field s _ _ read_u32 (four_byte_property s.id) uses (refl, λ x. refl) back-u32

unfoldable pub string_field :
    (s : Slot Str)
    → Uses s read_string
    → String
    → (v : Option Str) → Fits (λ x. is_utf8 x ≡ true) v
    → Field
unfolding value_field
string_field s uses kind =
    value_field s _ _ read_string (string_property kind s.id) uses (refl, λ x. refl)
      (back-string kind)

unfoldable pub binary_field :
    (s : Slot (List ℕ)) → Uses s read_binary → String → Option (List ℕ) → Field
unfolding value_field
binary_field s uses kind v =
    value_field s (λ v. Unit {0}) _ read_binary (binary_property kind s.id) uses (refl, λ x. refl)
      (back-binary kind) v (all_fit v)
