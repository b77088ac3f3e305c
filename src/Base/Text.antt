-- ===== src/Base/Text.antt =====
-- A Rust `str`: the list of its UTF-8 bytes. Equality of texts, `contains` and `split` at an ASCII
-- byte (an ASCII byte is never part of a longer UTF-8 sequence, so bytes and characters agree), and
-- what `std::str::from_utf8` accepts.
use Prim.Native.Nat.{ℕ, zero, suc}
use mathlib.Core.Path.{◌≡◌, refl}
use mathlib.Core.Logic.{◌↔◌}
use mathlib.Core.List.{List, [], ◌∷◌, ◌++◌}
use mathlib.Core.Bool.{Bool, true, false, ◌&&◌, ◌||◌}
use mathlib.Core.Option.{Option, none, some}
use native.Mathlib.Omega.{arith}
use Prim.Native.Char.{code}
use Prim.Native.String.{String}
use package.jack_hotaru_mqtt.Base.Tests.{◌==◌, leb, ltb, if◌then◌else◌}

abbrev pub Str : Type 0
Str = List ℕ

-- The bytes of an ASCII literal.
abbrev pub bytes : String → Str
bytes String.[] = []
bytes (String.◌∷◌ c s) = code c ∷ bytes s

abbrev pub str_eq : Str → Str → Bool
str_eq [] [] = true
str_eq [] (b ∷ t) = false
str_eq (a ∷ s) [] = false
str_eq (a ∷ s) (b ∷ t) = a == b && str_eq s t

pub str_eq_refl : (s : Str) → str_eq s s ≡ true
str_eq_refl [] = refl
str_eq_refl (a ∷ s) = ground (arith, str_eq_refl s)

pub str_eq→eq : (s t : Str) → str_eq s t ≡ true → s ≡ t
str_eq→eq [] [] h = refl
str_eq→eq [] (b ∷ t) h = cc
str_eq→eq (a ∷ s) [] h = cc
str_eq→eq (a ∷ s) (b ∷ t) h = ground (arith, str_eq→eq s t)

pub str_eq_iff : (s t : Str) → (str_eq s t ≡ true) ↔ (s ≡ t)
str_eq_iff s t = (str_eq→eq s t, λ e. rw e (str_eq_refl t))

-- `s.contains(c)`.
abbrev pub contains : ℕ → Str → Bool
contains c [] = false
contains c (b ∷ s) = b == c || contains c s

-- `s.split('/').collect()`: one segment more than there are slashes.
abbrev pub push_front : ℕ → List Str → List Str
push_front b [] = (b ∷ []) ∷ []
push_front b (seg ∷ segs) = (b ∷ seg) ∷ segs

unfoldable pub split : Str → List Str
split [] = [] ∷ []
split (b ∷ s) = let rest = split s in if b == b'/' then [] ∷ rest else push_front b rest

-- `segs.join("/")`.
unfoldable pub join : List Str → Str
join [] = []
join (seg ∷ []) = seg
join (seg ∷ next ∷ segs) = seg ++ (b'/' ∷ join (next ∷ segs))

-- The first byte of a sequence: how many continuation bytes follow, and the range of the first.
utf8_lead : ℕ → Option (ℕ × ℕ × ℕ)
utf8_lead b =
    if ltb b 0x80
    then some (0, 0x80, 0xbf)
    else if leb 0xc2 b && leb b 0xdf
    then some (1, 0x80, 0xbf)
    else if b == 0xe0
    then some (2, 0xa0, 0xbf)
    else if b == 0xed
    then some (2, 0x80, 0x9f)
    else if leb 0xe1 b && leb b 0xef
    then some (2, 0x80, 0xbf)
    else if b == 0xf0
    then some (3, 0x90, 0xbf)
    else if leb 0xf1 b && leb b 0xf3
    then some (3, 0x80, 0xbf)
    else if b == 0xf4
    then some (3, 0x80, 0x8f)
    else none

utf8_from : ℕ → ℕ → ℕ → List ℕ → Bool
utf8_from zero lo hi [] = true
utf8_from (suc n) lo hi [] = false
utf8_from zero lo hi (b ∷ bs) = elim (utf8_lead b) [
  | none ↦ false
  | some (n, lo', hi') ↦ utf8_from n lo' hi' bs
]
utf8_from (suc n) lo hi (b ∷ bs) = leb lo b && leb b hi && utf8_from n 0x80 0xbf bs

-- What `std::str::from_utf8` accepts.
unfoldable pub is_utf8 : List ℕ → Bool
unfolding utf8_from utf8_lead
is_utf8 bs = utf8_from 0 0x80 0xbf bs
