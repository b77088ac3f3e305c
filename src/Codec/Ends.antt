-- ===== src/Codec/Ends.antt =====
-- Parsers that do not run out of fuel: the answer for that is an I/O error, which no parser of a body
-- gives otherwise, since a body has been read whole.
pub mod Readers
pub mod Values
pub mod Properties
pub mod Lists
use jack_hotaru_mqtt.Base.{
  ℕ, zero, suc, ◌≤◌, ◌≡◌, ◌≢◌, Bool, true, false, List, [], ◌∷◌, length, take, drop, if◌then◌else◌,
  arith,
}
use jack_hotaru_mqtt.Error.{MqttError, Result, ok, err, io, ◌>>=◌, ◌>>◌, guard}

abbrev pub Ends : {A : Type 0} → Result A → Type 0
Ends (ok a) = Unit
Ends (err e) = e ≢ io

-- A parser with a cursor, of which no more than `n` bytes are left.
abbrev pub Takes : {A : Type 0} → ℕ → Result (A × List ℕ) → Type 0
Takes n (ok (a, rest)) = length rest ≤ n
Takes n (err e) = e ≢ io

pub Ends-then :
    {A : Type 0} {B : Type 0} (r : Result A) (k : A → Result B)
    → Ends r
    → ((a : A) → Ends (k a))
    → Ends (r >>= k)
Ends-then (ok a) k h l = l a
Ends-then (err e) k h l = h

pub Takes-end :
    {A : Type 0} {B : Type 0} (n : ℕ) (r : Result (A × List ℕ)) (k : A × List ℕ → Result B)
    → Takes n r
    → ((a : A) (rest : List ℕ) → length rest ≤ n → Ends (k (a, rest)))
    → Ends (r >>= k)
Takes-end n (ok (a, rest)) k h l = l a rest h
Takes-end n (err e) k h l = h

pub Takes-then :
    {A : Type 0} {B : Type 0} (n m : ℕ) (r : Result (A × List ℕ))
    (k : A × List ℕ → Result (B × List ℕ))
    → Takes n r
    → ((a : A) (rest : List ℕ) → length rest ≤ n → Takes m (k (a, rest)))
    → Takes m (r >>= k)
Takes-then n m (ok (a, rest)) k h l = l a rest h
Takes-then n m (err e) k h l = h

pub Ends-Takes :
    {A : Type 0} {B : Type 0} (m : ℕ) (r : Result A) (k : A → Result (B × List ℕ))
    → Ends r
    → ((a : A) → Takes m (k a))
    → Takes m (r >>= k)
Ends-Takes m (ok a) k h l = l a
Ends-Takes m (err e) k h l = h

pub Ends-guard : (test : Bool) (e : MqttError) → e ≢ io → Ends (guard test e)
Ends-guard true e h = tt
Ends-guard false e h = h

pub Takes-if :
    {A : Type 0} (n : ℕ) (b : Bool) (r s : Result (A × List ℕ))
    → Takes n r
    → Takes n s
    → Takes n (if b then r else s)
Takes-if n true r s h l = h
Takes-if n false r s h l = l

pub length-drop_le : (n : ℕ) (xs : List ℕ) → length (drop n xs) ≤ length xs
length-drop_le zero xs = omega arith
length-drop_le (suc n) [] = omega arith
length-drop_le (suc n) (x ∷ xs) = omega (arith, length-drop_le n xs)

pub length-take_le : (n : ℕ) (xs : List ℕ) → length (take n xs) ≤ n
length-take_le zero xs = omega arith
length-take_le (suc n) [] = omega arith
length-take_le (suc n) (x ∷ xs) = omega (arith, length-take_le n xs)
