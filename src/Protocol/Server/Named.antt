-- ===== src/Protocol/Server/Named.antt =====
-- The client id under which the server keeps a session.
use jack_hotaru_mqtt.Base.{
  ℕ, zero, suc, ◌+◌, ◌-◌, ◌*◌, ◌/◌, ◌%◌, ◌^◌, ◌≤◌, ◌<◌, ◌≡◌, ◌⊎◌, refl, inl, inr, Bool-cases, ltb,
  [], ◌∷◌, ◌++◌, Str, bytes, All, All-append, arith,
}
use native.Mathlib.Nat.{pow-suc}
use jack_hotaru_mqtt.Protocol.Server.Accept.{decimal, or_auto}

-- The number that decimal digits write, after `acc`.
abbrev pub number : ℕ → Str → ℕ
number acc [] = acc
number acc (d ∷ ds) = number (acc * 10 + (d - b'0')) ds

abbrev pub IsDigit : ℕ → Type 0
IsDigit d = (b'0' ≤ d) × (d ≤ b'9')

-- It begins, and not with a zero.
abbrev pub Starts : Str → Type 0
Starts [] = ⊥
Starts (d ∷ ds) = b'1' ≤ d

-- The decimal digits of a number, with no zero before them.
pub record Writes (n : ℕ) (digits : Str) : Type 0 where
  pub digit : All IsDigit digits
  pub value : number 0 digits ≡ n
  pub canonical : (digits ≡ b'0' ∷ []) ⊎ Starts digits

-- A client keeps its own id, and an empty one is replaced by `hotaru-auto-` with the number of the
-- connection.
abbrev pub IsNamed : ℕ → Str → Str → Type 0
IsNamed connection_id [] id =
    (digits : Str) × (id ≡ bytes "hotaru-auto-" ++ digits) × Writes connection_id digits
IsNamed connection_id (b ∷ s) id = id ≡ b ∷ s

number-append :
    (acc d : ℕ) (ds : Str) → number acc (ds ++ (d ∷ [])) ≡ number acc ds * 10 + (d - b'0')
number-append acc d [] = refl
number-append acc d (x ∷ ds) = number-append (acc * 10 + (x - b'0')) d ds

Starts-append : (ds es : Str) → Starts ds → Starts (ds ++ es)
Starts-append [] es h = absurd h
Starts-append (d ∷ ds) es h = h

tenth : (fuel n : ℕ) → n < 10 ^ suc fuel → n / 10 < 10 ^ fuel
tenth fuel n h = let h' : n < 10 ^ fuel * 10 = rw (← pow-suc 10 fuel) h in omega arith

decimal-Starts : (fuel n : ℕ) → 1 ≤ n → n < 10 ^ fuel → Starts (decimal fuel n)
decimal-Starts zero n pos h = absurd (omega arith)
decimal-Starts (suc fuel) n pos h = elim (Bool-cases (ltb n 10)) [
  | inl small ↦ rw small (ground arith)
  | inr large ↦ rw large (
      Starts-append (decimal fuel (n / 10)) _
        (decimal-Starts fuel (n / 10) (ground arith) (tenth fuel n h)))
]

decimal-digits : (fuel n : ℕ) → All IsDigit (decimal fuel n)
decimal-digits zero n = tt
decimal-digits (suc fuel) n = elim (Bool-cases (ltb n 10)) [
  | inl small ↦ rw small (ground arith)
  | inr large ↦
      rw large
        (All-append IsDigit (decimal fuel (n / 10)) _ (decimal-digits fuel (n / 10)) (ground arith))
]

decimal-value : (fuel n : ℕ) → n < 10 ^ fuel → number 0 (decimal fuel n) ≡ n
decimal-value zero n h = omega arith
decimal-value (suc fuel) n h = elim (Bool-cases (ltb n 10)) [
  | inl small ↦ rw small (ground arith)
  | inr large ↦ rw large (
      omega (
        arith,
        number-append 0 (b'0' + n % 10) (decimal fuel (n / 10)),
        decimal-value fuel (n / 10) (tenth fuel n h),
      ))
]

decimal-Writes : (n : ℕ) → n < 2 ^ 64 → Writes n (decimal 20 n)
decimal-Writes zero h = record { digit = decimal-digits 20 0; value = refl; canonical = inl refl }
decimal-Writes (suc n) h = record {
  digit = decimal-digits 20 (suc n);
  value = decimal-value 20 (suc n) (omega arith);
  canonical = inr (decimal-Starts 20 (suc n) (omega arith) (omega arith));
}

pub or_auto-IsNamed :
    (connection_id : ℕ) (client_id : Str)
    → connection_id < 2 ^ 64
    → IsNamed connection_id client_id (or_auto connection_id client_id)
or_auto-IsNamed connection_id [] h =
    (decimal 20 connection_id, refl, decimal-Writes connection_id h)
or_auto-IsNamed connection_id (b ∷ s) h = refl
