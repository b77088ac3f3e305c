-- ===== src/Base/Keys.antt =====
-- Maps whose keys are texts, and maps whose keys are numbers.
use mathlib.Core.Path.{◌≡◌}
use mathlib.Core.Logic.{inl, inr}
use mathlib.Core.List.{List}
use mathlib.Core.Bool.{true, false}
use mathlib.Core.Option.{none, some}
use native.Mathlib.Omega.{arith}
use package.jack_hotaru_mqtt.Base.Tests.{if◌then◌else◌, Bool-cases}
use package.jack_hotaru_mqtt.Base.Text.{Str, str_eq, str_eq_refl, str_eq→eq}
use package.jack_hotaru_mqtt.Base.Maps.{get, remove, insert, get-remove_same, get-remove_other}

other_key : (k j : Str) → str_eq k j ≡ false → (x : Str) → str_eq k x ≡ true → str_eq j x ≡ false
other_key k j h x e = elim (Bool-cases (str_eq j x)) [
  | inl same ↦
      (let equal : str_eq k j ≡ true = rw (str_eq→eq k x e, str_eq→eq j x same) (str_eq_refl x) in
        cc (h, equal))
  | inr differs ↦ differs
]

module _ {ℓ} {V : Type ℓ} where
  pub get-remove_str :
      (k j : Str) (m : List (Str × V))
      → get str_eq k (remove str_eq j m) ≡ (if str_eq k j then none else get str_eq k m)
  get-remove_str k j m = elim (Bool-cases (str_eq k j)) [
    | inl same ↦ rw (same, str_eq→eq k j same, get-remove_same str_eq j m)
    | inr differs ↦ rw (differs, get-remove_other str_eq k j m (other_key k j differs))
  ]

  pub get-insert_str :
      (k j : Str) (v : V) (m : List (Str × V))
      → get str_eq k (insert str_eq j v m) ≡ (if str_eq k j then some v else get str_eq k m)
  get-insert_str k j v m = ground (arith, get-remove_str k j m)
