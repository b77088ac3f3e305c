-- ===== src/Base/Maps.antt =====
-- A `DashMap` as an association list with one entry for each key: `insert` replaces. A shard lock
-- holds for one call, so every call is one step.
use mathlib.Core.Path.{◌≡◌, refl}
use mathlib.Core.List.{List, [], ◌∷◌}
use mathlib.Core.Bool.{Bool, true, false}
use mathlib.Core.Option.{Option, none, some}
use native.Mathlib.Omega.{arith}
use package.jack_hotaru_mqtt.Base.Tests.{if◌then◌else◌}

module _ {ℓ κ} {K : Type ℓ} {V : Type κ} (same : K → K → Bool) where
  abbrev pub get : K → List (K × V) → Option V
  get k [] = none
  get k ((k', v) ∷ m) = let rest = get k m in if same k k' then some v else rest

  abbrev pub remove : K → List (K × V) → List (K × V)
  remove k [] = []
  remove k ((k', v) ∷ m) = let rest = remove k m in if same k k' then rest else (k', v) ∷ rest

  abbrev pub insert : K → V → List (K × V) → List (K × V)
  insert k v m = (k, v) ∷ remove k m

  pub get-remove_same : (k : K) (m : List (K × V)) → get k (remove k m) ≡ none
  get-remove_same k [] = refl
  get-remove_same k ((k', v) ∷ m) = ground (arith, get-remove_same k m)

  pub get-remove_other :
      (k j : K) (m : List (K × V))
      → ((x : K) → same k x ≡ true → same j x ≡ false)
      → get k (remove j m) ≡ get k m
  get-remove_other k j [] h = refl
  get-remove_other k j ((k', v) ∷ m) h = ground (arith, get-remove_other k j m h, h k')
