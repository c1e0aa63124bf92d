-- ===== src/Prelude/Table.antt =====
-- `BTreeMap<u32, V>` as an association list. The program never iterates over a map, so the order of
-- the entries is not observed.
use Prim.Native.Nat.{ℕ}
use mathlib.Core.Path.{◌≡◌}
use mathlib.Core.Bool.{Bool}
use mathlib.Core.Option.{Option, none, some}
use mathlib.Core.List.{List, [], ◌∷◌}
use native.Mathlib.Omega.{arith}
use vhost_gpu_backend.Prelude.Tests.{◌==◌, if◌then◌else◌, is_some}

abbrev pub Table {ℓ} : Type ℓ → Type ℓ
Table V = List (ℕ × V)

module _ {ℓ} {V : Type ℓ} where
  abbrev pub get : ℕ → Table V → Option V
  get k [] = none
  get k ((j, v) ∷ t) = if k == j then some v else get k t

  abbrev pub contains_key : ℕ → Table V → Bool
  contains_key k t = is_some (get k t)

  abbrev pub insert : ℕ → V → Table V → Table V
  insert k v [] = (k, v) ∷ []
  insert k v (e ∷ t) = if k == e.0 then (k, v) ∷ t else e ∷ insert k v t

  abbrev pub remove : ℕ → Table V → Table V
  remove k [] = []
  remove k (e ∷ t) = let rest = remove k t in if k == e.0 then rest else e ∷ rest

  pub get-insert :
      (j k : ℕ) (v : V) (t : Table V) → get j (insert k v t) ≡ (if j == k then some v else get j t)
  get-insert j k v [] = ground arith
  get-insert j k v (e ∷ t) = ground (arith, get-insert j k v t)

  pub get-remove : (j k : ℕ) (t : Table V) → get j (remove k t) ≡ (if j == k then none else get j t)
  get-remove j k [] = ground arith
  get-remove j k (e ∷ t) = ground (arith, get-remove j k t)
