-- ===== src/Common/Dict.antt =====
-- A Go map with string keys, as an association list. The order of the entries stands for the
-- unspecified order in which Go ranges over a map; no theorem depends on it.
use Prim.Native.String.{String}
use mathlib.Core.Path.{◌≡◌, refl}
use mathlib.Core.Bool.{Bool, true, false}
use mathlib.Core.Option.{Option, none, some}
use mathlib.Core.List.{List, [], ◌∷◌, ◌++◌}
use native.Mathlib.Omega.{arith}
use text.Mathlib.Text.{◌==◌}
use text.Mathlib.TextEquality.{eq_iff}
use text.Mathlib.TextPositions.{eq_refl}
use llm_platform.Common.Tests.{if◌then◌else◌}

abbrev pub Dict {ℓ} : Type ℓ → Type ℓ
Dict V = List (String × V)

module _ {ℓ} {V : Type ℓ} where
  -- `v, ok := m[k]`
  unfoldable pub get : Dict V → String → Option V
  get [] k = none
  get ((j, v) ∷ m) k = if j == k then some v else get m k

  -- `_, ok := m[k]`
  unfoldable pub has : Dict V → String → Bool
  has [] k = false
  has ((j, v) ∷ m) k = let rest = has m k in if j == k then true else rest

  -- `m[k] = v`
  unfoldable pub put : Dict V → String → V → Dict V
  put [] k v = (k, v) ∷ []
  put ((j, w) ∷ m) k v = if j == k then (k, v) ∷ m else (j, w) ∷ put m k v

  -- `for k, v := range m { if !keep(v) { delete(m, k) } }`
  unfoldable pub retain : (V → Bool) → Dict V → Dict V
  retain keep [] = []
  retain keep ((j, v) ∷ m) = let rest = retain keep m in if keep v then (j, v) ∷ rest else rest

  -- `delete(m, k)`
  unfoldable pub delete : Dict V → String → Dict V
  delete [] k = []
  delete ((j, v) ∷ m) k = let rest = delete m k in if j == k then rest else (j, v) ∷ rest

  pub get-put :
      (m : Dict V) (k j : String) (v : V) → get (put m k v) j ≡ (if k == j then some v else get m j)
  unfolding get put
  get-put [] k j v = refl
  get-put ((i, w) ∷ m) k j v = ground (arith, eq_iff i k, eq_iff i j, eq_iff k j, get-put m k j v)

  pub get-put_self : (m : Dict V) (k : String) (v : V) → get (put m k v) k ≡ some v
  get-put_self m k v = simp (get-put, eq_refl)

  pub get-delete :
      (m : Dict V) (k j : String) → get (delete m k) j ≡ (if k == j then none else get m j)
  unfolding get delete
  get-delete [] k j = ground arith
  get-delete ((i, w) ∷ m) k j = ground (arith, eq_iff i k, eq_iff i j, eq_iff k j, get-delete m k j)

  -- No key has two entries, as in every Go map.
  abbrev pub KeysDistinct : Dict V → Type 0
  KeysDistinct [] = Unit
  KeysDistinct ((k, v) ∷ m) = (has m k ≡ false) × KeysDistinct m

  has-append_self :
      (m : Dict V) (k j : String) (v : V) (n : Dict V)
      → has (m ++ ((k, v) ∷ n)) j ≡ false
      → (j == k) ≡ false
  unfolding has
  has-append_self [] k j v n h = ground (arith, eq_iff j k, eq_iff k j)
  has-append_self ((i, u) ∷ m) k j v n h = ground (arith, has-append_self m k j v n)

  -- A key that comes after `m` in a map is not in `m`.
  has-before :
      (m : Dict V) (k : String) (v : V) (n : Dict V)
      → KeysDistinct (m ++ ((k, v) ∷ n))
      → has m k ≡ false
  unfolding has
  has-before [] k v n h = refl
  has-before ((i, u) ∷ m) k v n h = rw (has-append_self m k i v n h.0) (has-before m k v n h.1)

  put-new : (m : Dict V) (k : String) (v : V) → has m k ≡ false → put m k v ≡ m ++ ((k, v) ∷ [])
  unfolding has put
  put-new [] k v h = refl
  put-new ((i, u) ∷ m) k v h = ground (arith, put-new m k v)

  -- Putting the next entry of a map after those before it.
  pub put-append :
      (m : Dict V) (k : String) (v : V) (n : Dict V)
      → KeysDistinct (m ++ ((k, v) ∷ n))
      → put m k v ≡ m ++ ((k, v) ∷ [])
  put-append m k v n h = put-new m k v (has-before m k v n h)

module _ {ℓ κ} {V : Type ℓ} {W : Type κ} where
  -- `for k, v := range m { out[k] = f(v) }` into a fresh map
  unfoldable pub map_values : (V → W) → Dict V → Dict W
  map_values f [] = []
  map_values f ((j, v) ∷ m) = (j, f v) ∷ map_values f m

  abbrev pub map_option : (V → W) → Option V → Option W
  map_option f none = none
  map_option f (some v) = some (f v)

  pub get-map_values :
      (f : V → W) (m : Dict V) (k : String) → get (map_values f m) k ≡ map_option f (get m k)
  unfolding get map_values
  get-map_values f [] k = refl
  get-map_values f ((j, v) ∷ m) k = ground (arith, get-map_values f m k)

pub ruleset dict_laws = (get-put, get-delete)
