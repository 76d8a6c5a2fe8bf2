-- ===== src/Base/Map.antt =====
-- Go maps with string keys: the log of their writes, newest first, where `none` is a deletion.
-- A Go map that may be nil is an `Option (Map V)`; reading a nil map finds nothing.
use Prim.Native.String.{String}
use mathlib.Core.Bool.{Bool, true, false, ◌&&◌}
use mathlib.Core.Option.{Option, none, some}
use mathlib.Core.List.{List, [], ◌∷◌}
use text.Mathlib.Text.{◌==◌ as ◌===◌}
use haproxy_operator.Base.Tests.{if◌then◌else◌}

abbrev pub Map {ℓ} : Type ℓ → Type ℓ
Map V = List (String × Option V)

module _ {ℓ} {V : Type ℓ} where
  -- `v, ok := m[k]`
  unfoldable pub lookup : String → Map V → Option V
  lookup k [] = none
  lookup k ((j, v) ∷ m) = if k === j then v else lookup k m

  -- `m[k] = v`
  abbrev pub insert : String → V → Map V → Map V
  insert k v m = (k, some v) ∷ m

  -- `delete(m, k)`
  abbrev pub delete : String → Map V → Map V
  delete k m = (k, none) ∷ m

  -- The writes of a map, none of a nil one.
  unfoldable pub writes : Option (Map V) → Map V
  writes none = []
  writes (some m) = m

  unfoldable pub absent : Option V → Bool
  absent none = true
  absent (some v) = false

  -- None of the keys that the first map writes is live in the second.
  unfoldable pub all_absent : Map V → Map V → Bool
  unfolding absent lookup
  all_absent [] m = true
  all_absent ((k, _) ∷ keys) m = absent (lookup k m) && all_absent keys m

  -- `len(m) == 0`
  abbrev pub is_empty : Map V → Bool
  is_empty m = all_absent m m
