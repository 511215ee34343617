-- ===== src/Base/SkipMap.antt =====
-- The operations of the ordered map, with the types and the order of the keys found from the
-- arguments, and the laws in the same form.
use mathlib.Core.Path.{◌≡◌}
use mathlib.Core.Option.{Option, none, some}
use stupid_kv.Base.Tests.{if◌then◌else◌}
use stupid_kv.Base.Order.{Ord, eqb}
use stupid_kv.Base.BTreeMap.{BTreeMap, IsAscending}
use stupid_kv.Base.BTreeMap
use stupid_kv.Base.Collections.{Crates}

module _ ⦃c : Crates⦄ {K V : Type 0} ⦃o : Ord K⦄ where
  abbrev pub get : c.SkipMap K V → K → Option V
  get = c.get K V o

  abbrev pub insert : c.SkipMap K V → K → V → c.SkipMap K V
  insert = c.insert K V o

  abbrev pub remove : c.SkipMap K V → K → c.SkipMap K V
  remove = c.remove K V o

  abbrev pub iter : c.SkipMap K V → BTreeMap K V
  iter = c.iter K V o

  -- `get_or_insert_with(k, || v)`: the map, and the value that is now at `k`.
  abbrev pub get_or_insert : c.SkipMap K V → K → V → c.SkipMap K V × V
  get_or_insert m k v = elim (get m k) [ none ↦ (insert m k v, v) | some w ↦ (m, w) ]

  pub get-insert :
      (m : c.SkipMap K V) (k : K) (v : V) (j : K)
      → get (insert m k v) j ≡ (if eqb j k then some v else get m j)
  get-insert = c.get-insert K V o

  pub get-remove :
      (m : c.SkipMap K V) (k j : K) → get (remove m k) j ≡ (if eqb j k then none else get m j)
  get-remove = c.get-remove K V o

  pub get-iter : (m : c.SkipMap K V) (k : K) → BTreeMap.get k (iter m) ≡ get m k
  get-iter = c.get-iter K V o

  pub iter-IsAscending : (m : c.SkipMap K V) → IsAscending (iter m)
  iter-IsAscending = c.iter-IsAscending K V o

  abbrev pub empty : c.SkipMap K V
  empty = c.empty K V

  pub get-empty : (k : K) → get empty k ≡ none
  get-empty = c.get-empty K V o
