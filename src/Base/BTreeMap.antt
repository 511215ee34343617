-- ===== src/Base/BTreeMap.antt =====
-- `std::collections::BTreeMap`: the entries in ascending order of their keys.
use Prim.Native.Nat.{Ordering}
use mathlib.Core.Path.{◌≡◌, refl}
use mathlib.Core.Option.{Option, none, some}
use mathlib.Core.List.{List, [], ◌∷◌}
use native.Mathlib.Omega.{arith}
use stupid_kv.Base.Order.{Ord, eqb, eqb_iff}
use stupid_kv.Base.Tests.{if◌then◌else◌}

abbrev pub BTreeMap : Type 0 → Type 0 → Type 0
BTreeMap K V = List (K × V)

abbrev pub keys : {K V : Type 0} → BTreeMap K V → List K
keys [] = []
keys ((k, v) ∷ m) = k ∷ keys m

-- Every entry of `m` has a greater key than `k`; and the entries ascend.
abbrev pub Above : {K V : Type 0} ⦃o : Ord K⦄ → K → BTreeMap K V → Type 0
Above k [] = Unit {0}
Above ⦃o⦄ k ((j, v) ∷ m) = (o.cmp k j ≡ Ordering.lt) × Above k m

abbrev pub IsAscending : {K V : Type 0} ⦃o : Ord K⦄ → BTreeMap K V → Type 0
IsAscending [] = Unit {0}
IsAscending ((k, v) ∷ m) = Above k m × IsAscending m

module _ {K V : Type 0} ⦃o : Ord K⦄ where
  unfoldable pub get : K → BTreeMap K V → Option V
  get k [] = none
  get k ((j, v) ∷ m) = if eqb k j then some v else get k m

  unfoldable pub insert : K → V → BTreeMap K V → BTreeMap K V
  insert k v [] = (k, v) ∷ []
  insert k v ((j, w) ∷ m) = elim (o.cmp k j) [
    | Ordering.lt ↦ (k, v) ∷ (j, w) ∷ m
    | Ordering.eq ↦ (k, v) ∷ m
    | Ordering.gt ↦ (j, w) ∷ insert k v m
  ]

  unfoldable pub remove : K → BTreeMap K V → BTreeMap K V
  remove k [] = []
  remove k ((j, v) ∷ m) = let rest = remove k m in if eqb k j then rest else (j, v) ∷ rest

  pub get-insert :
      (k j : K) (v : V) (m : BTreeMap K V)
      → get j (insert k v m) ≡ (if eqb j k then some v else get j m)
  unfolding get insert
  get-insert k j v [] = refl
  get-insert k j v ((i, w) ∷ m) =
      ground (arith, eqb_iff j k, eqb_iff j i, o.cmp_eq k i, get-insert k j v m)

  pub get-remove :
      (k j : K) (m : BTreeMap K V) → get j (remove k m) ≡ (if eqb j k then none else get j m)
  unfolding get remove
  get-remove k j [] = ground arith
  get-remove k j ((i, w) ∷ m) =
      ground (arith, eqb_iff j k, eqb_iff j i, eqb_iff k i, get-remove k j m)

  pub Above-trans : (k j : K) (m : BTreeMap K V) → o.cmp k j ≡ Ordering.lt → Above j m → Above k m
  Above-trans k j [] h a = tt
  Above-trans k j ((i, w) ∷ m) h a = (o.cmp_trans k j i h a.0, Above-trans k j m h a.1)

  pub insert-Above :
      (b k : K) (v : V) (m : BTreeMap K V)
      → o.cmp b k ≡ Ordering.lt
      → Above b m
      → Above b (insert k v m)
  unfolding insert
  insert-Above b k v [] h a = (h, tt)
  insert-Above b k v ((j, w) ∷ m) h a = ground (arith, insert-Above b k v m h)

  -- A write keeps the entries in order.
  pub insert-IsAscending :
      (k : K) (v : V) (m : BTreeMap K V) → IsAscending m → IsAscending (insert k v m)
  unfolding insert
  insert-IsAscending k v [] s = (tt, tt)
  insert-IsAscending k v ((j, w) ∷ m) s = ground (
    arith,
    Above-trans k j m,
    insert-IsAscending k v m,
    insert-Above j k v m,
    o.cmp_lt k j,
    o.cmp_eq k j,
  )

  -- Below the first key of an ascending map nothing is found.
  pub get-Above : (k : K) (m : BTreeMap K V) → Above k m → get k m ≡ none
  unfolding get
  get-Above k [] a = refl
  get-Above k ((j, v) ∷ m) a = ground (arith, get-Above k m)

  -- Every key that is found in the entries above `k` is greater.
  pub Above-get :
      (k j : K) (m : BTreeMap K V) (v : V) → Above k m → get j m ≡ some v → o.cmp k j ≡ Ordering.lt
  unfolding get
  Above-get k j [] v a e = cc
  Above-get k j ((i, w) ∷ m) v a e = ground (arith, eqb_iff j i, Above-get k j m v a.1)
