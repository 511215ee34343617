-- ===== src/Queue.antt =====
-- src/queue/commit.rs and src/queue/merge.rs: the entries of the two queues, and the tests by which
-- a commit looks for conflicts.
pub mod Keys
pub mod Disjoint
use stupid_kv.Base.{
  ℕ, suc, ◌+◌, Bool, true, false, not, ◌&&◌, ◌||◌, Option, none, some, List, [], ◌∷◌, Bytes,
  bytes_ord, Ordering, cmp_bytes, eqb, ltb, ◌==◌, if◌then◌else◌, length, any, Crates,
}
use stupid_kv.Base.BTreeMap.{BTreeMap, keys}
use stupid_kv.Base.BTreeMap
use stupid_kv.Bloom.{BloomFilter, may_contain, is_empty}

-- A write set: the value of each key, `none` for a deletion.
abbrev pub Writeset : Type 0
Writeset = BTreeMap Bytes (Option Bytes)

pub record Commit : Type 0 where
  pub id : ℕ
  pub writeset : Writeset
  pub writeset_bloom : BloomFilter
  pub max_key : Bytes
  pub min_key : Bytes

pub record Merge : Type 0 where
  pub id : ℕ
  pub writeset : Writeset

-- `a < b` of byte strings.
abbrev pub less : Bytes → Bytes → Bool
less a b = elim (cmp_bytes a b) [ Ordering.lt ↦ true | _ ↦ false ]

-- The two key iterators, advanced in step with the order of their heads.
unfoldable pub disjoint_keys : List Bytes → List Bytes → Bool
disjoint_keys [] bs = true
disjoint_keys (a ∷ as') [] = true
disjoint_keys (a ∷ as') (b ∷ bs) = elim (cmp_bytes a b) [
  | Ordering.lt ↦ disjoint_keys as' (b ∷ bs)
  | Ordering.gt ↦ disjoint_keys (a ∷ as') bs
  | Ordering.eq ↦ false
]

unfoldable pub is_disjoint_writeset : Commit → Commit → Bool
is_disjoint_writeset c other = disjoint_keys (keys c.writeset) (keys other.writeset)

-- The loop that sets `maybe`: some key may be in the filter.
abbrev maybe_in : BloomFilter → List Bytes → Bool
maybe_in bloom ks = any (λ k. may_contain k bloom) ks

unfoldable pub is_disjoint_writeset_bloom : Commit → Commit → Bool
unfolding is_disjoint_writeset
is_disjoint_writeset_bloom c other =
    if less c.max_key other.min_key || less other.max_key c.min_key
    then true
    else if not (maybe_in other.writeset_bloom (keys c.writeset))
    then true
    else is_disjoint_writeset c other

-- `BTreeMap::contains_key`.
abbrev pub contains_key : Writeset → Bytes → Bool
contains_key w k = elim (BTreeMap.get k w) [ none ↦ false | some v ↦ true ]

module _ ⦃c : Crates⦄ where
  -- The shorter side is walked.
  unfoldable pub is_disjoint_readset : Commit → c.HashSet → Bool
  is_disjoint_readset t other =
      if length (c.members other) == 0
      then true
      else if ltb (length (c.members other)) (length t.writeset)
      then not (any (contains_key t.writeset) (c.members other))
      else not (any (c.contains other) (keys t.writeset))

  unfoldable pub is_disjoint_readset_bloom : Commit → c.HashSet → BloomFilter → Bool
  unfolding is_disjoint_readset
  is_disjoint_readset_bloom t other bloom =
      if is_empty bloom
      then true
      else if not (maybe_in bloom (keys t.writeset))
      then true
      else is_disjoint_readset t other
