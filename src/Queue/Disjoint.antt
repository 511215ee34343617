-- ===== src/Queue/Disjoint.antt =====
-- The tests with their shortcuts (key ranges, Bloom filters, the shorter side) decide exactly
-- whether two transactions share a key.
use mathlib.Core.Path.{fun_ext}
use stupid_kv.Base.{
  ◌≡◌, ap, sym, ◌∙◌, Bool, true, false, not, List, [], ◌∷◌, Bytes, bytes_ord, any, arith,
  Bool-cases, inl, inr, length, Crates,
}
use stupid_kv.Base.Order.{bytes_trans, bytes_eq, bytes_lt, bytes_gt}
use stupid_kv.Base.BTreeMap.{keys, IsAscending}
use stupid_kv.Bloom.{BloomFilter, may_contain, is_empty}
use stupid_kv.Bloom.Contains.{elem}
use stupid_kv.Queue.{
  Commit, less, maybe_in, contains_key, is_disjoint_writeset, is_disjoint_writeset_bloom,
  is_disjoint_readset, is_disjoint_readset_bloom,
}
use stupid_kv.Queue.Keys.{
  any-eq-false, any-false, overlap, overlap-nil, overlap_comm, keys-Ascending, disjoint_keys-eq,
  contains_key-eq,
}

-- What a commit entry promises of its summary fields.
pub record IsCommit (t : Commit) : Type 0 where
  pub ascending : IsAscending t.writeset
  pub in_bloom :
      (k : Bytes) → elem k (keys t.writeset) ≡ true → may_contain k t.writeset_bloom ≡ true
  pub at_most : (k : Bytes) → elem k (keys t.writeset) ≡ true → less t.max_key k ≡ false
  pub at_least : (k : Bytes) → elem k (keys t.writeset) ≡ true → less k t.min_key ≡ false

less_between : (k a b : Bytes) → less a b ≡ true → less a k ≡ false → less k b ≡ false → ⊥
less_between k a b h p q =
    ground (
      arith,
      bytes_gt a k,
      bytes_lt k a,
      bytes_eq a k,
      bytes_lt a k,
      bytes_trans k a b,
      bytes_gt k a,
    )

-- Apart key ranges share no key.
ranges_apart :
    (t u : Commit)
    → IsCommit t
    → IsCommit u
    → less t.max_key u.min_key ≡ true
    → overlap (keys t.writeset) (keys u.writeset) ≡ false
ranges_apart t u v w h = any-eq-false _ (keys t.writeset) λ k m.
    elim (Bool-cases (elem k (keys u.writeset))) [
      | inl both ↦ absurd (less_between k t.max_key u.min_key h (v.at_most k m) (w.at_least k both))
      | inr no_more ↦ no_more
    ]

-- Keys that the filter excludes are not shared.
filter_excludes :
    (bloom : BloomFilter) (p : Bytes → Bool) (ks : List Bytes)
    → ((k : Bytes) → p k ≡ true → may_contain k bloom ≡ true)
    → maybe_in bloom ks ≡ false
    → any p ks ≡ false
filter_excludes bloom p ks sound h = any-eq-false p ks λ k m. elim (Bool-cases (p k)) [
  | inl held ↦ cc (sound k held, any-false (λ k. may_contain k bloom) ks k h m)
  | inr free ↦ free
]

is_disjoint_writeset-eq :
    (t u : Commit)
    → IsCommit t
    → IsCommit u
    → is_disjoint_writeset t u ≡ not (overlap (keys t.writeset) (keys u.writeset))
unfolding is_disjoint_writeset
is_disjoint_writeset-eq t u v w =
    disjoint_keys-eq (keys t.writeset) (keys u.writeset) (keys-Ascending t.writeset v.ascending)
      (keys-Ascending u.writeset w.ascending)

-- For commit entries with sound summaries, the test with its shortcuts holds exactly when the
-- two write sets share no key, and so does the plain walk.
pub is_disjoint_writeset_bloom-eq :
    (t u : Commit)
    → IsCommit t
    → IsCommit u
    → (is_disjoint_writeset_bloom t u ≡ not (overlap (keys t.writeset) (keys u.writeset)))
      × (is_disjoint_writeset t u ≡ not (overlap (keys t.writeset) (keys u.writeset)))
unfolding is_disjoint_writeset_bloom
is_disjoint_writeset_bloom-eq t u v w = (
  ground (
    arith,
    ranges_apart t u v w,
    ranges_apart u t w v,
    overlap_comm (keys t.writeset) (keys u.writeset),
    filter_excludes u.writeset_bloom (λ k. elem k (keys u.writeset)) (keys t.writeset) w.in_bloom,
    is_disjoint_writeset-eq t u v w,
  ),
  is_disjoint_writeset-eq t u v w,
)

module _ ⦃c : Crates⦄ where
  -- The filter that a transaction keeps beside the keys that it read.
  pub record IsReadset (s : c.HashSet) (bloom : BloomFilter) : Type 0 where
    pub reads_in_bloom : (k : Bytes) → c.contains s k ≡ true → may_contain k bloom ≡ true
    pub empty_bloom : is_empty bloom ≡ true → (k : Bytes) → c.contains s k ≡ false

  contains-overlap :
      (s : c.HashSet) (ks : List Bytes) → any (c.contains s) ks ≡ overlap ks (c.members s)
  contains-overlap s ks = ap (λ (p : Bytes → Bool). any p ks) (fun_ext (c.contains-members s))

  walk_members :
      (t : Commit) (s : c.HashSet)
      → any (contains_key t.writeset) (c.members s) ≡ any (c.contains s) (keys t.writeset)
  walk_members t s =
      ap (λ (p : Bytes → Bool). any p (c.members s)) (fun_ext (contains_key-eq t.writeset))
      ∙ overlap_comm (c.members s) (keys t.writeset)
      ∙ sym (contains-overlap s (keys t.writeset))

  no_members :
      (s : c.HashSet) (ks : List Bytes) → length (c.members s) ≡ 0 → any (c.contains s) ks ≡ false
  no_members s ks h = contains-overlap s ks ∙ nothing (c.members s) h
    where
      nothing : (l : List Bytes) → length l ≡ 0 → overlap ks l ≡ false
      nothing [] e = overlap-nil ks
      nothing (x ∷ l) e = absurd (omega arith)

  nothing_read :
      (t : Commit) (s : c.HashSet) (bloom : BloomFilter)
      → IsReadset s bloom
      → is_empty bloom ≡ true
      → any (c.contains s) (keys t.writeset) ≡ false
  nothing_read t s bloom v h =
      any-eq-false (c.contains s) (keys t.writeset) (λ k _. v.empty_bloom h k)

  is_disjoint_readset-eq :
      (t : Commit) (s : c.HashSet)
      → is_disjoint_readset t s ≡ not (any (c.contains s) (keys t.writeset))
  unfolding is_disjoint_readset
  is_disjoint_readset-eq t s = ground (arith, walk_members t s, no_members s (keys t.writeset))

  -- With a sound filter, the test against the keys that a transaction read, with its shortcuts,
  -- holds exactly when it read no key of the write set.
  pub is_disjoint_readset_bloom-eq :
      (t : Commit) (s : c.HashSet) (bloom : BloomFilter)
      → IsReadset s bloom
      → is_disjoint_readset_bloom t s bloom ≡ not (any (c.contains s) (keys t.writeset))
  unfolding is_disjoint_readset_bloom
  is_disjoint_readset_bloom-eq t s bloom v = ground (
    arith,
    is_disjoint_readset-eq t s,
    filter_excludes bloom (c.contains s) (keys t.writeset) v.reads_in_bloom,
    nothing_read t s bloom v,
  )
