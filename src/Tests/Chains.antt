-- ===== src/Tests/Chains.antt =====
-- The theorems on chains, filters and queue entries, at concrete ones.
use stupid_kv.Base.{
  ◌≤◌, ◌≡◌, refl, true, not, ◌&&◌, some, [], ◌∷◌, bytes_ord, cmp_bytes, arith, ltb, leb,
  if◌then◌else◌, length, any,
}
use stupid_kv.Base.BTreeMap.{keys, IsAscending}
use stupid_kv.Base.Collections.Instance.{list_crates}
use stupid_kv.Versions.{
  find_index_lte_version, find_index_lt_version, push, fetch_version, gc_older_versions,
}
use stupid_kv.Versions.Order.{IsSorted}
use stupid_kv.Versions.Search.{find_index_splits}
use stupid_kv.Versions.Push.{push-IsSorted}
use stupid_kv.Versions.Read.{hidden, fetch_version-push}
use stupid_kv.Versions.Gc.{fetch_version-gc, gc-IsCompact, IsCompact}
use stupid_kv.Bloom
use stupid_kv.Bloom.Contains.{insert_all, new-IsFilter, may_contain-insert_all}
use stupid_kv.Queue.{is_disjoint_writeset_bloom, is_disjoint_writeset, is_disjoint_readset_bloom}
use stupid_kv.Queue.Keys.{overlap}
use stupid_kv.Queue.Disjoint.{
  IsReadset, is_disjoint_writeset_bloom-eq, is_disjoint_readset_bloom-eq,
}
use stupid_kv.Tx.Commit.{commit_entry}
use stupid_kv.Tx.Commit.Entry.{commit_entry-IsCommit}
use stupid_kv.Tx.Reads.{add_key-IsReadset}
use stupid_kv.Tx.Begin.{fresh-IsReadset, new_empty}
use stupid_kv.Tests.{key_a, key_b, version_3, chain, two_writes, one_write}

pub chain-IsSorted : IsSorted chain
chain-IsSorted = ((omega arith, (omega arith, tt)), ((omega arith, tt), (tt, tt)))

find_index_splits_example :
    (ltb 1 (find_index_lte_version chain 3) ≡ leb 3 3)
    × (ltb 1 (find_index_lt_version chain 3) ≡ ltb 3 3)
    × (find_index_lte_version chain 3 ≤ length chain)
find_index_splits_example = find_index_splits chain 3 1 version_3 chain-IsSorted refl

push-IsSorted_example : IsSorted (push chain version_3)
push-IsSorted_example = push-IsSorted chain version_3 chain-IsSorted

fetch_version-push_example :
    fetch_version (push chain (record { version = 4; value = some [] })) 4
    ≡ (if leb 4 4 && not (hidden 4 4 chain) then some [] else fetch_version chain 4)
fetch_version-push_example =
    fetch_version-push chain (record { version = 4; value = some [] }) 4 chain-IsSorted

fetch_version-gc_example : fetch_version (gc_older_versions chain 4).0 5 ≡ fetch_version chain 5
fetch_version-gc_example = fetch_version-gc chain 4 5 chain-IsSorted (omega arith)

gc-IsCompact_example :
    IsSorted (gc_older_versions chain 4).0 × IsCompact 4 (gc_older_versions chain 4).0
gc-IsCompact_example = gc-IsCompact chain 4 chain-IsSorted

may_contain-insert_all_example :
    Bloom.may_contain key_b (insert_all (key_a ∷ key_b ∷ []) Bloom.new) ≡ true
unfolding any cmp_bytes
may_contain-insert_all_example =
    may_contain-insert_all (key_a ∷ key_b ∷ []) key_b Bloom.new new-IsFilter refl

pub two_writes-IsAscending : IsAscending two_writes
unfolding cmp_bytes
two_writes-IsAscending = ((refl, tt), (tt, tt))

is_disjoint_writeset_bloom-eq_example :
    (is_disjoint_writeset_bloom (commit_entry one_write 1) (commit_entry two_writes 2)
      ≡ not (
          overlap
            (keys (commit_entry one_write 1).writeset)
            (keys (commit_entry two_writes 2).writeset)))
    × (is_disjoint_writeset (commit_entry one_write 1) (commit_entry two_writes 2)
        ≡ not (
            overlap
              (keys (commit_entry one_write 1).writeset)
              (keys (commit_entry two_writes 2).writeset)))
is_disjoint_writeset_bloom-eq_example =
    is_disjoint_writeset_bloom-eq (commit_entry one_write 1) (commit_entry two_writes 2)
      (commit_entry-IsCommit one_write 1 (tt, tt))
      (commit_entry-IsCommit two_writes 2 two_writes-IsAscending)

read_b-IsReadset :
    IsReadset (list_crates.add_key list_crates.no_keys key_b) (Bloom.insert key_b Bloom.new)
unfolding Bloom.new
read_b-IsReadset =
    add_key-IsReadset list_crates.no_keys Bloom.new key_b new-IsFilter
      (fresh-IsReadset Bloom.new new_empty) (omega arith)

is_disjoint_readset_bloom-eq_example :
    is_disjoint_readset_bloom
      (commit_entry one_write 1)
      (list_crates.add_key list_crates.no_keys key_b)
      (Bloom.insert key_b Bloom.new)
    ≡ not (
        any
          (list_crates.contains (list_crates.add_key list_crates.no_keys key_b))
          (keys (commit_entry one_write 1).writeset))
is_disjoint_readset_bloom-eq_example =
    is_disjoint_readset_bloom-eq (commit_entry one_write 1)
      (list_crates.add_key list_crates.no_keys key_b) (Bloom.insert key_b Bloom.new)
      read_b-IsReadset
