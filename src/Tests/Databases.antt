-- ===== src/Tests/Databases.antt =====
-- The theorems on counters, collections and handles, at concrete databases.
use stupid_kv.Base.{
  ◌≤◌, ◌≡◌, inl, refl, true, none, some, List, [], ◌∷◌, Bytes, bytes_ord, nat_ord, arith, length,
  max, suc,
}
use stupid_kv.Base.SkipMap
use stupid_kv.Base.BTreeMap
use stupid_kv.Base.Collections.Instance.{list_crates}
use stupid_kv.Oracle.{current_time_ns}
use stupid_kv.Oracle
use stupid_kv.Counters.{Counters, Loads, release_counter}
use stupid_kv.Counters.Holders.{IsCount, holders}
use stupid_kv.Counters.Release.{Released, release-Released}
use stupid_kv.Counters.Earliest.{AtLeast}
use stupid_kv.Db.{Inner, compute_cleanup_ts, run_gc, gc_dirty}
use stupid_kv.Db
use stupid_kv.Db.Chains.{IsStore, stored, insert-IsStore, gc_dirty_drains}
use stupid_kv.Db.Watermark.{compute_cleanup_ts-AtLeast}
use stupid_kv.Db.Lifecycle.{gc_rounds, stored-gc_rounds}
use stupid_kv.Db.Collect.{stored-run_gc}
use stupid_kv.Tx.{TransactionInner}
use stupid_kv.Tx.Commit.Effect.{new-IsDb}
use stupid_kv.Pool
use stupid_kv.Pool.Handles.{Got, Dropped, get-Begun, drop-Dropped}
use stupid_kv.Tests.{key_a, chain, fresh, filled, writer}
use stupid_kv.Tests.Chains.{chain-IsSorted}

-- Two rounds: in the first, the clock moves on between the two loads.
abbrev two_rounds : List Loads
two_rounds =
    record { first = 50; again = 51; floor = some 0 }
    ∷ record { first = 51; again = 51; floor = some 0 }
    ∷ []

-- One holder of the snapshot 50.
abbrev one_holder : Counters
one_holder = record { map = (50, 0) ∷ []; cells = 1 ∷ [] }

one_holder-IsCount : IsCount one_holder ((50, 0) ∷ [])
unfolding BTreeMap.get holders
one_holder-IsCount = record {
  held = (refl, tt);
  there = λ v r e. ground arith;
  counted = λ v r e. ground arith;
  positive = λ v r e. ground arith;
  own = λ v w r e f. ground arith;
}

release-Released_example :
    Released one_holder [] 50 0 one_holder-IsCount (release_counter one_holder 0)
release-Released_example = release-Released one_holder [] 50 0 one_holder-IsCount

filled-IsStore : IsStore filled.datastore
unfolding Db.new
filled-IsStore =
    insert-IsStore fresh.datastore key_a chain chain-IsSorted (new-IsDb 100 50 0).bounded.store

abbrev held : Inner
held = record filled { counter_by_oracle = one_holder; counter_by_commit = one_holder }

compute_cleanup_ts-AtLeast_example :
    AtLeast (compute_cleanup_ts held 9).1 ((50, 0) ∷ [])
    × ((compute_cleanup_ts held 9).1 ≤ held.oracle.timestamp)
    × ((compute_cleanup_ts held 9).1 ≤ (compute_cleanup_ts held 9).0.gc_floor)
    × (held.gc_floor ≤ (compute_cleanup_ts held 9).0.gc_floor)
    × ((compute_cleanup_ts held 9).0.gc_floor ≤ max held.gc_floor held.oracle.timestamp)
compute_cleanup_ts-AtLeast_example =
    compute_cleanup_ts-AtLeast held 9 ((50, 0) ∷ []) one_holder-IsCount (omega arith)

stored-run_gc_example :
    (stored (run_gc held 9).datastore key_a 50 ≡ stored held.datastore key_a 50)
    × IsStore (run_gc held 9).datastore
unfolding holders
stored-run_gc_example =
    stored-run_gc held 9 ((50, 0) ∷ []) key_a 50 filled-IsStore one_holder-IsCount (omega arith)
      (inl (omega arith))

stored-gc_rounds_example :
    stored (gc_rounds 2 0 held (9 ∷ 19 ∷ [])).datastore key_a 50 ≡ stored held.datastore key_a 50
unfolding holders
stored-gc_rounds_example =
    stored-gc_rounds ((50, 0) ∷ []) (omega arith) key_a 50 2 0 held (9 ∷ 19 ∷ [])
      (record { store = filled-IsStore; count = one_holder-IsCount; seen = inl (omega arith) })

gc_dirty_drains_example :
    list_crates.pop Bytes
      (gc_dirty 4 (suc (length (key_a ∷ key_a ∷ []))) [] (key_a ∷ key_a ∷ []) filled.datastore).0
    ≡ none
gc_dirty_drains_example =
    gc_dirty_drains 4 (key_a ∷ key_a ∷ []) [] (key_a ∷ key_a ∷ []) filled.datastore refl

get-Begun_example :
    Got held true ((50, 0) ∷ []) ((50, 0) ∷ []) (Pool.get (1, writer ∷ []) held true)
unfolding Db.new Oracle.new
get-Begun_example =
    get-Begun held true ((50, 0) ∷ []) ((50, 0) ∷ []) one_holder-IsCount one_holder-IsCount
      (omega arith) (omega arith) (omega arith) (1, writer ∷ [])

abbrev handle : TransactionInner
handle = record writer { commit = 50 }

drop-Dropped_example : Dropped held [] [] (Pool.drop (1, []) held (some handle))
drop-Dropped_example = drop-Dropped (1, []) held handle [] [] one_holder-IsCount one_holder-IsCount
