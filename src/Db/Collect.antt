-- ===== src/Db/Collect.antt =====
-- The two collectors leave alone what an active transaction can still see.
use stupid_kv.Base.{
  ℕ, suc, ◌≤◌, ◌<◌, ◌≡◌, refl, ◌⊎◌, ◌∙◌, inl, inr, ◌&&◌, none, [], ◌∷◌, arith, if◌then◌else◌,
  length, Crates, Bytes, bytes_ord, nat_ord, ltb,
}
use stupid_kv.Base.BTreeMap.{BTreeMap, keys}
use stupid_kv.Base.BTreeMap
use stupid_kv.Base.SkipMap
use stupid_kv.Versions.{is_some}
use stupid_kv.Queue.{Commit}
use stupid_kv.Counters.{counter_tombstone}
use stupid_kv.Counters.Holders.{Live, holders, IsCount}
use stupid_kv.Counters.Earliest.{AtLeast, earliest_active-IsEarliest}
use stupid_kv.Db.{
  Inner, compute_cleanup_ts, earliest_active_commit, remove_below, run_cleanup, run_cleanup_inner,
  run_gc, run_gc_full, run_gc_dirty_inner,
}
use stupid_kv.Db.Chains.{
  IsStore, Collected, Collected-trans, gc_keys-Collected, gc_dirty-Collected, stored,
}
use stupid_kv.Db.Watermark.{AtLeast-holders, compute_cleanup_ts-AtLeast}

module _ ⦃c : Crates⦄ where
  pub run_gc_full-Collected :
      (db : Inner) (ts : ℕ)
      → IsStore db.datastore
      → Collected ts db.datastore (run_gc_full db ts).datastore
  unfolding run_gc_full
  run_gc_full-Collected db ts v =
      gc_keys-Collected ts (keys (SkipMap.iter db.datastore)) db.datastore v

  pub run_gc_dirty_inner-Collected :
      (db : Inner) (ts : ℕ)
      → IsStore db.datastore
      → Collected ts db.datastore (run_gc_dirty_inner db ts).datastore
  unfolding run_gc_dirty_inner
  run_gc_dirty_inner-Collected db ts v =
      gc_dirty-Collected ts (suc (length (c.queued Bytes db.gc_dirty_keys))) [] db.gc_dirty_keys
        db.datastore v

  compute_cleanup_ts-datastore :
      (db : Inner) (instant : ℕ) → (compute_cleanup_ts db instant).0.datastore ≡ db.datastore
  unfolding compute_cleanup_ts
  compute_cleanup_ts-datastore db instant = refl

  pub run_gc-Collected :
      (db : Inner) (instant : ℕ)
      → IsStore db.datastore
      → Collected (compute_cleanup_ts db instant).1 db.datastore (run_gc db instant).datastore
  unfolding run_gc compute_cleanup_ts
  run_gc-Collected db instant v =
      let db' = (compute_cleanup_ts db instant).0 in
      let ts = (compute_cleanup_ts db instant).1 in
      let dirty = run_gc_dirty_inner-Collected db' ts v in
      Collected-trans ts db.datastore (run_gc_dirty_inner db' ts).datastore _ dirty
        (run_gc_full-Collected (run_gc_dirty_inner db' ts) ts dirty.sorted)

  -- On a store of sorted chains and with counters that count the active transactions, fewer than
  -- the tombstone: a whole version collection changes no read of an active transaction, nor of
  -- one whose snapshot is the oracle's timestamp or later; and the chains stay sorted.
  pub stored-run_gc :
      (db : Inner) (instant : ℕ) (live : Live) (k : Bytes) (q : ℕ)
      → IsStore db.datastore
      → IsCount db.counter_by_oracle live
      → length live < counter_tombstone
      → (0 < holders q live) ⊎ (db.oracle.timestamp ≤ q)
      → (stored (run_gc db instant).datastore k q ≡ stored db.datastore k q)
        × IsStore (run_gc db instant).datastore
  stored-run_gc db instant live k q v inv few seen =
      let collected = run_gc-Collected db instant v in
      let (below, at_most, _, _, _) = compute_cleanup_ts-AtLeast db instant live inv few in
      (collected.reads k q (reach below at_most seen), collected.sorted)
    where
      reach :
          AtLeast (compute_cleanup_ts db instant).1 live
          → (compute_cleanup_ts db instant).1 ≤ db.oracle.timestamp
          → (0 < holders q live) ⊎ (db.oracle.timestamp ≤ q)
          → (compute_cleanup_ts db instant).1 ≤ q
      reach below at_most (inl active) = AtLeast-holders _ q live below active
      reach below at_most (inr late) = omega arith

  get-remove_below :
      (oldest : ℕ) (m : BTreeMap ℕ Commit) (queue : c.SkipMap ℕ Commit) (v : ℕ)
      → SkipMap.get (remove_below oldest m queue) v
        ≡ (if ltb v oldest && is_some (BTreeMap.get v m) then none else SkipMap.get queue v)
  unfolding remove_below BTreeMap.get
  get-remove_below oldest [] queue v = ground arith
  get-remove_below oldest ((w, t) ∷ m) queue v =
      get-remove_below oldest m (if ltb w oldest then SkipMap.remove queue w else queue) v
      ∙ ground (arith, SkipMap.get-remove queue w v)

  pub get-run_cleanup :
      (db : Inner) (live : Live) (v : ℕ)
      → IsCount db.counter_by_commit live
      → length live < counter_tombstone
      → (SkipMap.get (run_cleanup db).transaction_commit_queue v ≡ (
          if ltb v (earliest_active_commit db db.transaction_commit_id)
          then none
          else SkipMap.get db.transaction_commit_queue v))
        × AtLeast (earliest_active_commit db db.transaction_commit_id) live
  unfolding run_cleanup run_cleanup_inner
  get-run_cleanup db live v inv few =
      let oldest = earliest_active_commit db db.transaction_commit_id in
      let queue = db.transaction_commit_queue in
      (
        get-remove_below oldest (SkipMap.iter queue) queue v
            ∙ ground (arith, SkipMap.get-iter queue v),
        unfold earliest_active_commit in
            (earliest_active-IsEarliest db.counter_by_commit live inv few
              db.transaction_commit_id).0,
      )
