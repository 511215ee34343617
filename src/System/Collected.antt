-- ===== src/System/Collected.antt =====
-- The two collections leave current what every open handle has read.
use stupid_kv.Base.{
  ℕ, ◌<◌, ◌≤◌, ◌≡◌, sym, ap, ◌∙◌, List, inl, inr, bytes_ord, nat_ord, arith, Crates, Bytes, ◌⊎◌,
}
use stupid_kv.Base.SkipMap
use stupid_kv.Counters.Holders.{holders}
use stupid_kv.Db.{Inner, run_gc, run_cleanup, run_cleanup_inner, earliest_active_commit}
use stupid_kv.Db.Collect.{stored-run_gc, get-run_cleanup}
use stupid_kv.Tx.{TransactionInner, fetch_in_datastore}
use stupid_kv.Tx.Reads.{fetch_in_datastore-stored}
use stupid_kv.Tx.Commit.View.{view}
use stupid_kv.System.Handles.{
  by_version, by_commit, lives, All, All-map, All-zip, All-holders, All-AtLeast,
}
use stupid_kv.System.Invariant.{Agree, few_lives}
use stupid_kv.System.Steps.{run_gc-fields}
use stupid_kv.System.Snapshots.{fetch-run_cleanup}
use stupid_kv.System.Current.{IsCurrent, IsCurrent-change}

module _ ⦃c : Crates⦄ where
  module _ (db : Inner) (handles : List TransactionInner) (v : Agree db handles) where
    module _ (instant : ℕ) (w : Agree (run_gc db instant) handles) where
      fetch-run_gc :
          (k : Bytes) (q : ℕ)
          → (0 < holders q (lives by_version handles)) ⊎ (db.oracle.timestamp ≤ q)
          → fetch_in_datastore (run_gc db instant) k q ≡ fetch_in_datastore db k q
      fetch-run_gc k q seen =
          fetch_in_datastore-stored (run_gc db instant) k q w.database.quiet
          ∙ (stored-run_gc db instant (lives by_version handles) k q v.database.bounded.store
              v.by_oracle (few_lives by_version handles v.few) seen).0
          ∙ sym (fetch_in_datastore-stored db k q v.database.quiet)

      view-run_gc : (k : Bytes) → view (run_gc db instant) k ≡ view db k
      unfolding view
      view-run_gc k =
          ap (λ (d : Inner). fetch_in_datastore (run_gc db instant) k d.oracle.timestamp)
            (run_gc-fields db instant)
          ∙ fetch-run_gc k db.oracle.timestamp (inr (omega arith))

      pub collected-IsCurrent :
          All (IsCurrent db) handles → All (IsCurrent (run_gc db instant)) handles
      collected-IsCurrent all =
          All-map _ _ handles
            (λ (x : TransactionInner)
                (h : (0 < holders x.version (lives by_version handles)) × IsCurrent db x).
              IsCurrent-change db (run_gc db instant) x
                (λ k u q t at later.
                  u q t
                    (ap (λ (d : Inner). SkipMap.get d.transaction_commit_queue q)
                        (run_gc-fields db instant)
                      ∙ at)
                    later)
                (λ k. fetch-run_gc k x.version (inl h.0)) (λ k u. view-run_gc k) h.1)
            (All-zip _ _ handles (All-holders handles) all)

    -- The cleanup takes no entry that is newer than the start of a handle.
    pub cleaned-IsCurrent : All (IsCurrent db) handles → All (IsCurrent (run_cleanup db)) handles
    unfolding view run_cleanup run_cleanup_inner
    cleaned-IsCurrent all =
        let oldest = earliest_active_commit db db.transaction_commit_id in
        let kept = λ (q : ℕ).
          get-run_cleanup db (lives by_commit handles) q v.by_starts
            (few_lives by_commit handles v.few) in
        All-map _ _ handles
          (λ (x : TransactionInner) (h : (oldest ≤ x.commit) × IsCurrent db x).
            IsCurrent-change db (run_cleanup db) x
              (λ k u q t at later. u q t (ground (arith, (kept q).0, at, later, h.0)) later)
              (λ k. fetch-run_cleanup db k x.version)
              (λ k u. fetch-run_cleanup db k db.oracle.timestamp) h.1)
          (All-zip _ _ handles (All-AtLeast oldest handles (kept 0).1) all)
