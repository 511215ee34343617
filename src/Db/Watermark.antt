-- ===== src/Db/Watermark.antt =====
-- `compute_cleanup_ts`: the watermark does not pass the snapshot of an active transaction.
use stupid_kv.Base.{max, ℕ, ◌≤◌, ◌<◌, [], ◌∷◌, arith, length, Crates}
use stupid_kv.Counters.{counter_tombstone}
use stupid_kv.Counters.Holders.{Live, holders, IsCount}
use stupid_kv.Counters.Earliest.{AtLeast, earliest_active-IsEarliest}
use stupid_kv.Oracle.{current_time_ns}
use stupid_kv.Db.{Inner, compute_cleanup_ts, earlist_active_version}

pub AtLeast-mono : (a b : ℕ) (live : Live) → a ≤ b → AtLeast b live → AtLeast a live
AtLeast-mono a b [] h l = tt
AtLeast-mono a b ((v, r) ∷ live) h l = (omega arith, AtLeast-mono a b live h l.1)

-- A bound of all active snapshots bounds each.
pub AtLeast-holders : (b q : ℕ) (live : Live) → AtLeast b live → 0 < holders q live → b ≤ q
unfolding holders
AtLeast-holders b q [] l h = absurd (omega arith)
AtLeast-holders b q ((v, r) ∷ live) l h = ground (arith, AtLeast-holders b q live l.1)

module _ ⦃c : Crates⦄ (db : Inner) (instant : ℕ) (live : Live) where
  watermark-le :
      (compute_cleanup_ts db instant).1
      ≤ earlist_active_version db (current_time_ns db.oracle instant)
  unfolding compute_cleanup_ts
  watermark-le = omega arith

  -- Where the counters count the active transactions, fewer than the tombstone, the watermark is
  -- at most every active snapshot, at most the oracle's timestamp, and at most the `gc_floor`
  -- that is published; and `gc_floor` does not fall, and does not pass the larger of its old
  -- value and the timestamp.
  pub compute_cleanup_ts-AtLeast :
      IsCount db.counter_by_oracle live
      → length live < counter_tombstone
      → AtLeast (compute_cleanup_ts db instant).1 live
        × ((compute_cleanup_ts db instant).1 ≤ db.oracle.timestamp)
        × ((compute_cleanup_ts db instant).1 ≤ (compute_cleanup_ts db instant).0.gc_floor)
        × (db.gc_floor ≤ (compute_cleanup_ts db instant).0.gc_floor)
        × ((compute_cleanup_ts db instant).0.gc_floor ≤ max db.gc_floor db.oracle.timestamp)
  unfolding compute_cleanup_ts
  compute_cleanup_ts-AtLeast inv few = (
    AtLeast-mono _ _ live watermark-le (
        unfold earlist_active_version in
        (earliest_active-IsEarliest db.counter_by_oracle live inv few
          (current_time_ns db.oracle instant)).0),
    omega arith,
    omega arith,
    omega arith,
    omega arith,
  )
