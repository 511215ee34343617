-- ===== src/Db/Lifecycle.antt =====
-- The collector threads of src/db/db.rs, round by round, and the start and the shutdown of a
-- database.
use stupid_kv.Base.{
  ℕ, ◌%◌, ◌<◌, ◌≤◌, ◌≡◌, refl, sym, subst, ◌∙◌, max, Bool, true, false, List, [], ◌∷◌, Bytes,
  bytes_ord, nat_ord, ◌==◌, if◌then◌else◌, length, arith, add_u64, Crates, Bool-cases, inl, inr,
  ◌⊎◌,
}
use stupid_kv.Options.{DatabaseOptions}
use stupid_kv.Counters.{counter_tombstone}
use stupid_kv.Counters.Holders.{Live, holders, IsCount}
use stupid_kv.Counters.Earliest.{AtLeast}
use stupid_kv.Db.{Inner, compute_cleanup_ts, run_gc_dirty_inner, run_gc_full, run_cleanup_inner}
use stupid_kv.Db
use stupid_kv.Db.Chains.{IsStore, Collected, Collected-trans, stored}
use stupid_kv.Db.Collect.{run_gc_dirty_inner-Collected, run_gc_full-Collected}
use stupid_kv.Db.Watermark.{AtLeast-holders, compute_cleanup_ts-AtLeast}

module _ ⦃c : Crates⦄ where
  -- The threads that are started: the one for the commit queue, and the one for the versions.
  unfoldable pub with_workers : DatabaseOptions → Inner → Inner
  with_workers opts inner = record inner {
    transaction_cleanup_handle =
        if opts.enable_cleanup then true else inner.transaction_cleanup_handle;
    garbage_collection_handle = if opts.enable_gc then true else inner.garbage_collection_handle;
  }

  -- `Database::new_with_options`, without its pool; `unix` and `instant` are the clocks.
  unfoldable pub new_with_options : DatabaseOptions → ℕ → ℕ → Inner
  unfolding with_workers Db.new
  new_with_options opts unix instant = with_workers opts (Db.new opts.reset_threshold unix instant)

  -- One round of the cleanup thread.
  unfoldable pub cleanup_round : Inner → Inner
  cleanup_round inner = if inner.background_threads_enabled then run_cleanup_inner inner else inner

  -- The collection of one round, with its watermark.
  unfoldable pub collect_round : Bool → Inner × ℕ → Inner
  collect_round full (inner, cleanup_ts) =
      let dirty = run_gc_dirty_inner inner cleanup_ts in
      if full then run_gc_full dirty cleanup_ts else dirty

  -- One round of the thread that collects versions, with the number of the rounds before it: the
  -- written keys are collected in each round, the whole store in each `frequency`th.
  unfoldable pub gc_round : ℕ → ℕ → Inner → ℕ → ℕ × Inner
  gc_round gc_full_scan_frequency cycle inner instant =
      if inner.background_threads_enabled
      then (
        add_u64 cycle 1,
        collect_round (add_u64 cycle 1 % max gc_full_scan_frequency 1 == 0)
            (compute_cleanup_ts inner instant),
      )
      else (cycle, inner)

  -- The rounds of the thread, one for each reading of the clock.
  unfoldable pub gc_rounds : ℕ → ℕ → Inner → List ℕ → Inner
  gc_rounds frequency cycle inner [] = inner
  gc_rounds frequency cycle inner (instant ∷ instants) =
      let (cycle', inner') = gc_round frequency cycle inner instant in
      gc_rounds frequency cycle' inner' instants

  -- `Database::shutdown` after the threads have ended.
  unfoldable pub shutdown : Inner → Inner
  shutdown inner = record inner {
    background_threads_enabled = false;
    transaction_cleanup_handle = false;
    garbage_collection_handle = false;
  }

  -- What a round leaves: the reads from a watermark on, and the counters and the clock.
  record Round (inner : Inner) (ts : ℕ) (out : Inner) : Type 0 where
    collected : Collected ts inner.datastore out.datastore
    counters : out.counter_by_oracle ≡ inner.counter_by_oracle
    clock : out.oracle.timestamp ≡ inner.oracle.timestamp

  collect_round-Round :
      (full : Bool) (inner : Inner) (ts : ℕ)
      → IsStore inner.datastore
      → Round inner ts (collect_round full (inner, ts))
  unfolding collect_round run_gc_dirty_inner run_gc_full
  collect_round-Round false inner ts v = record {
    collected = run_gc_dirty_inner-Collected inner ts v;
    counters = refl;
    clock = refl;
  }
  collect_round-Round true inner ts v =
      let dirty = run_gc_dirty_inner-Collected inner ts v in
      record {
        collected =
            Collected-trans ts inner.datastore (run_gc_dirty_inner inner ts).datastore _ dirty
              (run_gc_full-Collected (run_gc_dirty_inner inner ts) ts dirty.sorted);
        counters = refl;
        clock = refl;
      }

  module _ (live : Live) (few : length live < counter_tombstone) (k : Bytes) (q : ℕ) where
    -- The store is sound, the counters count the transactions, and one of them has the snapshot, or
    -- the snapshot is not before the clock.
    pub record Seen (inner : Inner) : Type 0 where
      pub store : IsStore inner.datastore
      pub count : IsCount inner.counter_by_oracle live
      pub seen : (0 < holders q live) ⊎ (inner.oracle.timestamp ≤ q)

    abbrev Kept : Inner → Inner → Type 0
    Kept inner out = (stored out.datastore k q ≡ stored inner.datastore k q) × Seen out

    full_or_dirty :
        (full : Bool) (inner : Inner) (instant : ℕ)
        → Seen inner
        → Kept inner (collect_round full (compute_cleanup_ts inner instant))
    unfolding compute_cleanup_ts
    full_or_dirty full inner instant v =
        let (below, at_most, under, rises, top) =
          compute_cleanup_ts-AtLeast inner instant live v.count few in
        let ts = (compute_cleanup_ts inner instant).1 in
        let r = collect_round-Round full (compute_cleanup_ts inner instant).0 ts v.store in
        (
          r.collected.reads k q (reached ts below at_most v.seen),
          record {
            store = r.collected.sorted;
            count = rw r.counters v.count;
            seen = rw r.clock v.seen;
          },
        )
      where
        reached :
            (ts : ℕ)
            → AtLeast ts live
            → ts ≤ inner.oracle.timestamp
            → (0 < holders q live) ⊎ (inner.oracle.timestamp ≤ q)
            → ts ≤ q
        reached ts below at_most (inl active) = AtLeast-holders ts q live below active
        reached ts below at_most (inr late) = omega arith

    gc_round-Kept :
        (frequency cycle : ℕ) (inner : Inner) (instant : ℕ)
        → Seen inner
        → Kept inner (gc_round frequency cycle inner instant).1
    unfolding gc_round
    gc_round-Kept frequency cycle inner instant v =
        elim (Bool-cases inner.background_threads_enabled) [
          | inr off ↦
              let same : (gc_round frequency cycle inner instant).1 ≡ inner = ground (arith, off) in
              subst (Kept inner) (sym same) (refl, v)
          | inl on ↦
              let full = add_u64 cycle 1 % max frequency 1 == 0 in
              let same : (gc_round frequency cycle inner instant).1
                  ≡ collect_round full (compute_cleanup_ts inner instant) =
                ground (arith, on) in
              subst (Kept inner) (sym same) (full_or_dirty full inner instant v)
        ]

    -- On a sound store and with counters that count the active transactions, fewer than the
    -- tombstone: whatever the frequency of the full scans, and for any number of rounds of the
    -- thread that collects versions, a reader of an active transaction, or one whose snapshot is not
    -- before the clock, finds what it found before the first.
    pub stored-gc_rounds :
        (frequency cycle : ℕ) (inner : Inner) (instants : List ℕ)
        → Seen inner
        → stored (gc_rounds frequency cycle inner instants).datastore k q
          ≡ stored inner.datastore k q
    unfolding gc_rounds
    stored-gc_rounds frequency cycle inner [] v = refl
    stored-gc_rounds frequency cycle inner (instant ∷ instants) v =
        let one = gc_round-Kept frequency cycle inner instant v in
        let next = gc_round frequency cycle inner instant in
        stored-gc_rounds frequency next.0 next.1 instants one.1 ∙ one.0
