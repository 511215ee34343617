-- ===== src/System/Steps.antt =====
-- Every call keeps the invariant, and so does every run.
use stupid_kv.Base.{ℕ, ◌≡◌, refl, sym, subst, List, [], bytes_ord, nat_ord, arith, Crates, Bytes}
use stupid_kv.Counters.Holders.{no_counters-IsCount}
use stupid_kv.Queue.{Commit}
use stupid_kv.Db.{
  Inner, run_gc, run_gc_full, run_gc_dirty_inner, compute_cleanup_ts, run_cleanup,
  run_cleanup_inner, earliest_active_commit,
}
use stupid_kv.Db
use stupid_kv.Db.Collect.{run_gc-Collected, get-run_cleanup}
use stupid_kv.Db.Watermark.{compute_cleanup_ts-AtLeast}
use stupid_kv.Tx.{TransactionInner}
use stupid_kv.Pool
use stupid_kv.System.{System, Step, begins, operates, commits, drops, collects, cleans}
use stupid_kv.System.Handles.{by_version, by_commit, lives, All-at, IsHandle}
use stupid_kv.System.Operations.{Operation-Handled}
use stupid_kv.System.Invariant.{Agree, IsConsistent, few_lives, same-Frame, replaced-Agree}
use stupid_kv.System.Calls.{commit-Agree, drop-Agree, drop-lives, begin-Begun, Begun-Agree}

module _ ⦃c : Crates⦄ where
  -- What the version collection keeps besides the store.
  pub run_gc-fields :
      (db : Inner) (instant : ℕ)
      → run_gc db instant ≡ record db {
        gc_floor = (compute_cleanup_ts db instant).0.gc_floor;
        gc_dirty_keys = (run_gc db instant).gc_dirty_keys;
        datastore = (run_gc db instant).datastore;
      }
  unfolding run_gc run_gc_full run_gc_dirty_inner compute_cleanup_ts
  run_gc-fields db instant = refl

  collect-Agree :
      (db : Inner) (handles : List TransactionInner) (instant : ℕ)
      → Agree db handles
      → Agree (run_gc db instant) handles
  collect-Agree db handles instant v =
      let kept = run_gc-Collected db instant v.database.bounded.store in
      let (below, at_most, under, rises, top) =
        compute_cleanup_ts-AtLeast db instant (lives by_version handles) v.by_oracle
          (few_lives by_version handles v.few) in
      subst (λ x. Agree x handles) (sym (run_gc-fields db instant))
        (record {
          database = record {
            bounded = record {
              store = kept.sorted;
              at_most = kept.at_most db.oracle.timestamp v.database.bounded.at_most;
            };
            quiet = v.database.quiet;
            queued = v.database.queued;
          };
          by_oracle = v.by_oracle;
          by_starts = v.by_starts;
          floor = omega (arith, v.floor, top);
          few = v.few;
          each = v.each;
        })

  pub run_cleanup-fields :
      (db : Inner)
      → run_cleanup db
        ≡ record db { transaction_commit_queue = (run_cleanup db).transaction_commit_queue }
  unfolding run_cleanup run_cleanup_inner
  run_cleanup-fields db = refl

  clean-Agree :
      (db : Inner) (handles : List TransactionInner)
      → Agree db handles
      → Agree (run_cleanup db) handles
  clean-Agree db handles v =
      subst (λ x. Agree x handles) (sym (run_cleanup-fields db))
        (record {
          database = record {
            bounded = record {
              store = v.database.bounded.store;
              at_most = v.database.bounded.at_most;
            };
            quiet = v.database.quiet;
            queued = λ q t h. v.database.queued q t (
                ground (
                  arith,
                  h,
                  (get-run_cleanup db (lives by_commit handles) q v.by_starts
                      (few_lives by_commit handles v.few)).0,
                ));
          };
          by_oracle = v.by_oracle;
          by_starts = v.by_starts;
          floor = v.floor;
          few = v.few;
          each = v.each;
        })

  pub Step-IsConsistent : (s t : System) → Step s t → IsConsistent s → IsConsistent t
  Step-IsConsistent s t (begins _ write tx pool db got few) v =
      Begun-Agree s.db db write tx s.handles v few
        (begin-Begun s.pool pool s.db db write tx s.handles v few got)
  Step-IsConsistent s t (operates _ l r tx tx' at op) v =
      let w = subst (λ x. Agree s.db x) at v in
      replaced-Agree l r tx tx' s.db s.db w w.database (same-Frame s.db) (omega arith) (omega arith)
        (Operation-Handled s.db.oracle.timestamp s.db.transaction_commit_id tx
          (All-at (IsHandle s.db.oracle.timestamp s.db.transaction_commit_id) l r tx w.each) s.db
          tx' op)
  Step-IsConsistent s t
        (commits _ l r tx tx' rounds instant instants disk result db at done room ticks) v =
      commit-Agree l r tx s.db (subst (λ x. Agree s.db x) at v) rounds instant instants disk
        (result, db, tx') done room ticks
  Step-IsConsistent s t (drops _ l r tx pool db at dropped) v =
      let w = subst (λ x. Agree s.db x) at v in
      drop-Agree l r tx s.db w s.pool _ pool db (drop-lives l r tx s.db w s.pool) dropped
  Step-IsConsistent s t (collects _ instant) v = collect-Agree s.db s.handles instant v
  Step-IsConsistent s t (cleans _) v = clean-Agree s.db s.handles v

  -- Calls one after the other.
  pub data Run : System → System → Type 0 where
    rests : (s : System) → Run s s
    steps : (s t u : System) → Step s t → Run t u → Run s u

  -- A database that was just made, with its pool, and no handle.
  unfoldable pub started : ℕ → ℕ → ℕ → ℕ → System
  started size reset_threshold unix instant = record {
    pool = Pool.new size;
    db = Db.new reset_threshold unix instant;
    handles = [];
  }

  pub Run-IsConsistent : (s t : System) → Run s t → IsConsistent s → IsConsistent t
  Run-IsConsistent s t (rests _) v = v
  Run-IsConsistent s t (steps _ u _ step run) v =
      Run-IsConsistent u t run (Step-IsConsistent s u step v)

  pub started-IsConsistent :
      (size reset_threshold unix instant : ℕ)
      → IsConsistent (started size reset_threshold unix instant)
  unfolding started Db.new
  started-IsConsistent size reset_threshold unix instant = record {
    database = record {
      bounded = record {
        store = record { chains = λ k. rw (c.get-empty Bytes _ bytes_ord k) tt };
        at_most = λ k. rw (c.get-empty Bytes _ bytes_ord k) tt;
      };
      quiet = λ v. c.get-empty ℕ _ nat_ord v;
      queued = λ v t h. cc (c.get-empty ℕ Commit nat_ord v);
    };
    by_oracle = no_counters-IsCount;
    by_starts = no_counters-IsCount;
    floor = omega arith;
    few = omega arith;
    each = tt;
  }

  -- After any run of calls from a database that was just made, with commits, collections and
  -- handles of any kind, the database and the open handles agree: no commit is under way and no
  -- stored version lies above the clock, each counter counts exactly the handles that hold it, the
  -- floor of the collection is not above the clock, and every handle's write set is in order, its
  -- read filter sound, and its snapshot and its start in the past.
  pub run-IsConsistent :
      (size reset_threshold unix instant : ℕ) (s : System)
      → Run (started size reset_threshold unix instant) s
      → IsConsistent s
  run-IsConsistent size reset_threshold unix instant s run =
      Run-IsConsistent _ s run (started-IsConsistent size reset_threshold unix instant)
