-- ===== src/Tx/Commit/Effect.antt =====
-- The whole of a commit that no other commit interleaves with: what it returns, and what readers
-- see afterwards.
use stupid_kv.Base.{
  ℕ, ◌+◌, ◌^◌, ◌≤◌, ◌<◌, ◌≡◌, refl, sym, subst, ap, ◌∙◌, none, some, List, ◌∷◌, nat_ord, bytes_ord,
  arith, eqb, max, add_u64, Crates, Bool-cases, inl, inr,
}
use stupid_kv.Base.BTreeMap.{IsAscending}
use stupid_kv.Base.SkipMap
use stupid_kv.Queue.{Commit, Merge, Writeset}
use stupid_kv.Queue.Disjoint.{IsCommit}
use stupid_kv.Persistence.{Disk}
use stupid_kv.Db.{Inner}
use stupid_kv.Db
use stupid_kv.Db.Chains.{stored}
use stupid_kv.Tx.{clear_sets, TransactionInner}
use stupid_kv.Tx.Commit.{store_writes, persist, merge_writes, Committed}
use stupid_kv.Tx.Commit.Store.{
  IsBounded, IsBounded-mono, store_writes-IsBounded, stored-store_writes, store_writes-frame,
}
use stupid_kv.Tx.Commit.Stages.{
  IsDb, version_of, atomic_merge_first, version_of-newer, Frame, Merged, Persisted,
  persist-Persisted, persist-handle, log_result, persist-result, log_after, persist-persistence,
}

module _ ⦃c : Crates⦄ where
  module _ (instant : ℕ) (instants : List ℕ) (disk : Disk) (ws : Writeset)
      (tx : TransactionInner) where
    module _ (db : Inner) (v : IsDb db) (room : db.oracle.timestamp + 1 < 2 ^ 64)
        (s : IsAscending ws) where
      abbrev version : ℕ
      version = version_of instant db

      abbrev merge_entry : Merge
      merge_entry = record { id = add_u64 db.transaction_merge_id 1; writeset = ws }

      abbrev merged : Inner
      merged = record db {
        transaction_merge_id = add_u64 db.transaction_merge_id 1;
        transaction_merge_queue = SkipMap.insert db.transaction_merge_queue version merge_entry;
        oracle = record db.oracle { timestamp = max db.oracle.timestamp version };
      }

      abbrev written : Inner
      written = store_writes merged version ws

      abbrev pub done : Committed
      done = persist written.persistence version ws disk written tx

      merged-IsBounded : IsBounded version merged.datastore
      merged-IsBounded =
          IsBounded-mono db.oracle.timestamp version db.datastore
            (ground (arith, version_of-newer instant db room)) v.bounded

      -- The fields of the database afterwards.
      log : Persisted version written done.1
      log = persist-Persisted written.persistence version ws disk written tx

      done-clock : done.1.oracle.timestamp ≡ version
      done-clock =
          ap (λ o. o.timestamp) log.oracle
          ∙ ap (λ (d : Inner). d.oracle.timestamp) (store_writes-frame version ws merged)
          ∙ later db.oracle.timestamp version (version_of-newer instant db room)
        where
          later : (a b : ℕ) → a < b → max a b ≡ b
          later a b h = omega arith

      done-merges :
          done.1.transaction_merge_queue
          ≡ SkipMap.remove (SkipMap.insert db.transaction_merge_queue version merge_entry) version
      done-merges =
          log.merges
          ∙ ap (λ (d : Inner). SkipMap.remove d.transaction_merge_queue version)
              (store_writes-frame version ws merged)

      pub done-commits : done.1.transaction_commit_queue ≡ db.transaction_commit_queue
      done-commits =
          log.commits
          ∙ ap (λ (d : Inner). d.transaction_commit_queue) (store_writes-frame version ws merged)

      pub done-commit_id : done.1.transaction_commit_id ≡ db.transaction_commit_id
      done-commit_id =
          log.commit_id
          ∙ ap (λ (d : Inner). d.transaction_commit_id) (store_writes-frame version ws merged)

      pub done-Frame : Frame db done.1
      done-Frame = record {
        oracle_counters =
            log.frame.oracle_counters
            ∙ ap (λ (d : Inner). d.counter_by_oracle) (store_writes-frame version ws merged);
        commit_counters =
            log.frame.commit_counters
            ∙ ap (λ (d : Inner). d.counter_by_commit) (store_writes-frame version ws merged);
        floor =
            log.frame.floor ∙ ap (λ (d : Inner). d.gc_floor) (store_writes-frame version ws merged);
      }

      pub done-handle : done.2 ≡ clear_sets tx
      done-handle = persist-handle written.persistence version ws disk written tx

      done-quiet : (q : ℕ) → SkipMap.get done.1.transaction_merge_queue q ≡ none
      done-quiet q =
          rw
            (
              done-merges,
              SkipMap.get-remove (SkipMap.insert db.transaction_merge_queue version merge_entry)
                  version q,
              SkipMap.get-insert db.transaction_merge_queue version merge_entry q,
              v.quiet q,
            )
            (elim (Bool-cases (eqb q version)) [
              | inl here ↦ rw here refl
              | inr other ↦ rw other refl
            ])

      done-IsBounded : IsBounded done.1.oracle.timestamp done.1.datastore
      done-IsBounded =
          subst (λ (b : ℕ). IsBounded b done.1.datastore) (sym done-clock)
            (subst (IsBounded version) (sym log.datastore)
              (store_writes-IsBounded version ws merged merged-IsBounded))

      done-queued :
          (q : ℕ) (t : Commit)
          → SkipMap.get done.1.transaction_commit_queue q ≡ some t
          → (q ≤ done.1.transaction_commit_id) × IsCommit t
      done-queued q t h =
          let old = v.queued q t (sym (ap (λ m. SkipMap.get m q) done-commits) ∙ h) in
          (subst (λ (n : ℕ). q ≤ n) (sym done-commit_id) old.0, old.1)

      pub done-Merged : Merged db ws done.1
      done-Merged = record {
        version = version;
        newer = version_of-newer instant db room;
        clock = done-clock;
        reads = λ j q.
            ap (λ ds. stored ds j q) log.datastore
            ∙ stored-store_writes version ws merged j q s merged-IsBounded;
        kept = record { bounded = done-IsBounded; quiet = done-quiet; queued = done-queued };
      }

      pub done-result : done.0 ≡ log_result db.persistence done-Merged.version ws disk
      unfolding done-Merged
      done-result =
          persist-result written.persistence version ws disk written tx
          ∙ ap (λ (d : Inner). log_result d.persistence version ws disk)
              (store_writes-frame version ws merged)

      pub done-persistence :
          done.1.persistence ≡ log_after db.persistence done-Merged.version ws disk
      unfolding done-Merged
      done-persistence =
          persist-persistence written.persistence version ws disk written tx refl
          ∙ ap (λ (d : Inner). log_after d.persistence version ws disk)
              (store_writes-frame version ws merged)

      pub merge_writes_done : merge_writes (instant ∷ instants) disk db tx ws ≡ some done
      unfolding merge_writes
      merge_writes_done =
          rw
            (
              atomic_merge_first instant instants
                  (record db { transaction_merge_id = add_u64 db.transaction_merge_id 1 })
                  merge_entry (v.quiet version),
              merge_writes,
            )
            refl

  -- A new database.
  pub new-IsDb : (threshold unix instant : ℕ) → IsDb (Db.new threshold unix instant)
  unfolding Db.new
  new-IsDb threshold unix instant = record {
    bounded = record {
      store = record { chains = λ k. rw (SkipMap.get-empty k) tt };
      at_most = λ k. rw (SkipMap.get-empty k) tt;
    };
    quiet = λ v. SkipMap.get-empty v;
    queued = λ v t h. cc (SkipMap.get-empty {V = Commit} v);
  }
