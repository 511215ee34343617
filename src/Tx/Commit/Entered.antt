-- ===== src/Tx/Commit/Entered.antt =====
-- A commit whose entry is in the commit queue: the database then, the database once the entry is
-- taken out again, and what the walk finds.
use stupid_kv.Base.{
  ℕ, ◌+◌, ◌^◌, ◌≤◌, ◌<◌, ◌≡◌, subst, true, false, Option, none, some, [], nat_ord, bytes_ord, arith,
  eqb, eqb_iff, if◌then◌else◌, add_u64, Crates, Option-cases, Bool-cases, inl, inr,
}
use stupid_kv.Base.BTreeMap.{IsAscending}
use stupid_kv.Base.SkipMap
use stupid_kv.Queue.{Commit}
use stupid_kv.Queue.Disjoint.{IsCommit, IsReadset}
use stupid_kv.Db.{Inner}
use stupid_kv.Tx.{TransactionInner, Error}
use stupid_kv.Tx.Commit.{commit_entry, find_conflict}
use stupid_kv.Tx.Commit.Entry.{commit_entry-IsCommit}
use stupid_kv.Tx.Commit.Conflict.{Verdict, find_conflict-Verdict}
use stupid_kv.Tx.Commit.Stages.{IsDb}

module _ ⦃c : Crates⦄ where
  -- The queued entry of the transaction.
  abbrev pub own_entry : Inner → TransactionInner → Commit
  own_entry db tx = commit_entry tx.writeset (add_u64 db.transaction_queue_id 1)

  module _ (tx : TransactionInner) where
    abbrev pub taken : TransactionInner
    taken = record tx { done = true; writeset = [] }

  module _ (db : Inner) (tx : TransactionInner) where
    abbrev pub place : ℕ
    place = add_u64 db.transaction_commit_id 1

    abbrev pub queued : Inner
    queued = record db {
      transaction_queue_id = add_u64 db.transaction_queue_id 1;
      transaction_commit_queue = SkipMap.insert db.transaction_commit_queue place (own_entry db tx);
      transaction_commit_id = place;
    }

    abbrev pub dropped : Inner
    dropped = record queued {
      transaction_commit_queue = SkipMap.remove queued.transaction_commit_queue place;
    }

    module _ (v : IsDb db) (s : IsAscending tx.writeset)
        (readset : IsReadset tx.readset tx.readset_bloom)
        (room : db.transaction_commit_id + 1 < 2 ^ 64) where
      place-eq : place ≡ db.transaction_commit_id + 1
      place-eq = omega arith

      pub place-free : SkipMap.get db.transaction_commit_queue place ≡ none
      place-free = elim (Option-cases (SkipMap.get db.transaction_commit_queue place)) [
        | inl e ↦ e
        | inr (t, e) ↦ absurd (ground (arith, v.queued place t e, place-eq))
      ]

      own-IsCommit : IsCommit (own_entry db tx)
      own-IsCommit = commit_entry-IsCommit tx.writeset (add_u64 db.transaction_queue_id 1) s

      pub get-queued :
          (q : ℕ)
          → SkipMap.get queued.transaction_commit_queue q ≡ (
              if eqb q place
              then some (own_entry db tx)
              else SkipMap.get db.transaction_commit_queue q)
      get-queued q = SkipMap.get-insert db.transaction_commit_queue place (own_entry db tx) q

      module _ (q : ℕ) (t : Commit)
          (h : SkipMap.get queued.transaction_commit_queue q ≡ some t) where
        own : eqb q place ≡ true → own_entry db tx ≡ t
        own here = ground (arith, get-queued q)

        older : eqb q place ≡ false → SkipMap.get db.transaction_commit_queue q ≡ some t
        older other = ground (arith, get-queued q)

        queued_sound : (q ≤ place) × IsCommit t
        queued_sound = elim (Bool-cases (eqb q place)) [
          | inl here ↦ (ground (arith, eqb_iff q place), subst IsCommit (own here) own-IsCommit)
          | inr other ↦
              let (below, sound) = v.queued q t (older other) in (ground (arith, place-eq), sound)
        ]

      pub queued-IsDb : IsDb queued
      queued-IsDb = record { bounded = v.bounded; quiet = v.quiet; queued = queued_sound }

      pub dropped-IsDb : IsDb dropped
      dropped-IsDb = record {
        bounded = v.bounded;
        quiet = v.quiet;
        queued = λ q t h.
            queued_sound q t
              (ground (arith, SkipMap.get-remove queued.transaction_commit_queue place q));
      }

      -- The own entry is outside the window.
      outside :
          (o : Option Error)
          → Verdict
              (taken tx)
              (own_entry db tx)
              (add_u64 tx.commit 1)
              place
              (SkipMap.get queued.transaction_commit_queue)
              o
          → Verdict tx
              (own_entry db tx)
              (add_u64 tx.commit 1)
              (db.transaction_commit_id + 1)
              (SkipMap.get db.transaction_commit_queue)
              o
      outside none all =
          λ q t h. all q t (ground (arith, get-queued q, eqb_iff q place, h.0, h.1, h.2, place-eq))
      outside (some e) (q, t, h, same) = (
        q,
        t,
        (older q t h.0 (ground (arith, eqb_iff q place, h.2)), h.1, ground (arith, h.2, place-eq)),
        same,
      )

      pub verdict :
          Verdict tx
            (own_entry db tx)
            (add_u64 tx.commit 1)
            (db.transaction_commit_id + 1)
            (SkipMap.get db.transaction_commit_queue)
            (find_conflict (taken tx) (own_entry db tx) place queued)
      verdict = outside (find_conflict (taken tx) (own_entry db tx) place queued) (
          find_conflict-Verdict (taken tx) (own_entry db tx) place own-IsCommit readset queued
            (λ q t h. (queued_sound q t h).1))
