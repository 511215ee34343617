-- ===== src/Python/Exit.antt =====
-- The end of a `with` block of a Python transaction.
use stupid_kv.Base.{
  ℕ, suc, ◌+◌, ◌^◌, ◌<◌, ◌≡◌, ◌∙◌, ap, refl, bytes_ord, arith, [], Bool, true, false, ◌||◌, some,
  List, ◌∷◌, Result, Crates, Bool-cases, if◌then◌else◌, inl, inr,
}
use stupid_kv.Base.BTreeMap.{IsAscending}
use stupid_kv.Queue.Disjoint.{IsReadset}
use stupid_kv.Persistence.{Disk}
use stupid_kv.Db.{Inner}
use stupid_kv.Tx.{TransactionInner, Error, clear_sets}
use stupid_kv.Tx
use stupid_kv.Tx.Commit.{Committed}
use stupid_kv.Tx.Commit.Stages.{IsDb}
use stupid_kv.Tx.Commit.Outcome.{
  Outcome, commit-Outcome, was_closed, nothing_written, conflicted, applied,
}
use stupid_kv.Python.{closed, exit, exit_open}

module _ ⦃c : Crates⦄ where
  -- What the end of a block does to the database and the transaction.
  pub data Exited (disk : Disk) (db : Inner) (tx : TransactionInner) (raised : Bool) (db' : Inner)
      (tx' : TransactionInner) : Type 0 where
    unchanged : tx.done || raised ≡ true → db' ≡ db → Exited disk db tx raised db' tx'
    committed :
        (result : Result Error (Unit {0}))
        → raised ≡ false
        → Outcome disk db tx (result, db', tx')
        → Exited disk db tx raised db' tx'

  clear_sets_done : (tx : TransactionInner) → (clear_sets tx).done ≡ tx.done
  unfolding clear_sets
  clear_sets_done tx = ground arith

  -- Every commit leaves its transaction closed.
  Outcome-closed :
      (disk : Disk) (db : Inner) (tx : TransactionInner) (out : Committed)
      → Outcome disk db tx out
      → out.2.done ≡ true
  Outcome-closed disk db tx out (was_closed done same) =
      ap (λ (o : Committed). o.2.done) same ∙ done
  Outcome-closed disk db tx out (nothing_written done none_written same) =
      ap (λ (o : Committed). o.2.done) same
  Outcome-closed disk db tx out (conflicted e done verdict result store clock v left) =
      ap (λ (t : TransactionInner). t.done) left.handle
      ∙ clear_sets_done (record tx { done = true; writeset = [] })
  Outcome-closed disk db tx out (applied done verdict m result log left) =
      ap (λ (t : TransactionInner). t.done) left.handle
      ∙ clear_sets_done (record tx { done = true; writeset = [] })

  cancel_done : (tx : TransactionInner) → tx.done ≡ false → (Tx.cancel tx).1.done ≡ true
  unfolding Tx.cancel
  cancel_done tx active = rw (active) (clear_sets_done (record tx { done = true }))

  -- On a database with no commit under way, for a transaction with an ascending write set and a
  -- sound read filter, and with room for one more commit id and one more timestamp below 2^64: the
  -- end of a `with` block returns, it answers false and leaves the transaction closed. Where the
  -- transaction was closed before, or an exception is in flight, the database is as it was; else
  -- the block has committed, with whichever outcome, a conflict included, and the answer is the
  -- same.
  pub exit-Exited :
      (disk : Disk) (db : Inner) (tx : TransactionInner)
      → IsDb db
      → IsAscending tx.writeset
      → IsReadset tx.readset tx.readset_bloom
      → db.transaction_commit_id + 1 < 2 ^ 64
      → db.oracle.timestamp + 1 < 2 ^ 64
      → (rounds instant : ℕ) (instants : List ℕ) (raised : Bool)
      → (db' : Inner) × (tx' : TransactionInner) × (exit
            (suc rounds)
            (instant ∷ instants)
            disk
            db
            (some tx)
            raised
          ≡ some (false, db', some tx'))
        × (closed (some tx') ≡ true)
        × Exited disk db tx raised db' tx'
  unfolding exit exit_open closed Tx.closed Tx.cancel clear_sets
  exit-Exited disk db tx v s readset room ticks rounds instant instants raised =
      elim (Bool-cases tx.done) [
        | inl done ↦ (db, tx, rw (done) refl, done, unchanged (ground (arith, done)) refl)
        | inr active ↦ elim (Bool-cases raised) [
          | inl e ↦ (
            db,
            (Tx.cancel tx).1,
            rw (active, e) refl,
            cancel_done tx active,
            unchanged (ground (arith, e)) refl,
          )
          | inr e ↦
              let (out, same, o) =
                commit-Outcome disk db tx v s readset room ticks rounds instant instants in
              (
                out.1,
                out.2,
                ap
                      (λ b.
                        if b
                        then some (false, db, some tx)
                        else exit_open (suc rounds) (instant ∷ instants) disk db tx raised)
                      active
                    ∙ rw (e, same) refl,
                Outcome-closed disk db tx out o,
                committed out.0 e o,
              )
        ]
      ]
