-- ===== src/System/Progress.antt =====
-- Every call returns.
use stupid_kv.Base.{
  ℕ, ◌+◌, ◌^◌, ◌<◌, ◌≡◌, refl, subst, Bool, some, none, Option, List, [], ◌∷◌, ◌++◌, nat_ord,
  bytes_ord, Crates,
}
use stupid_kv.Counters.Holders.{Live}
use stupid_kv.Persistence.{Disk}
use stupid_kv.Db.{Inner}
use stupid_kv.Tx.{TransactionInner}
use stupid_kv.Tx.Commit.{Committed, commit}
use stupid_kv.Tx.Commit.Outcome.{commit-Outcome}
use stupid_kv.Pool.{Pool}
use stupid_kv.Pool
use stupid_kv.Pool.Handles.{Got, get-Begun, Dropped}
use stupid_kv.System.{System}
use stupid_kv.System.Handles.{by_version, by_commit, lives}
use stupid_kv.System.Invariant.{Agree, IsConsistent, few_lives}
use stupid_kv.System.Calls.{drop-lives, own-IsHandle}
use stupid_kv.System.Steps.{Run, started, Run-IsConsistent, started-IsConsistent}

module _ ⦃c : Crates⦄ where
  -- The calls that wait for a place or a counter, from the state: `begin`, and on each open handle
  -- `commit` and the drop.
  pub record Returns (s : System) : Type 0 where
    pub begin :
        (write : Bool)
        → (out : TransactionInner × Pool × Inner) × (Pool.get s.pool s.db write ≡ some out)
    pub committed :
        (l r : List TransactionInner) (tx : TransactionInner) (instant : ℕ) (disk : Disk)
        → s.handles ≡ l ++ tx ∷ r
        → (out : Committed) × (commit 1 (instant ∷ []) disk s.db tx ≡ some out)
    pub dropped :
        (l r : List TransactionInner) (tx : TransactionInner)
        → s.handles ≡ l ++ tx ∷ r
        → (out : Pool × Inner) × (Pool.drop s.pool s.db (some tx) ≡ some out)

  Got-some :
      (db : Inner) (write : Bool) (a b : Live) (o : Option (TransactionInner × Pool × Inner))
      → Got db write a b o
      → (out : TransactionInner × Pool × Inner) × (o ≡ some out)
  Got-some db write a b none h = absurd h
  Got-some db write a b (some out) h = (out, refl)

  Dropped-some :
      (db : Inner) (a b : Live) (o : Option (Pool × Inner))
      → Dropped db a b o
      → (out : Pool × Inner) × (o ≡ some out)
  Dropped-some db a b none h = absurd h
  Dropped-some db a b (some out) h = (out, refl)

  consistent-Returns :
      (s : System)
      → IsConsistent s
      → s.db.transaction_commit_id + 1 < 2 ^ 64
      → s.db.oracle.timestamp + 1 < 2 ^ 64
      → Returns s
  consistent-Returns s v room ticks = record {
    begin = λ write.
        Got-some s.db write (lives by_version s.handles) (lives by_commit s.handles) _ (
          get-Begun s.db write (lives by_version s.handles) (lives by_commit s.handles) v.by_oracle
            v.by_starts (few_lives by_version s.handles v.few) (few_lives by_commit s.handles v.few)
            v.floor s.pool);
    committed = λ l r tx instant disk at.
        let w = subst (λ x. Agree s.db x) at v in
        let h = own-IsHandle l r tx s.db w in
        let (out, same, o) =
          commit-Outcome disk s.db tx v.database h.ascending h.readset room ticks 0 instant [] in
        (out, same);
    dropped = λ l r tx at.
        Dropped-some s.db (lives by_version (l ++ r)) (lives by_commit (l ++ r)) _
          (drop-lives l r tx s.db (subst (λ x. Agree s.db x) at v) s.pool);
  }

  -- After any run from a database that was just made, while the commit id and the timestamp have
  -- room below 2^64, no call spins: `begin` returns a transaction, and for each open handle `commit`
  -- returns after one round of each of its loops, whatever the clock and the disk say, and so does
  -- the drop of the handle.
  pub run-Returns :
      (size reset_threshold unix instant : ℕ) (s : System)
      → Run (started size reset_threshold unix instant) s
      → s.db.transaction_commit_id + 1 < 2 ^ 64
      → s.db.oracle.timestamp + 1 < 2 ^ 64
      → Returns s
  run-Returns size reset_threshold unix instant s run room ticks =
      consistent-Returns s
        (Run-IsConsistent _ s run (started-IsConsistent size reset_threshold unix instant)) room
        ticks
