-- ===== src/System/Calls.antt =====
-- The calls that change the shared state: begin, commit and drop keep the invariant.
use stupid_kv.Base.{
  ℕ, suc, ◌+◌, ◌^◌, ◌<◌, ◌≡◌, refl, sym, ap, subst, Bool, some, none, Option, List, ◌∷◌, ◌++◌,
  bytes_ord, nat_ord, arith, length, Crates,
}
use stupid_kv.Counters.{counter_tombstone}
use stupid_kv.Persistence.{Disk}
use stupid_kv.Db.{Inner}
use stupid_kv.Tx.{TransactionInner}
use stupid_kv.Tx.Begin.{Begun}
use stupid_kv.Tx.Commit.{Committed, commit}
use stupid_kv.Tx.Commit.Stages.{IsDb}
use stupid_kv.Tx.Commit.Outcome.{
  Outcome, commit-Outcome, was_closed, nothing_written, conflicted, applied,
}
use stupid_kv.Pool
use stupid_kv.Pool.Handles.{Got, get-Begun, Dropped, drop-Dropped}
use stupid_kv.System.Handles.{
  by_version, by_commit, lives, IsCount-front, length_middle, IsHandle, All-at, All-remove, All-map,
  IsHandle-later,
}
use stupid_kv.System.Operations.{Handled, Handled-refl}
use stupid_kv.System.Invariant.{Agree, few_lives, replaced-Agree, same-Frame, left_handle}

module _ ⦃c : Crates⦄ where
  module _ (l r : List TransactionInner) (tx : TransactionInner) (db : Inner)
      (v : Agree db (l ++ tx ∷ r)) where
    pub own-IsHandle : IsHandle db.oracle.timestamp db.transaction_commit_id tx
    own-IsHandle = All-at (IsHandle db.oracle.timestamp db.transaction_commit_id) l r tx v.each

    -- The handle of a commit keeps its snapshot, its start and its counters.
    pub outcome-Handled :
        (disk : Disk) (out : Committed)
        → Outcome disk db tx out
        → Handled db.oracle.timestamp db.transaction_commit_id tx out.2
    outcome-Handled disk out (was_closed d e) =
        rw e (Handled-refl db.oracle.timestamp db.transaction_commit_id tx own-IsHandle)
    outcome-Handled disk out (nothing_written d w e) = rw e (record {
      version = refl;
      counter_version = refl;
      commit = refl;
      counter_commit = refl;
      handle = record {
        ascending = own-IsHandle.ascending;
        filter = own-IsHandle.filter;
        readset = own-IsHandle.readset;
        snapshot = own-IsHandle.snapshot;
        start = own-IsHandle.start;
      };
    })
    outcome-Handled disk out (conflicted e d c x s o i left) =
        left_handle _ _ db tx _ out own-IsHandle left
    outcome-Handled disk out (applied d c m x p left) =
        left_handle _ _ db tx _ out own-IsHandle left

    outcome-Agree :
        (disk : Disk) (out : Committed)
        → db.transaction_commit_id + 1 < 2 ^ 64
        → Handled db.oracle.timestamp db.transaction_commit_id tx out.2
        → Outcome disk db tx out
        → Agree out.1 (l ++ out.2 ∷ r)
    outcome-Agree disk out room h (was_closed d e) = rw e v
    outcome-Agree disk out room h (nothing_written d w e) =
        replaced-Agree l r tx out.2 db out.1 v (rw e v.database) (rw e (same-Frame db))
          (ground (arith, e)) (ground (arith, e)) h
    outcome-Agree disk out room h (conflicted e d c x s o i left) =
        replaced-Agree l r tx out.2 db out.1 v i left.frame (ground (arith, o))
          (ground (arith, left.commit_id)) h
    outcome-Agree disk out room h (applied d c m x p left) =
        replaced-Agree l r tx out.2 db out.1 v m.kept left.frame (ground (arith, m.newer, m.clock))
          (ground (arith, left.commit_id)) h

    module _ (rounds instant : ℕ) (instants : List ℕ) (disk : Disk) (out : Committed)
        (returned : commit (suc rounds) (instant ∷ instants) disk db tx ≡ some out)
        (room : db.transaction_commit_id + 1 < 2 ^ 64)
        (ticks : db.oracle.timestamp + 1 < 2 ^ 64) where
      -- The outcome of a commit on the handle.
      pub commit_outcome : Outcome disk db tx out
      commit_outcome =
          let (found, same, o) =
            commit-Outcome disk db tx v.database own-IsHandle.ascending own-IsHandle.readset room
              ticks rounds instant instants in
          let one : found ≡ out = ground (arith, same, returned) in subst (Outcome disk db tx) one o

      pub commit-Agree : Agree out.1 (l ++ out.2 ∷ r)
      commit-Agree =
          outcome-Agree disk out room (outcome-Handled disk out commit_outcome) commit_outcome

    -- The drop of the handle, with the counts of the others.
    pub drop-lives :
        (pool : Pool.Pool)
        → Dropped db
            (lives by_version (l ++ r))
            (lives by_commit (l ++ r))
            (Pool.drop pool db (some tx))
    drop-lives pool =
        drop-Dropped pool db tx (lives by_version (l ++ r)) (lives by_commit (l ++ r))
          (IsCount-front by_version tx r db.counter_by_oracle l v.by_oracle)
          (IsCount-front by_commit tx r db.counter_by_commit l v.by_starts)

    pub drop-Agree :
        (pool : Pool.Pool) (o : Option (Pool.Pool × Inner)) (rest : Pool.Pool) (out : Inner)
        → Dropped db (lives by_version (l ++ r)) (lives by_commit (l ++ r)) o
        → o ≡ some (rest, out)
        → Agree out (l ++ r)
    drop-Agree pool none rest out h e = absurd h
    drop-Agree pool (some (p, found)) rest out (held_o, held_c, frame) e =
        let one : found ≡ out = ground (arith, e) in
        subst (λ x. Agree x (l ++ r)) one
          (record {
            database = subst IsDb (sym frame) (record {
              bounded = v.database.bounded;
              quiet = v.database.quiet;
              queued = v.database.queued;
            });
            by_oracle = held_o;
            by_starts = held_c;
            floor = rw frame v.floor;
            few = ground (arith, v.few, length_middle l r tx);
            each =
                rw frame (
                  All-remove (IsHandle db.oracle.timestamp db.transaction_commit_id) l r tx v.each);
          })

  pub begin-Begun :
      (pool rest : Pool.Pool) (db out : Inner) (write : Bool) (tx : TransactionInner)
      (handles : List TransactionInner)
      → Agree db handles
      → length handles + 1 < counter_tombstone
      → Pool.get pool db write ≡ some (tx, rest, out)
      → Begun db write (lives by_version handles) (lives by_commit handles) tx out
  begin-Begun pool rest db out write tx handles v few e =
      subst (Got db write (lives by_version handles) (lives by_commit handles)) e (
        get-Begun db write (lives by_version handles) (lives by_commit handles) v.by_oracle
          v.by_starts (few_lives by_version handles v.few) (few_lives by_commit handles v.few)
          v.floor pool)

  pub Begun-Agree :
      (db out : Inner) (write : Bool) (tx : TransactionInner) (handles : List TransactionInner)
      → Agree db handles
      → length handles + 1 < counter_tombstone
      → Begun db write (lives by_version handles) (lives by_commit handles) tx out
      → Agree out (tx ∷ handles)
  Begun-Agree db out write tx handles v few b = record {
    database = subst IsDb (sym b.frame) (record {
      bounded = v.database.bounded;
      quiet = v.database.quiet;
      queued = v.database.queued;
    });
    by_oracle = b.oracle_count;
    by_starts = b.commit_count;
    floor = rw b.frame v.floor;
    few = omega (arith, few);
    each =
        let clock : out.oracle.timestamp ≡ db.oracle.timestamp =
          ap (λ (d : Inner). d.oracle.timestamp) b.frame in
        let starts : out.transaction_commit_id ≡ db.transaction_commit_id =
          ap (λ (d : Inner). d.transaction_commit_id) b.frame in
        (
          record {
            ascending = rw b.nothing_written tt;
            filter = b.filter;
            readset = b.readset;
            snapshot = ground (arith, b.version, clock);
            start = ground (arith, b.commit, starts);
          },
          All-map (IsHandle db.oracle.timestamp db.transaction_commit_id) _ handles
              (λ x i. IsHandle-later _ _ _ _ x (omega (arith, clock)) (omega (arith, starts)) i)
              v.each,
        );
  }
