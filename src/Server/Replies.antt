-- ===== src/Server/Replies.antt =====
-- What later requests see once a handler has dropped its transaction, and what a commit adds to it.
use stupid_kv.Base.{
  ℕ, ◌+◌, ◌^◌, ◌<◌, ◌≡◌, ◌≢◌, refl, ap, ◌∙◌, false, Option, none, some, List, [], ◌∷◌, Bytes,
  bytes_ord, nat_ord, arith, Result, ok, Crates,
}
use stupid_kv.Persistence.{Disk}
use stupid_kv.Persistence.Faults.{Logging, logging, fault, after}
use stupid_kv.Tx.Commit.Logged.{commit_told, takes_effect-commit_told, log-Told}
use stupid_kv.Db.{Inner}
use stupid_kv.Tx.{TransactionInner, Error, fetch_in_datastore}
use stupid_kv.Tx.Commit.{Committed}
use stupid_kv.Tx.Commit.Outcome.{
  Outcome, commit-Outcome, was_closed, nothing_written, conflicted, applied,
}
use stupid_kv.Tx.Commit.View.{view, view_outcome}
use stupid_kv.Tx.Commit.Store.{overlay}
use stupid_kv.Pool.{Pool}
use stupid_kv.Pool
use stupid_kv.Pool.Handles.{Dropped}
use stupid_kv.System.Handles.{by_version, by_commit, lives}
use stupid_kv.System.Snapshots.{fetch-frame}
use stupid_kv.System.Invariant.{Agree}
use stupid_kv.System.Calls.{own-IsHandle, commit-Agree, drop-Agree, drop-lives}
use stupid_kv.Server.{committing, dropping, Reply, api_result, answer}

module _ ⦃c : Crates⦄ where
  pub view-frame :
      (db out : Inner) (k : Bytes)
      → out ≡ record db {
        counter_by_oracle = out.counter_by_oracle;
        counter_by_commit = out.counter_by_commit;
      }
      → view out k ≡ view db k
  unfolding view
  view-frame db out k e =
      fetch-frame db out k out.oracle.timestamp e
      ∙ ap (λ (d : Inner). fetch_in_datastore db k d.oracle.timestamp) e

  -- The reply of a request, with the handles that stay open, what later requests see, and how the
  -- next commit writes its log.
  abbrev pub Answers :
      {A : Type 0}
      → Reply A
      → Result Error A
      → List TransactionInner
      → (Bytes → Option Bytes)
      → Logging
      → Type 0
  Answers reply result handles sees log =
      (pool : Pool) × (out : Inner) × (reply ≡ some (api_result result, pool, out))
      × Agree out handles
      × ((k : Bytes) → view out k ≡ sees k)
      × (logging out.persistence ≡ log)

  module _ (db : Inner) (handles : List TransactionInner) (tx : TransactionInner)
      (v : Agree db (tx ∷ handles)) where
    pub dropping-Answers :
        {A : Type 0} (result : Result Error A) (pool : Pool)
        → Answers (dropping result pool db tx) result handles (view db) (logging db.persistence)
    unfolding dropping
    dropping-Answers {A} result pool =
        ended (Pool.drop pool db (some tx)) refl (drop-lives [] handles tx db v pool)
      where
        ended :
            (o : Option (Pool × Inner))
            → Pool.drop pool db (some tx) ≡ o
            → Dropped db (lives by_version handles) (lives by_commit handles) o
            → Answers (dropping result pool db tx) result handles (view db) (logging db.persistence)
        ended none e h = absurd h
        ended (some (pool', out)) e h = (
          pool',
          out,
          rw (e, dropping) refl,
          drop-Agree [] handles tx db v pool (some (pool', out)) pool' out h refl,
          λ k. view-frame db out k h.2,
          ap (λ (d : Inner). logging d.persistence) h.2,
        )

  module _ (db : Inner) (handles : List TransactionInner) (tx : TransactionInner)
      (v : Agree db (tx ∷ handles)) where
    module _ (alone : tx.commit ≡ db.transaction_commit_id) (active : tx.done ≡ false)
        (some_write : tx.writeset ≢ []) where
      -- A commit of a transaction that no other commit came in between takes effect, and its
      -- result is what its log says.
      alone-Told :
          (disk : Disk) (out : Committed)
          → db.transaction_commit_id + 1 < 2 ^ 64
          → Outcome disk db tx out
          → (out.0 ≡ commit_told (fault (logging db.persistence) disk))
            × (logging out.1.persistence ≡ after (logging db.persistence) disk)
      alone-Told disk out room (was_closed d e) = cc
      alone-Told disk out room (nothing_written d w e) = absurd (some_write w)
      alone-Told disk out room (conflicted e d (q, t, (at, later, before), same) x s o i left) =
          absurd (omega (arith, alone, later, (v.database.queued q t at).0))
      alone-Told disk out room (applied d f m x p left) =
          let (answered, next) = log-Told db.persistence m.version tx.writeset disk in
          (x ∙ answered, ap logging p ∙ next)

      pub committing-Answers :
          {A : Type 0} (a : A) (instant : ℕ) (instants : List ℕ) (disk : Disk) (pool : Pool)
          → db.transaction_commit_id + 1 < 2 ^ 64
          → db.oracle.timestamp + 1 < 2 ^ 64
          → Answers
              (committing 1 (instant ∷ instants) disk pool db (ok a, tx))
              (answer a (commit_told (fault (logging db.persistence) disk)))
              handles
              (λ k. overlay tx.writeset k (view db k))
              (after (logging db.persistence) disk)
      unfolding committing
      committing-Answers a instant instants disk pool room ticks =
          let h = own-IsHandle [] handles tx db v in
          let (out, same, o) =
            commit-Outcome disk db tx v.database h.ascending h.readset room ticks 0 instant
              instants in
          let (result, next) = alone-Told disk out room o in
          let closed =
            commit-Agree [] handles tx db v 0 instant instants disk out same room ticks in
          let (pool', db', replied, agreed, sees, log) =
            dropping-Answers out.1 handles out.2 closed (answer a out.0) pool in
          (
            pool',
            db',
            rw (same, committing)
                (replied ∙ ap (λ r. some (api_result (answer a r), pool', db')) result),
            agreed,
            λ k.
                sees k
                ∙ view_outcome disk db tx out k v.database o
                ∙ rw (result, takes_effect-commit_told (fault (logging db.persistence) disk)) refl,
            log ∙ next,
          )
